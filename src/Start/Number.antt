-- ===== src/Start/Number.antt =====
-- `parse_number` of lab2/src/server/main.c, with the C library's `strtol` in base 0, and the URL that
-- is printed from a port. A string is the bytes before its NUL, and a long has 64 bits.
pub mod Print
use stanford_cs240_sp21_labs.Base.{Bool, Option, [], false, if◌then◌else◌, leb, ltb, none, not}
use stanford_cs240_sp21_labs.Base.{some, suc, take, true, zero, ℕ, ◌%◌, ◌&&◌, ◌*◌, ◌++◌, ◌+◌, ◌-◌}
use stanford_cs240_sp21_labs.Base.{◌/◌, ◌==◌, ◌^◌, ◌||◌, ◌∷◌}
use stanford_cs240_sp21_labs.Base.Bytes.{Bytes}
use stanford_cs240_sp21_labs.Base.Int.{negsuc, pos, ℤ}
use stanford_cs240_sp21_labs.Client.State.{minus}

abbrev pub long_max : ℕ
long_max = 2 ^ 63 - 1

abbrev pub is_space : ℕ → Bool
is_space c = c == 32 || leb 9 c && leb c 13

-- The value of a digit, 36 or more where there is none.
unfoldable pub digit_value : ℕ → ℕ
digit_value c =
    if leb b'0' c && leb c b'9'
    then c - b'0'
    else if leb b'a' c && leb c b'z'
    then c - b'a' + 10
    else if leb b'A' c && leb c b'Z'
    then c - b'A' + 10
    else 36

unfoldable pub skip_space : Bytes → Bytes
skip_space [] = []
skip_space (c ∷ s) = if is_space c then skip_space s else c ∷ s

-- The digits at the head of a string: their value, how many there are, and the rest.
unfoldable pub read_digits : ℕ → ℕ → ℕ → Bytes → ℕ × ℕ × Bytes
read_digits base value count [] = (value, count, [])
read_digits base value count (c ∷ s) =
    let more = read_digits base (value * base + digit_value c) (count + 1) s in
    if ltb (digit_value c) base then more else (value, count, c ∷ s)

-- The prefix that chooses the base. `0x` counts only with a digit behind it.
unfoldable pub choose_base : Bytes → ℕ × Bytes
choose_base [] = (10, [])
choose_base (z ∷ []) = (if z == b'0' then 8 else 10, z ∷ [])
choose_base (z ∷ x ∷ []) = (if z == b'0' then 8 else 10, z ∷ x ∷ [])
choose_base (z ∷ x ∷ d ∷ s) =
    if z == b'0'
    then (if (x == b'x' || x == b'X') && ltb (digit_value d) 16
        then (16, d ∷ s)
        else (8, z ∷ x ∷ d ∷ s))
    else (10, z ∷ x ∷ d ∷ s)

-- The sign, and the string behind it.
unfoldable pub take_sign : Bytes → Bool × Bytes
take_sign [] = (false, [])
take_sign (c ∷ s) = if c == b'-' then (true, s) else (false, if c == b'+' then s else c ∷ s)

-- What `strtol` gives: the number, the rest of the string at `end`, whether a number was there, and
-- whether it set `errno` to ERANGE.
pub record Strtol : Type 0 where
  pub result : ℤ
  pub rest : Bytes
  pub parsed : Bool
  pub erange : Bool

-- The number in the range of a long.
unfoldable pub clamp : Bool → ℕ → ℤ × Bool
clamp true n = if leb n (long_max + 1) then (minus n, false) else (minus (long_max + 1), true)
clamp false n = if leb n long_max then (pos n, false) else (pos long_max, true)

unfoldable pub strtol : Bytes → Strtol
unfolding skip_space take_sign choose_base read_digits clamp
strtol s =
    let (negative, s1) = take_sign (skip_space s) in
    let (base, s2) = choose_base s1 in
    let (value, count, s3) = read_digits base 0 0 s2 in
    let (result, erange) = clamp negative value in
    if count == 0
    then record { result = pos 0; rest = s; parsed = false; erange = false }
    else record { result = result; rest = s3; parsed = true; erange = erange }

-- `LONG_MAX` or `LONG_MIN`.
abbrev pub is_limit : ℤ → Bool
is_limit (pos n) = n == long_max
is_limit (negsuc n) = n == long_max

abbrev pub is_empty : Bytes → Bool
is_empty [] = true
is_empty (c ∷ s) = false

-- The function's result, and the number that it stores, if it stores one. `stale` says whether
-- `errno` was ERANGE before the call.
unfoldable pub parse_number : Bool → Bytes → ℤ × Option ℤ
parse_number stale s =
    let r = strtol s in
    if not r.parsed
    then (negsuc 0, none)
    else if (stale || r.erange) && is_limit r.result
    then (negsuc 0, none)
    else (if is_empty r.rest then pos 1 else pos 0, some r.result)

-- `%ld`. A long has at most 19 digits.
unfoldable pub digits : ℕ → ℕ → Bytes
digits zero n = []
digits (suc f) n =
    let front = digits f (n / 10) in
    if ltb n 10 then (b'0' + n) ∷ [] else front ++ (b'0' + n % 10) ∷ []

unfoldable pub print_long : ℤ → Bytes
print_long (pos n) = digits 20 n
print_long (negsuc n) = b'-' ∷ digits 20 (n + 1)

abbrev pub url_scheme : Bytes
url_scheme = b't' ∷ b'c' ∷ b'p' ∷ b':' ∷ b'/' ∷ b'/' ∷ b'*' ∷ b':' ∷ []

-- `snprintf` into 29 bytes, the NUL included.
unfoldable pub tcp_url : ℤ → Bytes
tcp_url port = take 28 (url_scheme ++ print_long port)
