-- ===== src/Start/Number/Print.antt =====
-- Numbers of lab2's server that are printed and parsed.
use mathlib.Core.List.{append-nil, append_assoc}
use native.Mathlib.Nat.{pow-suc}
use stanford_cs240_sp21_labs.Base.{Bool, Bool-cases, [], ap, arith, false, inl, inr, length}
use stanford_cs240_sp21_labs.Base.{length-append, ltb, refl, some, suc, sym, take_all, true, zero}
use stanford_cs240_sp21_labs.Base.{ℕ, ◌%◌, ◌&&◌, ◌*◌, ◌++◌, ◌+◌, ◌/◌, ◌<◌, ◌==◌, ◌^◌, ◌∙◌, ◌∷◌}
use stanford_cs240_sp21_labs.Base.{◌≡◌, ◌≤◌}
use stanford_cs240_sp21_labs.Base.Bytes.{Bytes}
use stanford_cs240_sp21_labs.Base.Int.{negsuc, pos, ℤ}
use stanford_cs240_sp21_labs.Chloros.Tally.{one}
use stanford_cs240_sp21_labs.Start.Number.{Strtol, choose_base, clamp, digit_value, digits}
use stanford_cs240_sp21_labs.Start.Number.{is_limit, long_max, parse_number, print_long}
use stanford_cs240_sp21_labs.Start.Number.{read_digits, skip_space, strtol, take_sign, tcp_url}
use stanford_cs240_sp21_labs.Start.Number.{url_scheme}

-- The range of a long.
abbrev pub IsLong : ℤ → Type 0
IsLong (pos n) = n ≤ long_max
IsLong (negsuc n) = n ≤ long_max

-- The digits of a number that is not 0, from one between 1 and 9 on.
digits-head :
    (f n : ℕ)
    → 0 < n
    → n < 10 ^ f
    → (h : ℕ) × (t : Bytes) × (digits f n ≡ h ∷ t) × (b'1' ≤ h) × (h ≤ b'9')
unfolding digits
digits-head zero n pos_n small = absurd (omega arith)
digits-head (suc f) n pos_n small = elim (Bool-cases (ltb n 10)) [
  | inl one ↦ (b'0' + n, [], rw one refl, omega arith, ground arith)
  | inr more ↦
      let (h, t, e, low, high) =
        digits-head f (n / 10) (ground arith) (ground (arith, pow-suc 10 f)) in
      (h, t ++ (b'0' + n % 10) ∷ [], rw (more, e) refl, low, high)
]

length-digits : (f g n : ℕ) → n < 10 ^ g → 0 < g → length (digits f n) ≤ g
unfolding digits
length-digits zero g n small some_g = omega arith
length-digits (suc f) zero n small some_g = absurd (omega arith)
length-digits (suc f) (suc zero) n small some_g = ground arith
length-digits (suc f) (suc (suc g)) n small some_g = ground (
  arith,
  pow-suc 10 (suc g),
  length-digits f (suc g) (n / 10),
  length-append {0} (digits f (n / 10)) ((b'0' + n % 10) ∷ []),
)

digit_value-digit : (k : ℕ) → k < 10 → digit_value (b'0' + k) ≡ k
unfolding digit_value
digit_value-digit k h = ground arith

read_digits-cons :
    (v c k : ℕ) (s : Bytes)
    → k < 10
    → read_digits 10 v c ((b'0' + k) ∷ s) ≡ read_digits 10 (v * 10 + k) (c + 1) s
unfolding read_digits
read_digits-cons v c k s h =
    let below : ltb k 10 ≡ true = ground arith in rw (digit_value-digit k h, below) refl

read_digits-digits :
    (f n : ℕ) (rest : Bytes)
    → n < 10 ^ f
    → read_digits 10 0 0 (digits f n ++ rest) ≡ read_digits 10 n (length (digits f n)) rest
unfolding digits
read_digits-digits zero n rest small =
    let none_left : n ≡ 0 = omega arith in ap (λ (v : ℕ). read_digits 10 v 0 rest) (sym none_left)
read_digits-digits (suc f) n rest small = elim (Bool-cases (ltb n 10)) [
  | inl one ↦
      let first : 0 * 10 + n ≡ n = omega arith in
      rw one
        (read_digits-cons 0 0 n rest (ground arith) ∙ ap (λ (v : ℕ). read_digits 10 v 1 rest) first)
  | inr more ↦
      let front = digits f (n / 10) in
      let value : n / 10 * 10 + n % 10 ≡ n = omega arith in
      let count : length front + 1 ≡ length (front ++ (b'0' + n % 10) ∷ []) =
        omega (arith, length-append {0} front ((b'0' + n % 10) ∷ [])) in
      rw more (
        ap (read_digits 10 0 0) (append_assoc front ((b'0' + n % 10) ∷ []) rest)
        ∙ read_digits-digits f (n / 10) ((b'0' + n % 10) ∷ rest) (ground (arith, pow-suc 10 f))
        ∙ read_digits-cons (n / 10) (length front) (n % 10) rest (omega arith)
        ∙ ap (λ (v : ℕ). read_digits 10 v (length front + 1) rest) value
        ∙ ap (λ (c : ℕ). read_digits 10 n c rest) count)
]

choose_base-plain : (h : ℕ) (t : Bytes) → b'1' ≤ h → choose_base (h ∷ t) ≡ (10, h ∷ t)
unfolding choose_base
choose_base-plain h [] low = ground arith
choose_base-plain h (x ∷ []) low = ground arith
choose_base-plain h (x ∷ d ∷ t) low = ground arith

-- A string that starts as a printed number does.
plain_head :
    (h : ℕ) (t : Bytes)
    → b'1' ≤ h
    → h ≤ b'9'
    → (skip_space (h ∷ t) ≡ h ∷ t) × (take_sign (h ∷ t) ≡ (false, h ∷ t))
unfolding skip_space take_sign
plain_head h t low high = (ground arith, ground arith)

all_read :
    (n : ℕ) → n < 10 ^ 20 → read_digits 10 0 0 (digits 20 n ++ []) ≡ (n, length (digits 20 n), [])
unfolding read_digits
all_read n small = read_digits-digits 20 n [] small

-- The number behind the sign.
read_number :
    (n : ℕ) (negative : Bool) (s : Bytes)
    → 0 < n
    → n ≤ long_max + 1
    → take_sign (skip_space s) ≡ (negative, digits 20 n)
    → strtol s ≡ record {
      result = (clamp negative n).0;
      rest = [];
      parsed = true;
      erange = (clamp negative n).1;
    }
unfolding strtol
read_number n negative s pos_n small sign =
    let (h, t, e, low, high) = digits-head 20 n pos_n (omega arith) in
    let based : choose_base (digits 20 n) ≡ (10, digits 20 n) = rw e (choose_base-plain h t low) in
    let read : read_digits 10 0 0 (digits 20 n) ≡ (n, length (digits 20 n), []) =
      ap (read_digits 10 0 0) (sym (append-nil (digits 20 n))) ∙ all_read n (omega arith) in
    let some_digits : (length (digits 20 n) == 0) ≡ false = rw e (ground arith) in
    rw (sign, based, read, some_digits) refl

in_range :
    (stale : Bool) (s : Bytes) (n : ℤ)
    → strtol s ≡ record { result = n; rest = []; parsed = true; erange = false }
    → (stale && is_limit n) ≡ false
    → parse_number stale s ≡ (pos 1, some n)
unfolding parse_number
in_range true s n h clear = rw (h, clear) refl
in_range false s n h clear = rw h refl

abbrev fitted : ℤ × Bool → Strtol
fitted p = record { result = p.0; rest = []; parsed = true; erange = p.1 }

-- A number in range is not cut.
clamp_fits :
    (n : ℕ)
    → n ≤ long_max
    → (clamp false n ≡ (pos n, false)) × (clamp true (n + 1) ≡ (negsuc n, false))
unfolding clamp
clamp_fits n small = (ground arith, ground arith)

zero_read :
    strtol (digits 20 0) ≡ record { result = pos 0; rest = []; parsed = true; erange = false }
unfolding strtol digits digit_value
zero_read = refl

digits-plain :
    (n : ℕ) → 0 < n → n ≤ long_max → take_sign (skip_space (digits 20 n)) ≡ (false, digits 20 n)
digits-plain n pos_n small =
    let (h, t, e, low, high) = digits-head 20 n pos_n (omega arith) in
    let (skipped, unsigned) = plain_head h t low high in rw (e, skipped) unsigned

minus_sign : (s : Bytes) → take_sign (skip_space (b'-' ∷ s)) ≡ (true, s)
unfolding skip_space take_sign
minus_sign s = refl

-- A long as it is printed by `%ld` is parsed as the number that it is, with no other text; where
-- `errno` is ERANGE before the call, if it is none of the two limits.
pub parse_number-print_long :
    (stale : Bool) (n : ℤ)
    → IsLong n
    → (stale && is_limit n) ≡ false
    → parse_number stale (print_long n) ≡ (pos 1, some n)
unfolding print_long
parse_number-print_long stale (pos zero) small clear = in_range stale _ (pos 0) zero_read clear
parse_number-print_long stale (pos (suc n)) small clear =
    in_range stale _ (pos (suc n))
      (read_number (suc n) false _ (omega arith) (omega arith)
          (digits-plain (suc n) (omega arith) small)
        ∙ ap fitted (clamp_fits (suc n) small).0)
      clear
parse_number-print_long stale (negsuc n) small clear =
    in_range stale _ (negsuc n)
      (read_number (n + 1) true _ (omega arith) (omega arith) (minus_sign (digits 20 (n + 1)))
        ∙ ap fitted (clamp_fits n small).1)
      clear

length-print_long : (n : ℤ) → IsLong n → length (print_long n) ≤ 20
unfolding print_long
length-print_long (pos n) small = omega (arith, length-digits 20 19 n)
length-print_long (negsuc n) small = omega (arith, length-digits 20 19 (n + 1))

-- The buffer of the URL is large enough for the port, if it is a long: the URL is not cut off.
pub tcp_url_lem : (port : ℤ) → IsLong port → tcp_url port ≡ url_scheme ++ print_long port
unfolding tcp_url
tcp_url_lem port small =
    take_all 28 (url_scheme ++ print_long port) (omega (arith, length-print_long port small))
