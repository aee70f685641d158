-- ===== src/Base/Bytes.antt =====
-- Byte buffers, C strings in them, and 64-bit words as the eight bytes that they occupy.
-- A word is stored with its least byte first, as on the machines that the program runs on.
use stanford_cs240_sp21_labs.Base.Tests.{◌==◌, if◌then◌else◌}
use stanford_cs240_sp21_labs.Base.Lists.{All, length}
use Prim.Native.Nat.{ℕ, zero, suc, ◌+◌, ◌*◌, ◌/◌, ◌%◌, ◌^◌, ◌<◌}
use mathlib.Core.Path.{◌≡◌, refl, ap}
use mathlib.Core.Logic.{◌≢◌, ◌↔◌}
use mathlib.Core.Bool.{Bool, true, false, ◌&&◌}
use mathlib.Core.List.{List, [], ◌∷◌, ◌++◌}
use native.Mathlib.Nat.{pow-suc}
use native.Mathlib.Omega.{arith}

abbrev pub Bytes : Type 0
Bytes = List ℕ

abbrev pub IsBytes : Bytes → Type 0
IsBytes = All (λ b. b < 256)

-- The C string that starts a buffer: what stands before its first NUL.
unfoldable pub c_str : Bytes → Bytes
c_str [] = []
c_str (b ∷ bs) = if b == 0 then [] else b ∷ c_str bs

-- The `strlen + 1` bytes of a C string.
abbrev pub terminated : Bytes → Bytes
terminated s = s ++ (0 ∷ [])

abbrev pub NoNul : Bytes → Type 0
NoNul = All (λ b. b ≢ 0)

unfoldable pub bytes_eq : Bytes → Bytes → Bool
bytes_eq [] [] = true
bytes_eq [] (b ∷ bs) = false
bytes_eq (a ∷ as') [] = false
bytes_eq (a ∷ as') (b ∷ bs) = a == b && bytes_eq as' bs

abbrev pub u64_mod : ℕ
u64_mod = 2 ^ 64

-- A conversion to `uint64_t`.
abbrev pub u64 : ℕ → ℕ
u64 n = n % u64_mod

unfoldable pub le_bytes : ℕ → ℕ → Bytes
le_bytes zero n = []
le_bytes (suc k) n = (n % 256) ∷ le_bytes k (n / 256)

unfoldable pub from_le : Bytes → ℕ
from_le [] = 0
from_le (b ∷ bs) = b + 256 * from_le bs

pub length-le_bytes : (k n : ℕ) → length (le_bytes k n) ≡ k
unfolding le_bytes
length-le_bytes zero n = refl
length-le_bytes (suc k) n = ap suc (length-le_bytes k (n / 256))

pub le_bytes-from_le : (bs : Bytes) → IsBytes bs → le_bytes (length bs) (from_le bs) ≡ bs
unfolding le_bytes from_le
le_bytes-from_le [] h = refl
le_bytes-from_le (b ∷ bs) h =
    let lo : (b + 256 * from_le bs) % 256 ≡ b = omega arith in
    let hi : (b + 256 * from_le bs) / 256 ≡ from_le bs = omega arith in
    rw (lo, hi, le_bytes-from_le bs h.1)

pub from_le-le_bytes : (k n : ℕ) → n < 256 ^ k → from_le (le_bytes k n) ≡ n
unfolding le_bytes from_le
from_le-le_bytes zero n h = omega arith
from_le-le_bytes (suc k) n h =
    let small : n / 256 < 256 ^ k = omega (arith, pow-suc 256 k) in
    omega (arith, from_le-le_bytes k (n / 256) small)

pub c_str-terminated : (s : Bytes) → NoNul s → c_str (terminated s) ≡ s
unfolding c_str
c_str-terminated [] h = refl
c_str-terminated (b ∷ bs) h = ground (arith, c_str-terminated bs h.1)

pub bytes_eq_iff : (s t : Bytes) → (bytes_eq s t ≡ true) ↔ (s ≡ t)
unfolding bytes_eq
bytes_eq_iff [] [] = (λ h. refl, λ h. refl)
bytes_eq_iff [] (b ∷ t) = (λ h. cc, λ h. cc)
bytes_eq_iff (a ∷ s) [] = (λ h. cc, λ h. cc)
bytes_eq_iff (a ∷ s) (b ∷ t) = ground (arith, bytes_eq_iff s t)

-- Whether a buffer ends in a NUL.
unfoldable pub ends_in_nul : Bytes → Bool
ends_in_nul [] = false
ends_in_nul (b ∷ []) = b == 0
ends_in_nul (b ∷ c ∷ bs) = ends_in_nul (c ∷ bs)

pub ends_in_nul-terminated : (s : Bytes) → ends_in_nul (terminated s) ≡ true
unfolding ends_in_nul
ends_in_nul-terminated [] = refl
ends_in_nul-terminated (b ∷ []) = refl
ends_in_nul-terminated (b ∷ c ∷ s) = ends_in_nul-terminated (c ∷ s)

pub c_str-NoNul : (s : Bytes) → NoNul (c_str s)
unfolding c_str
c_str-NoNul [] = tt
c_str-NoNul (b ∷ s) = ground (arith, c_str-NoNul s)
