-- ===== src/Base/Lists.antt =====
-- Lists measured by native numbers, under the library's names.
use Prim.Native.Nat.{ℕ, zero, suc, ◌+◌, ◌≤◌, min}
use mathlib.Core.Path.{◌≡◌, refl, ap}
use mathlib.Core.List.{List, [], ◌∷◌, ◌++◌}
use native.Mathlib.Omega.{arith}

abbrev pub All {ℓ κ} : {A : Type ℓ} → (A → Type κ) → List A → Type κ
All P [] = Unit
All P (x ∷ xs) = P x × All P xs

module _ {ℓ} {A : Type ℓ} where
  abbrev pub length : List A → ℕ
  length [] = 0
  length (x ∷ xs) = suc (length xs)

  abbrev pub take : ℕ → List A → List A
  take zero xs = []
  take (suc n) [] = []
  take (suc n) (x ∷ xs) = x ∷ take n xs

  abbrev pub replicate : ℕ → A → List A
  replicate zero a = []
  replicate (suc n) a = a ∷ replicate n a

module _ {ℓ} {A : Type ℓ} where
  pub length-append : (xs ys : List A) → length (xs ++ ys) ≡ length xs + length ys
  length-append [] ys = omega arith
  length-append (x ∷ xs) ys = omega (arith, length-append xs ys)

  pub length-take : (n : ℕ) (xs : List A) → length (take n xs) ≡ min n (length xs)
  length-take zero xs = omega arith
  length-take (suc n) [] = omega arith
  length-take (suc n) (x ∷ xs) = omega (arith, length-take n xs)

  pub take_all : (n : ℕ) (xs : List A) → length xs ≤ n → take n xs ≡ xs
  take_all zero [] h = refl
  take_all zero (x ∷ xs) h = absurd (omega arith)
  take_all (suc n) [] h = refl
  take_all (suc n) (x ∷ xs) h = ap (λ l. x ∷ l) (take_all n xs (omega arith))

  pub length-replicate : (n : ℕ) (a : A) → length (replicate n a) ≡ n
  length-replicate zero a = refl
  length-replicate (suc n) a = ap suc (length-replicate n a)

  module _ {κ} (P : A → Type κ) where
    pub All-middle :
        (before after : List A) (k : A)
        → All P (before ++ k ∷ after)
        → All P before × P k × All P after
    All-middle [] after k h = (tt, h.0, h.1)
    All-middle (l ∷ before) after k h =
        let (x, y, z) = All-middle before after k h.1 in ((h.0, x), y, z)

    pub All-replace :
        (before after : List A) (k : A)
        → All P before
        → P k
        → All P after
        → All P (before ++ k ∷ after)
    All-replace [] after k x y z = (y, z)
    All-replace (l ∷ before) after k x y z = (x.0, All-replace before after k x.1 y z)

    pub All-map : (Q : A → Type κ) (ks : List A) → ((k : A) → P k → Q k) → All P ks → All Q ks
    All-map Q [] f h = tt
    All-map Q (k ∷ ks) f h = (f k h.0, All-map Q ks f h.1)

    pub All-split :
        (ks : List A)
        → ((before after : List A) (k : A) → ks ≡ before ++ k ∷ after → P k)
        → All P ks
    All-split [] f = tt
    All-split (l ∷ ks) f = (
      f [] ks l refl,
      All-split ks (λ before after k e. f (l ∷ before) after k (ap (λ r. l ∷ r) e)),
    )
