-- ===== src/Base/Exec/Post.antt =====
-- What holds of the result and of the final state if a program returns.
use mathlib.Core.Bool.{Bool, true, false}
use stanford_cs240_sp21_labs.Base.Tests.{if◌then◌else◌}
use stanford_cs240_sp21_labs.Base.Exec.{Exec, Outcome, returned, exited, looping, ◌>>=◌, continue}
use stanford_cs240_sp21_labs.Base.Exec.Keeps.{Keeps}

abbrev pub Post {ℓ κ} : {S A : Type ℓ} → (A → S → Type κ) → Outcome A × S → Type κ
Post Q (returned a, s) = Q a s
Post Q (exited c, s) = Unit
Post Q (looping, s) = Unit

module _ {ℓ κ} {S A B : Type ℓ} where
  Post-continue :
      (Q : A → S → Type κ) (R : B → S → Type κ) (r : Outcome A) (f : A → Exec S B) (s : S)
      → Post Q (r, s)
      → ((a : A) (t : S) → Q a t → Post R (f a t))
      → Post R (continue r f s)
  Post-continue Q R (returned a) f s q rest = rest a s q
  Post-continue Q R (exited c) f s q rest = tt
  Post-continue Q R looping f s q rest = tt

  pub Post-bind :
      (Q : A → S → Type κ) (R : B → S → Type κ) (m : Exec S A) (f : A → Exec S B) (s : S)
      → Post Q (m s)
      → ((a : A) (t : S) → Q a t → Post R (f a t))
      → Post R ((m >>= f) s)
  unfolding ◌>>=◌
  Post-bind Q R m f s q rest = let (r, s') = m s in Post-continue Q R r f s' q rest

module _ {ℓ} {S A : Type ℓ} where
  pub Post-of_final : (P : S → Type ℓ) (r : Outcome A) (s : S) → P s → Post (λ _ t. P t) (r, s)
  Post-of_final P (returned a) s h = h
  Post-of_final P (exited c) s h = tt
  Post-of_final P looping s h = tt

  pub Post-of_Keeps :
      (P : S → Type ℓ) (m : Exec S A) (s : S) → Keeps P m → P s → Post (λ _ t. P t) (m s)
  Post-of_Keeps P m s km h = let (r, s') = m s in Post-of_final P r s' (km.at s h)

module _ {ℓ κ} {S A : Type ℓ} where
  pub Post-mono :
      (Q R : A → S → Type κ) (o : Outcome A × S)
      → ((a : A) (s : S) → Q a s → R a s)
      → Post Q o
      → Post R o
  Post-mono Q R (returned a, s) f q = f a s q
  Post-mono Q R (exited c, s) f q = tt
  Post-mono Q R (looping, s) f q = tt

  pub Post-if :
      (Q : A → S → Type κ) (b : Bool) (m n : Exec S A) (s : S)
      → Post Q (m s)
      → Post Q (n s)
      → Post Q ((if b then m else n) s)
  Post-if Q true m n s hm hn = hm
  Post-if Q false m n s hm hn = hn

module _ {ℓ} {S A : Type ℓ} where
  pub Post-any : (o : Outcome A × S) → Post (λ _ _. Unit {0}) o
  Post-any (returned a, s) = tt
  Post-any (exited c, s) = tt
  Post-any (looping, s) = tt

module _ {ℓ κ} {S A : Type ℓ} where
  pub Post-and :
      (Q R : A → S → Type κ) (o : Outcome A × S)
      → Post Q o
      → Post R o
      → Post (λ a s. Q a s × R a s) o
  Post-and Q R (returned a, s) q r = (q, r)
  Post-and Q R (exited c, s) q r = tt
  Post-and Q R (looping, s) q r = tt
