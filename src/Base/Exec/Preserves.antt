-- ===== src/Base/Exec/Preserves.antt =====
-- A predicate that a program keeps if it returns, with one rule for each way to build a program.
use mathlib.Core.Bool.{Bool, true, false}
use mathlib.Core.Option.{Option, none, some}
use Prim.Native.Nat.{ℕ}
use stanford_cs240_sp21_labs.Base.Tests.{if◌then◌else◌}
use stanford_cs240_sp21_labs.Base.Exec.{
  Exec, Sys, ok, fail, pure, gets, err_exit, ◌>>=◌, checked, given,
}
use stanford_cs240_sp21_labs.Base.Exec.Post.{Post, Post-bind}

pub record Preserves {ℓ} {S A : Type ℓ} (P : S → Type ℓ) (m : Exec S A) : Type ℓ where
  pub at : (s : S) → P s → Post (λ _ t. P t) (m s)

module _ {ℓ} {S A : Type ℓ} {P : S → Type ℓ} where
  pub Preserves-pure : (a : A) → Preserves P (pure a)
  Preserves-pure a = record { at = λ s h. h }

  pub Preserves-gets : (f : S → A) → Preserves P (gets f)
  Preserves-gets f = record { at = λ s h. h }

  pub Preserves-err_exit : Preserves P (err_exit {A = A})
  Preserves-err_exit = record { at = λ s h. tt }

  pub Preserves-if :
      (b : Bool) (m n : Exec S A) → Preserves P m → Preserves P n → Preserves P (if b then m else n)
  Preserves-if true m n km kn = km
  Preserves-if false m n km kn = kn

module _ {ℓ} {S A B : Type ℓ} {P : S → Type ℓ} where
  pub Preserves-checked :
      (r : Sys A) (f : ℕ → Exec S B) (g : A → Exec S B)
      → ((e : ℕ) → Preserves P (f e))
      → ((a : A) → Preserves P (g a))
      → Preserves P (checked r f g)
  unfolding checked
  Preserves-checked (ok a) f g kf kg = kg a
  Preserves-checked (fail e) f g kf kg = kf e

  pub Preserves-given :
      (o : Option A) (m : Exec S B) (g : A → Exec S B)
      → Preserves P m
      → ((a : A) → Preserves P (g a))
      → Preserves P (given o m g)
  unfolding given
  Preserves-given none m g km kg = km
  Preserves-given (some a) m g km kg = kg a

  pub Preserves-bind :
      (m : Exec S A) (f : A → Exec S B)
      → Preserves P m
      → ((a : A) → Preserves P (f a))
      → Preserves P (m >>= f)
  Preserves-bind m f km kf = record {
    at = λ s h. Post-bind (λ _ t. P t) (λ _ t. P t) m f s (km.at s h) (λ a t ht. (kf a).at t ht);
  }

pub ruleset preserves_rules = (
  Preserves-pure, Preserves-gets, Preserves-err_exit, Preserves-if, Preserves-checked,
  Preserves-given, Preserves-bind,
)
