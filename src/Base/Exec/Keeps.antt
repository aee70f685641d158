-- ===== src/Base/Exec/Keeps.antt =====
-- Postconditions of programs: a predicate that a program keeps, however it ends, with one rule
-- for each way to build a program. `keeps_rules` lets `search` follow the text of a program.
use mathlib.Core.Bool.{Bool, true, false}
use mathlib.Core.Option.{Option, none, some}
use Prim.Native.Nat.{ℕ}
use stanford_cs240_sp21_labs.Base.Tests.{if◌then◌else◌}
use stanford_cs240_sp21_labs.Base.Exec.{
  Exec, Outcome, returned, exited, looping, Sys, ok, fail, pure, gets, err_exit, diverge, ◌>>=◌,
  continue, checked, given,
}

pub record Keeps {ℓ} {A S : Type ℓ} (P : S → Type ℓ) (m : Exec S A) : Type ℓ where
  pub at : (before : S) → P before → P (m before).1

module _ {ℓ} {A S : Type ℓ} {P : S → Type ℓ} where
  pub Keeps-gets : (f : S → A) → Keeps P (gets f)
  Keeps-gets f = record { at = λ state held. held }

  pub Keeps-err_exit : Keeps P (err_exit {A = A})
  Keeps-err_exit = record { at = λ state held. held }

  pub Keeps-diverge : Keeps P (diverge {A = A})
  Keeps-diverge = record { at = λ state held. held }

  pub Keeps-pure : (a : A) → Keeps P (pure a)
  Keeps-pure a = record { at = λ state held. held }

  pub Keeps-if : (b : Bool) (m n : Exec S A) → Keeps P m → Keeps P n → Keeps P (if b then m else n)
  Keeps-if true m n km kn = km
  Keeps-if false m n km kn = kn

module _ {ℓ} {S A B : Type ℓ} {P : S → Type ℓ} where
  pub Keeps-checked :
      (r : Sys A) (f : ℕ → Exec S B) (g : A → Exec S B)
      → ((e : ℕ) → Keeps P (f e))
      → ((a : A) → Keeps P (g a))
      → Keeps P (checked r f g)
  unfolding checked
  Keeps-checked (ok a) f g kf kg = kg a
  Keeps-checked (fail e) f g kf kg = kf e

  pub Keeps-given :
      (o : Option A) (m : Exec S B) (g : A → Exec S B)
      → Keeps P m
      → ((a : A) → Keeps P (g a))
      → Keeps P (given o m g)
  unfolding given
  Keeps-given none m g km kg = km
  Keeps-given (some a) m g km kg = kg a

  Keeps-continue :
      (r : Outcome A) (f : A → Exec S B)
      → ((a : A) → Keeps P (f a))
      → (s : S) → P s
      → P (continue r f s).1
  Keeps-continue (returned a) f kf s h = (kf a).at s h
  Keeps-continue (exited c) f kf s h = h
  Keeps-continue looping f kf s h = h

  pub Keeps-bind :
      (first : Exec S A) (next : A → Exec S B)
      → Keeps P first
      → ((a : A) → Keeps P (next a))
      → Keeps P (first >>= next)
  unfolding ◌>>=◌
  Keeps-bind first next h k = record {
    at = λ state held.
        let (outcome, after) = first state in Keeps-continue outcome next k after (h.at state held);
  }

pub ruleset keeps_rules = (
  Keeps-pure, Keeps-gets, Keeps-err_exit, Keeps-diverge, Keeps-if, Keeps-checked, Keeps-given,
  Keeps-bind,
)
