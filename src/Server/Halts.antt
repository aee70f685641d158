-- ===== src/Server/Halts.antt =====
-- Termination of the handlers: the notion, with a rule for each way to build a handler. The
-- children follow the handlers.
pub mod Database
pub mod Reply
pub mod Handlers
pub mod Dispatch
use stanford_cs240_sp21_labs.Base.{Bool, Option, false, if◌then◌else◌, none, some, true, ℕ}
use stanford_cs240_sp21_labs.Base.Exec.{Outcome, Sys, checked, continue, err_exit, exited, fail}
use stanford_cs240_sp21_labs.Base.Exec.{gets, given, looping, ok, pure, returned, ◌>>=◌}
use stanford_cs240_sp21_labs.Base.Exec.Keeps.{Keeps}
use stanford_cs240_sp21_labs.Fhandledb.Laws.{SameEntries}
use stanford_cs240_sp21_labs.Platform.{Platform}
use stanford_cs240_sp21_labs.World.{Server, World, on_db, set_dbp, sys}

-- The program returned, or it ended the process.
abbrev pub Ended : {A : Type 0} → Outcome A → Type 0
Ended (returned a) = Unit
Ended (exited c) = Unit
Ended looping = ⊥

-- What is known of a state: nothing, or that it has the entries of an earlier one.
abbrev pub Known : {P : Platform} → Option (World P) → World P → Type 0
Known none w = Unit
Known (some before) w = SameEntries before w

module _ {P : Platform} where
  -- A program that ends, from every state of which this is known.
  pub record Halts {A : Type 0} (o : Option (World P)) (m : Server P A) : Type 0 where
    pub at : (w : World P) → Known o w → Ended (m w).0

  -- A program that ends and after which the same is known.
  pub record Steps {A : Type 0} (o : Option (World P)) (m : Server P A) : Type 0 where
    pub at : (w : World P) → Known o w → Ended (m w).0 × Known o (m w).1

module _ {P : Platform} {A B : Type 0} where
  continue-Ended :
      (o : Option (World P)) (r : Outcome A) (f : A → Server P B) (w : World P)
      → Ended r
      → Known o w
      → ((a : A) → Halts o (f a))
      → Ended (continue r f w).0
  continue-Ended o (returned a) f w e k h = (h a).at w k
  continue-Ended o (exited c) f w e k h = tt
  continue-Ended o looping f w e k h = absurd e

  continue-Known :
      (o : Option (World P)) (r : Outcome A) (f : A → Server P B) (w : World P)
      → Ended r
      → Known o w
      → ((a : A) → Steps o (f a))
      → Ended (continue r f w).0 × Known o (continue r f w).1
  continue-Known o (returned a) f w e k h = (h a).at w k
  continue-Known o (exited c) f w e k h = (tt, k)
  continue-Known o looping f w e k h = absurd e

module _ {P : Platform} {A B : Type 0} {o : Option (World P)} where
  pub Halts-bind :
      (m : Server P A) (f : A → Server P B)
      → Steps o m
      → ((a : A) → Halts o (f a))
      → Halts o (m >>= f)
  unfolding ◌>>=◌
  Halts-bind m f s h = record {
    at = λ w k. let (r, w') = m w in continue-Ended o r f w' (s.at w k).0 (s.at w k).1 h;
  }

  pub Steps-bind :
      (m : Server P A) (f : A → Server P B)
      → Steps o m
      → ((a : A) → Steps o (f a))
      → Steps o (m >>= f)
  unfolding ◌>>=◌
  Steps-bind m f s h = record {
    at = λ w k. let (r, w') = m w in continue-Known o r f w' (s.at w k).0 (s.at w k).1 h;
  }

  -- What stands behind a call after which nothing is known.
  pub Halts-then :
      (m : Server P A) (f : A → Server P B)
      → Halts o m
      → ((a : A) → Halts none (f a))
      → Halts o (m >>= f)
  unfolding ◌>>=◌
  Halts-then m f s h = record {
    at = λ w k. let (r, w') = m w in continue-Ended none r f w' (s.at w k) tt h;
  }

  pub Halts-checked :
      (r : Sys A) (f : ℕ → Server P B) (g : A → Server P B)
      → ((e : ℕ) → Halts o (f e))
      → ((a : A) → Halts o (g a))
      → Halts o (checked r f g)
  unfolding checked
  Halts-checked (ok a) f g kf kg = kg a
  Halts-checked (fail e) f g kf kg = kf e

  pub Halts-given :
      (v : Option A) (m : Server P B) (g : A → Server P B)
      → Halts o m
      → ((a : A) → Halts o (g a))
      → Halts o (given v m g)
  unfolding given
  Halts-given none m g km kg = km
  Halts-given (some a) m g km kg = kg a

module _ {P : Platform} {A : Type 0} {o : Option (World P)} where
  pub Halts-if :
      (b : Bool) (m n : Server P A) → Halts o m → Halts o n → Halts o (if b then m else n)
  Halts-if true m n km kn = km
  Halts-if false m n km kn = kn

  pub Halts-pure : (a : A) → Halts o (pure {S = World P} a)
  Halts-pure a = record { at = λ w k. tt }

  pub Halts-gets : (f : World P → A) → Steps o (gets f)
  Halts-gets f = record { at = λ w k. (tt, k) }

  pub Halts-err_exit : Halts o (err_exit {S = World P} {A = A})
  Halts-err_exit = record { at = λ w k. tt }

  pub Halts-of_none : (m : Server P A) → Halts none m → Halts o m
  Halts-of_none m h = record { at = λ w k. h.at w tt }

  pub Steps-sys : (f : P.os.State → A × P.os.State) → Steps o (sys f)
  unfolding sys
  Steps-sys f = elim o as (λ x. Steps x (sys f)) [
    | none ↦ record { at = λ w k. (tt, tt) }
    | some before ↦ record { at = λ w k. (tt, record { at = k.at }) }
  ]

  pub Halts-sys : (f : P.os.State → A × P.os.State) → Halts o (sys f)
  unfolding sys
  Halts-sys f = record { at = λ w k. tt }

module _ {P : Platform} {A : Type 0} where
  -- Where nothing is known, nothing is lost.
  pub Steps-of_Halts : (m : Server P A) → Halts none m → Steps none m
  Steps-of_Halts m h = record { at = λ w k. (h.at w tt, tt) }

  pub Steps-on_db : (f : P.database.State → A × P.database.State) → Steps none (on_db {P = P} f)
  unfolding on_db
  Steps-on_db f = record { at = λ w k. (tt, tt) }

  -- A program that ends, and that changes no entry.
  pub Steps-of_Keeps :
      (o : Option (World P)) (m : Server P A)
      → Halts none m
      → ((before : World P) → Keeps (SameEntries before) m)
      → Steps o m
  Steps-of_Keeps none m h k = record { at = λ w _. (h.at w tt, tt) }
  Steps-of_Keeps (some before) m h k = record { at = λ w same. (h.at w tt, (k before).at w same) }

module _ {P : Platform} where
  pub Steps-set_dbp : (b : Bool) → Steps none (set_dbp {P = P} b)
  unfolding set_dbp
  Steps-set_dbp b = record { at = λ w k. (tt, tt) }

pub ruleset halts_rules = (
  Halts-bind, Halts-checked, Halts-given, Halts-if, Halts-pure, Halts-gets, Halts-err_exit,
  Steps-sys, Halts-sys,
)
