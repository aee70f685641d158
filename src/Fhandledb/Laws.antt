-- ===== src/Fhandledb/Laws.antt =====
-- What the functions of lab2/src/server/fhandledb.c do to the entries, if they return.
use stanford_cs240_sp21_labs.Base.{==_iff, Bool, Bool-cases, Option, ap, if◌then◌else◌, inl, inr}
use stanford_cs240_sp21_labs.Base.{none, not, refl, some, sym, ◌==◌, ◌∙◌, ◌≡◌}
use stanford_cs240_sp21_labs.Base.Bytes.{Bytes}
use stanford_cs240_sp21_labs.Base.Exec.{Sys, checked, err_exit, fail, ok, pure, ◌>>=◌}
use stanford_cs240_sp21_labs.Base.Exec.Keeps.{Keeps, keeps_rules}
use stanford_cs240_sp21_labs.Base.Exec.Post.{Post, Post-bind, Post-of_Keeps}
use stanford_cs240_sp21_labs.Fhandledb.{find, init_db_if_needed}
use stanford_cs240_sp21_labs.Fhandledb.Entries.{Entries}
use stanford_cs240_sp21_labs.Platform.{Platform, db_notfound}
use stanford_cs240_sp21_labs.Platform.Laws.{IsLawfulDb}
use stanford_cs240_sp21_labs.World.{World, on_db, set_dbp}

-- What `get` returns where `find` returns this.
abbrev pub as_sys : Option Bytes → Sys Bytes
as_sys (some v) = ok v
as_sys none = fail db_notfound

abbrev pub entries : {P : Platform} → World P → Entries
entries {P} w k = P.database.get w.db k

-- The entries are those of `w`.
pub record SameEntries {P : Platform} (w w' : World P) : Type 0 where
  pub at : (k : Bytes) → entries w' k ≡ entries w k

pub same_as : {P : Platform} (w : World P) → SameEntries w w
same_as w = record { at = λ k. refl }

module _ {P : Platform} (D : IsLawfulDb P.database) where
  Same-create : (w : World P) → Keeps (SameEntries w) (on_db {P = P} P.database.create)
  unfolding on_db
  Same-create w = record { at = λ t h. record { at = λ k. D.get-create t.db k ∙ h.at k } }

  Same-open : (w : World P) → Keeps (SameEntries w) (on_db {P = P} P.database.open_file)
  unfolding on_db
  Same-open w = record { at = λ t h. record { at = λ k. D.get-open t.db k ∙ h.at k } }

  Same-set_dbp : (w : World P) (b : Bool) → Keeps (SameEntries w) (set_dbp {P = P} b)
  unfolding set_dbp
  Same-set_dbp w b = record { at = λ t h. record { at = h.at } }

  pub Same-init : (w : World P) → Keeps (SameEntries w) (init_db_if_needed P)
  unfolding init_db_if_needed ◌>>=◌ on_db set_dbp
  Same-init w = search (keeps_rules, Same-create, Same-open, Same-set_dbp) depth 20

-- What a search found, and that it changed no entry.
pub record Found {P : Platform} (w : World P) (key : Bytes) (r : Option Bytes) (w' : World P)
    : Type 0 where
  pub value : entries w key ≡ as_sys r
  pub same : SameEntries w w'

module _ {P : Platform} (D : IsLawfulDb P.database) (key : Bytes) (w : World P) where
  find_result :
      (t : World P) (r : Sys Bytes)
      → entries w key ≡ r
      → SameEntries w t
      → Post (Found w key) (
          checked r
            (λ err. if not (err == db_notfound) then err_exit else pure none)
            (λ v. pure (some v))
            t)
  unfolding checked
  find_result t (ok v) e same = record { value = e; same = same }
  find_result t (fail err) e same = elim (Bool-cases (err == db_notfound)) [
    | inl p ↦ rw p (record { value = e ∙ ap fail ((==_iff err db_notfound).0 p); same = same })
    | inr p ↦ rw p tt
  ]

  pub find-Post : Post (Found w key) (find P key w)
  unfolding find ◌>>=◌
  find-Post =
      Post-bind (λ _ t. SameEntries w t) (Found w key) (init_db_if_needed P) _ w
        (Post-of_Keeps (SameEntries w) (init_db_if_needed P) w (Same-init D w)
          (record { at = λ k. refl }))
        (λ _ t same. find_result t (P.database.get t.db key) (sym (same.at key)) same)
