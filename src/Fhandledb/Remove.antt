-- ===== src/Fhandledb/Remove.antt =====
-- `name_remove` (lab2/src/server/fhandledb.c).
use stanford_cs240_sp21_labs.Base.{==_iff, Bool, Bool-cases, Option, arith, false, if◌then◌else◌}
use stanford_cs240_sp21_labs.Base.{inl, inr, none, not, refl, some, sym, take, take_all, true, ℕ}
use stanford_cs240_sp21_labs.Base.{◌==◌, ◌||◌, ◌↔◌, ◌∙◌, ◌≡◌, ◌≢◌, ◌⊎◌}
use stanford_cs240_sp21_labs.Base.Bytes.{Bytes, NoNul, bytes_eq_iff, length-le_bytes, terminated}
use stanford_cs240_sp21_labs.Base.Exec.{err_exit, fail, given, ok, pure, ◌>>=◌}
use stanford_cs240_sp21_labs.Base.Exec.Post.{Post, Post-bind, Post-mono, Post-of_Keeps}
use stanford_cs240_sp21_labs.Fhandledb.{find, handle_key, init_db_if_needed, name_remove}
use stanford_cs240_sp21_labs.Fhandledb.Entries.{IsHandle, IsHandleDb, IsHandleDb-of_same, IsName}
use stanford_cs240_sp21_labs.Fhandledb.Entries.{handle-ne-name, without_pair}
use stanford_cs240_sp21_labs.Fhandledb.Entries.{without_pair-IsHandleDb}
use stanford_cs240_sp21_labs.Fhandledb.Laws.{Found, Same-init, SameEntries, entries, find-Post}
use stanford_cs240_sp21_labs.Platform.{Platform, db_notfound}
use stanford_cs240_sp21_labs.Platform.Laws.{IsLawfulDb}
use stanford_cs240_sp21_labs.World.{Server, World, on_db}

-- What `name_remove` has done for the name `n` when it returns. If it says yes, the name had a
-- handle and both entries are gone; if it says no, the name had none and nothing has changed.
pub record Removed {P : Platform} (w : World P) (n : Bytes) (done : Bool) (w' : World P)
    : Type 0 where
  pub db : IsHandleDb (entries w')
  pub gone : entries w' (terminated n) ≡ fail db_notfound
  pub had : (done ≡ true) ↔ ((v : Bytes) × (entries w (terminated n) ≡ ok v))
  pub both : (v : Bytes) → entries w (terminated n) ≡ ok v → entries w' v ≡ fail db_notfound
  pub others :
      (k : Bytes) → k ≢ terminated n → entries w (terminated n) ≢ ok k → entries w' k ≡ entries w k

module _ {P : Platform} (D : IsLawfulDb P.database) where
  -- The state after the two calls of `del`.
  after_del : World P → Bytes → Bytes → World P
  after_del t key key2 = record t { db = (P.database.del (P.database.del t.db key).1 key2).1 }

  -- If both calls succeed, both entries go.
  entries-after_del :
      (t : World P) (key key2 k : Bytes)
      → ((P.database.del t.db key).0 == 0) ≡ true
      → ((P.database.del (P.database.del t.db key).1 key2).0 == 0) ≡ true
      → entries (after_del t key key2) k ≡ without_pair key2 key (entries t) k
  unfolding after_del
  entries-after_del t key key2 k e e2 =
      ground (arith, D.get-del t.db key k, D.get-del (P.database.del t.db key).1 key2 k)

  module _ (w : World P) (n : Bytes) (plain : NoNul n) (d : IsHandleDb (entries w)) where
    Removed-of_pair :
        (u : World P) (v : Bytes)
        → entries w (terminated n) ≡ ok v
        → ((k : Bytes) → entries u k ≡ without_pair v (terminated n) (entries w) k)
        → Removed w n true u
    Removed-of_pair u v e at = record {
      db =
          IsHandleDb-of_same (without_pair v (terminated n) (entries w)) (entries u) at
            (without_pair-IsHandleDb v (terminated n) (entries w) d e);
      gone = ground (arith, at (terminated n), bytes_eq_iff (terminated n) (terminated n));
      had = (λ _. (v, e), λ _. refl);
      both = λ k p. ground (arith, at k, bytes_eq_iff v k);
      others = λ k p q. ground (arith, at k, bytes_eq_iff v k, bytes_eq_iff (terminated n) k);
    }

    Removed-of_none :
        (u : World P)
        → entries w (terminated n) ≡ fail db_notfound
        → SameEntries w u
        → Removed w n false u
    Removed-of_none u e same = record {
      db = IsHandleDb-of_same (entries w) (entries u) same.at d;
      gone = same.at (terminated n) ∙ e;
      had = (λ p. cc, λ p. cc (p.1));
      both = λ v p. cc;
      others = λ k p q. same.at k;
    }

-- The two calls of `del` and the test of their codes.
abbrev delete_pair : {P : Platform} → Bytes → Bytes → Server P Bool
delete_pair {P} key value = do
  err ← on_db (λ s. P.database.del s key)
  err2 ← on_db (λ s. P.database.del s (take 8 value))
  if not (err == 0) || not (err2 == 0)
      then if not (err == db_notfound) || not (err2 == db_notfound) then err_exit else pure false
      else pure true

module _ {P : Platform} (D : IsLawfulDb P.database) where
  delete_outcome :
      (w t : World P) (n v : Bytes)
      → NoNul n
      → IsHandleDb (entries w)
      → entries w (terminated n) ≡ ok v
      → SameEntries w t
      → take 8 v ≡ v
      → Post (Removed w n) (delete_pair (terminated n) v t)
  unfolding on_db ◌>>=◌ after_del
  delete_outcome w t n v plain d e same whole = rw whole (elim (Bool-cases (e1 == 0)) [
    | inr p ↦ elim (Bool-cases (e1 == db_notfound)) [
      | inl q ↦ cc (
        D.del_missing t.db (terminated n) ((==_iff e1 db_notfound).0 q),
        e,
        same.at (terminated n),
      )
      | inr q ↦ rw (p, q) tt
    ]
    | inl p ↦ elim (Bool-cases (e2 == 0)) [
      | inl r ↦
          rw (p, r)
            (Removed-of_pair D w n plain d _ v e
              (λ k. ground (arith, entries-after_del D t (terminated n) v k p r, same.at k)))
      | inr r ↦ elim (Bool-cases (e1 == db_notfound)) [
        | inl q ↦ cc (
          D.del_missing t.db (terminated n) ((==_iff e1 db_notfound).0 q),
          e,
          same.at (terminated n),
        )
        | inr q ↦ rw (p, r, q) tt
      ]
    ]
  ])
    where
      e1 : ℕ
      e1 = (P.database.del t.db (terminated n)).0

      e2 : ℕ
      e2 = (P.database.del (P.database.del t.db (terminated n)).1 v).0

  name_remove_outcome :
      (w t : World P) (n : Bytes) (r : Option Bytes)
      → NoNul n
      → IsHandleDb (entries w)
      → Found w (terminated n) r t
      → Post (Removed w n) (given r (pure false) (delete_pair (terminated n)) t)
  unfolding given
  name_remove_outcome w t n none plain d found =
      Removed-of_none D w n plain d t found.value found.same
  name_remove_outcome w t n (some v) plain d found =
      delete_outcome w t n v plain d found.value found.same
        (whole (d.kinds (terminated n) v found.value))
    where
      whole :
          (IsHandle (terminated n) × IsName v) ⊎ (IsName (terminated n) × IsHandle v) → take 8 v ≡ v
      whole (inl (hn, _)) =
          absurd (handle-ne-name (terminated n) (terminated n) hn (n, plain, refl) refl)
      whole (inr (_, (h, _, is_key, _))) =
          rw is_key (take_all 8 (handle_key h) (omega (arith, length-le_bytes 8 h)))

  -- If the database is lawful and paired, and the name has no NUL: a call that returns says
  -- whether the name had a handle; the entries of the name and of its handle are gone, the
  -- database stays paired, and no other entry changes.
  pub name_remove-Post :
      (w : World P) (n : Bytes)
      → NoNul n
      → IsHandleDb (entries w)
      → Post (Removed w n) (name_remove P n w)
  unfolding name_remove
  name_remove-Post w n plain d =
      Post-bind (λ _ t. SameEntries w t) (Removed w n) (init_db_if_needed P) _ w
        (Post-of_Keeps (SameEntries w) (init_db_if_needed P) w (Same-init D w)
          (record { at = λ k. refl }))
        (λ _ t same.
          Post-bind (Found w (terminated n)) (Removed w n) (find P (terminated n)) _ t
            (Post-mono (Found t (terminated n)) (Found w (terminated n)) (find P (terminated n) t)
              (λ r u found. record {
                value = sym (same.at (terminated n)) ∙ found.value;
                same = record { at = λ k. found.same.at k ∙ same.at k };
              })
              (find-Post D (terminated n) t))
            (λ r u found. name_remove_outcome w u n r plain d found))
