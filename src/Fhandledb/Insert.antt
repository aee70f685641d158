-- ===== src/Fhandledb/Insert.antt =====
-- `name_find_or_insert` and the functions below it (lab2/src/server/fhandledb.c).
use stanford_cs240_sp21_labs.Base.{Bool-cases, Option, arith, if◌then◌else◌, inl, inr, none, not}
use stanford_cs240_sp21_labs.Base.{refl, some, suc, sym, take, take_all, zero, ℕ, ◌<◌, ◌==◌, ◌∙◌}
use stanford_cs240_sp21_labs.Base.{◌≡◌, ◌≢◌, ◌⊎◌}
use stanford_cs240_sp21_labs.Base.Bytes.{Bytes, NoNul, bytes_eq, bytes_eq_iff, from_le}
use stanford_cs240_sp21_labs.Base.Bytes.{from_le-le_bytes, length-le_bytes, terminated, u64}
use stanford_cs240_sp21_labs.Base.Bytes.{u64_mod}
use stanford_cs240_sp21_labs.Base.Exec.{err_exit, fail, given, ok, pure, ◌>>=◌}
use stanford_cs240_sp21_labs.Base.Exec.Post.{Post, Post-bind, Post-mono, Post-of_Keeps}
use stanford_cs240_sp21_labs.Fhandledb.{find, generate_new_fhandle, handle_key, init_db_if_needed}
use stanford_cs240_sp21_labs.Fhandledb.{insert, name_find_or_insert, new_fhandle}
use stanford_cs240_sp21_labs.Fhandledb.Entries.{IsHandle, IsHandleDb, IsHandleDb-of_same, IsName}
use stanford_cs240_sp21_labs.Fhandledb.Entries.{handle-ne-name, with_pair, with_pair-IsHandleDb}
use stanford_cs240_sp21_labs.Fhandledb.Laws.{Found, Same-init, SameEntries, entries, find-Post}
use stanford_cs240_sp21_labs.Platform.{Platform, db_notfound}
use stanford_cs240_sp21_labs.Platform.Laws.{DrawsHandles, IsLawfulDb}
use stanford_cs240_sp21_labs.Proto.{Fhandle}
use stanford_cs240_sp21_labs.World.{Server, World, on_db, sys}

pub Same-trans :
    {P : Platform} (w t u : World P) → SameEntries w t → SameEntries t u → SameEntries w u
Same-trans w t u a b = record { at = λ k. b.at k ∙ a.at k }

-- One entry is set.
record Inserted {P : Platform} (w : World P) (key value : Bytes) (w' : World P) : Type 0 where
  at : (k : Bytes) → entries w' k ≡ (if bytes_eq key k then ok value else entries w k)

-- The handle that was drawn: it has no entry, and no name is spelled like it.
record Drawn {P : Platform} (w : World P) (h : Fhandle) (w' : World P) : Type 0 where
  free : entries w (handle_key h) ≡ fail db_notfound
  handle : IsHandle (handle_key h)
  word : h < u64_mod
  same : SameEntries w w'

-- A pair is added for a name that had no entry.
record Added {P : Platform} (w : World P) (n : Bytes) (h : Fhandle) (w' : World P) : Type 0 where
  free : entries w (handle_key h) ≡ fail db_notfound
  handle : IsHandle (handle_key h)
  word : h < u64_mod
  at : (k : Bytes) → entries w' k ≡ with_pair (handle_key h) (terminated n) (entries w) k

module _ {P : Platform} (D : IsLawfulDb P.database) where
  put_result :
      (w t : World P) (key value : Bytes)
      → SameEntries w t
      → Post
          (λ _ w'. Inserted w key value w')
          ((on_db (λ s. P.database.put s key value) >>= λ err.
              if not (err == 0) then err_exit else pure tt)
            t)
  unfolding on_db ◌>>=◌
  put_result w t key value same = elim (Bool-cases ((P.database.put t.db key value).0 == 0)) [
    | inl p ↦ rw p (record { at = λ k. ground (arith, D.get-put t.db key value k, same.at k) })
    | inr p ↦ rw p tt
  ]

  insert-Post :
      (w : World P) (key value : Bytes)
      → Post (λ _ w'. Inserted w key value w') (insert P key value w)
  unfolding insert
  insert-Post w key value =
      Post-bind (λ _ t. SameEntries w t) (λ _ w'. Inserted w key value w') (init_db_if_needed P) _ w
        (Post-of_Keeps (SameEntries w) (init_db_if_needed P) w (Same-init D w)
          (record { at = λ k. refl }))
        (λ _ t same. put_result w t key value same)

Drawn-of_same :
    {P : Platform} (w t : World P) (h : Fhandle) (u : World P)
    → SameEntries w t
    → Drawn t h u
    → Drawn w h u
Drawn-of_same w t h u same d = record {
  free = sym (same.at (handle_key h)) ∙ d.free;
  handle = d.handle;
  word = d.word;
  same = Same-trans w t u same d.same;
}

module _ {P : Platform} (D : IsLawfulDb P.database) (R : DrawsHandles P.os) where
  after_draw : World P → World P
  after_draw w = record w { os = (P.os.arc4random_u64 w.os).1 }

  drawn : World P → Fhandle
  drawn w = u64 (P.os.arc4random_u64 w.os).0

  -- The two ways on from a search for the handle that was drawn.
  draw_outcome :
      (again : Server P Fhandle) (w : World P) (a : Option Bytes) (t : World P)
      → ((u : World P) → Post (Drawn u) (again u))
      → Found (after_draw w) (handle_key (drawn w)) a t
      → Post (Drawn w) (given a (pure (drawn w)) (λ _. again) t)
  unfolding given after_draw drawn
  draw_outcome again w none t rest found = record {
    free = found.value;
    handle = (u64 (P.os.arc4random_u64 w.os).0, omega arith, refl, R.draw w.os);
    word = omega arith;
    same = record { at = found.same.at };
  }
  draw_outcome again w (some v) t rest found =
      Post-mono (Drawn t) (Drawn w) (again t)
        (λ k u. Drawn-of_same w t k u (record { at = found.same.at })) (rest t)

  generate-Post : (rounds : ℕ) (w : World P) → Post (Drawn w) (generate_new_fhandle P rounds w)
  unfolding generate_new_fhandle sys ◌>>=◌ after_draw drawn
  generate-Post zero w = tt
  generate-Post (suc rounds) w =
      Post-bind (Found (after_draw w) (handle_key (drawn w))) (Drawn w)
        (find P (handle_key (drawn w))) _ (after_draw w)
        (find-Post D (handle_key (drawn w)) (after_draw w))
        (λ a t. draw_outcome (generate_new_fhandle P rounds) w a t (generate-Post rounds))

  new_fhandle-Post : (w : World P) (n : Bytes) → Post (Added w n) (new_fhandle P n w)
  unfolding new_fhandle
  new_fhandle-Post w n =
      Post-bind (Drawn w) (Added w n) (generate_new_fhandle P P.rounds) _ w
        (generate-Post P.rounds w)
        (λ h t d.
          Post-bind (λ _ u. Inserted t (handle_key h) (terminated n) u) (Added w n)
            (insert P (handle_key h) (terminated n)) _ t
            (insert-Post D t (handle_key h) (terminated n))
            (λ _ u i.
              Post-bind (λ _ v. Inserted u (terminated n) (handle_key h) v) (Added w n)
                (insert P (terminated n) (handle_key h)) _ u
                (insert-Post D u (terminated n) (handle_key h))
                (λ _ v j. record {
                  free = d.free;
                  handle = d.handle;
                  word = d.word;
                  at = λ k. ground (arith, i.at k, j.at k, d.same.at k);
                })))

-- What `name_find_or_insert` has done for the name `n` when it returns `h`.
pub record Named {P : Platform} (w : World P) (n : Bytes) (h : Fhandle) (w' : World P)
    : Type 0 where
  pub db : IsHandleDb (entries w')
  pub word : h < u64_mod
  pub file_of : entries w' (handle_key h) ≡ ok (terminated n)
  pub handle_of : entries w' (terminated n) ≡ ok (handle_key h)
  pub kept : (k v : Bytes) → entries w k ≡ ok v → entries w' k ≡ ok v
  pub others : (k : Bytes) → k ≢ handle_key h → k ≢ terminated n → entries w' k ≡ entries w k

-- The handle that is read out of a value is the one that was stored.
stored_handle : (h : Fhandle) → h < u64_mod → from_le (take 8 (handle_key h)) ≡ h
stored_handle h small =
    rw (take_all 8 (handle_key h) (omega (arith, length-le_bytes 8 h))) (from_le-le_bytes 8 h small)

module _ {P : Platform} (w : World P) (n : Bytes) (plain : NoNul n)
    (d : IsHandleDb (entries w)) where
  Named-of_handle :
      (t : World P) (v : Bytes)
      → entries w (terminated n) ≡ ok v
      → SameEntries w t
      → IsHandle v
      → Named w n (from_le (take 8 v)) t
  Named-of_handle t v e same (h, small, is_key, _) =
      let back : entries w v ≡ ok (terminated n) = d.back (terminated n) v e in
      rw (is_key, stored_handle h small)
        (record {
          db = IsHandleDb-of_same (entries w) (entries t) same.at d;
          word = small;
          file_of = same.at (handle_key h) ∙ rw is_key at back;
          handle_of = same.at (terminated n) ∙ rw is_key at e;
          kept = λ k u p. same.at k ∙ p;
          others = λ k _ _. same.at k;
        })

  Named-of_old :
      (t : World P) (v : Bytes)
      → entries w (terminated n) ≡ ok v
      → SameEntries w t
      → (IsHandle (terminated n) × IsName v) ⊎ (IsName (terminated n) × IsHandle v)
      → Named w n (from_le (take 8 v)) t
  Named-of_old t v e same (inl (hn, _)) =
      absurd (handle-ne-name (terminated n) (terminated n) hn (n, plain, refl) refl)
  Named-of_old t v e same (inr (_, hv)) = Named-of_handle t v e same hv

  Named-of_new :
      (h : Fhandle) (t : World P)
      → entries w (terminated n) ≡ fail db_notfound
      → Added w n h t
      → Named w n h t
  Named-of_new h t missing added =
      let a = handle_key h in
      let s = terminated n in
      let ne : a ≢ s = handle-ne-name a s added.handle (n, plain, refl) in
      record {
        db = IsHandleDb-of_same (with_pair a s (entries w)) (entries t) added.at (
            with_pair-IsHandleDb a s (entries w) d added.handle (n, plain, refl) added.free
              missing);
        word = added.word;
        file_of = ground (arith, added.at a, bytes_eq_iff s a, bytes_eq_iff a a);
        handle_of = ground (arith, added.at s, bytes_eq_iff s s);
        kept = λ k v e.
            ground (arith, added.at k, bytes_eq_iff s k, bytes_eq_iff a k, added.free, missing);
        others = λ k p q. ground (arith, added.at k, bytes_eq_iff s k, bytes_eq_iff a k);
      }

module _ {P : Platform} (D : IsLawfulDb P.database) (R : DrawsHandles P.os) where
  name_outcome :
      (w t : World P) (n : Bytes) (r : Option Bytes)
      → NoNul n
      → IsHandleDb (entries w)
      → Found w (terminated n) r t
      → Post (Named w n) (given r (new_fhandle P n) (λ v. pure (from_le (take 8 v))) t)
  unfolding given
  name_outcome w t n (some v) plain d found =
      Named-of_old w n plain d t v found.value found.same (d.kinds (terminated n) v found.value)
  name_outcome w t n none plain d found =
      Post-mono (Added t n) (Named w n) (new_fhandle P n t)
        (λ h u added. Named-of_new w n plain d h u found.value (record {
          free = sym (found.same.at (handle_key h)) ∙ added.free;
          handle = added.handle;
          word = added.word;
          at = λ k. ground (arith, added.at k, found.same.at k);
        }))
        (new_fhandle-Post D R t n)

  pub name_find_or_insert-Post :
      (w : World P) (n : Bytes)
      → NoNul n
      → IsHandleDb (entries w)
      → Post (Named w n) (name_find_or_insert P n w)
  unfolding name_find_or_insert
  name_find_or_insert-Post w n plain d =
      Post-bind (Found w (terminated n)) (Named w n) (find P (terminated n)) _ w
        (find-Post D (terminated n) w) (λ r t found. name_outcome w t n r plain d found)
