-- ===== src/Server/Halts/Database.antt =====
-- Termination of the functions of lab2/src/server/fhandledb.c.
use mathlib.Core.Path.{subst}
use stanford_cs240_sp21_labs.Base.{Bool, Option, inl, inr, none, refl, some, suc, sym, zero, ℕ}
use stanford_cs240_sp21_labs.Base.{◌∙◌, ◌≡◌, ◌⊎◌}
use stanford_cs240_sp21_labs.Base.Bytes.{Bytes, terminated, u64}
use stanford_cs240_sp21_labs.Base.Exec.{Outcome, continue, exited, fail, given, looping, pure}
use stanford_cs240_sp21_labs.Base.Exec.{returned, ◌>>=◌}
use stanford_cs240_sp21_labs.Base.Exec.Keeps.{Keeps, Keeps-bind, keeps_rules}
use stanford_cs240_sp21_labs.Base.Exec.Post.{Post, Post-mono}
use stanford_cs240_sp21_labs.Fhandledb.{find, generate_new_fhandle, get_file, handle_key}
use stanford_cs240_sp21_labs.Fhandledb.{init_db_if_needed, insert, name_find_or_insert}
use stanford_cs240_sp21_labs.Fhandledb.{name_remove, new_fhandle}
use stanford_cs240_sp21_labs.Fhandledb.Entries.{Entries}
use stanford_cs240_sp21_labs.Fhandledb.Laws.{Found, Same-init, SameEntries, entries, find-Post}
use stanford_cs240_sp21_labs.Platform.{Os, Platform, db_notfound}
use stanford_cs240_sp21_labs.Platform.Laws.{IsLawfulDb}
use stanford_cs240_sp21_labs.Proto.{Fhandle}
use stanford_cs240_sp21_labs.Server.Halts.{Ended, Halts, Halts-bind, Halts-given, Halts-pure}
use stanford_cs240_sp21_labs.Server.Halts.{Halts-then, Steps, Steps-of_Keeps, Steps-on_db}
use stanford_cs240_sp21_labs.Server.Halts.{Steps-set_dbp, halts_rules}
use stanford_cs240_sp21_labs.World.{World, on_db, set_dbp, sys}

-- Within `n` draws from this state of the system there is a handle that is not in use.
unfoldable pub FindsFree : (O : Os) → ℕ → Entries → O.State → Type 0
FindsFree O zero g s = ⊥
FindsFree O (suc n) g s =
    (g (handle_key (u64 (O.arc4random_u64 s).0)) ≡ fail db_notfound)
    ⊎ FindsFree O n g (O.arc4random_u64 s).1

-- The system is in this state.
pub record OsIs {P : Platform} (s : P.os.State) (w : World P) : Type 0 where
  pub same : w.os ≡ s

module _ {P : Platform} where
  OsIs-on_db :
      {A : Type 0} (s : P.os.State) (f : P.database.State → A × P.database.State)
      → Keeps (OsIs {P = P} s) (on_db f)
  unfolding on_db
  OsIs-on_db s f = record { at = λ w h. record { same = h.same } }

  OsIs-set_dbp : (s : P.os.State) (b : Bool) → Keeps (OsIs {P = P} s) (set_dbp b)
  unfolding set_dbp
  OsIs-set_dbp s b = record { at = λ w h. record { same = h.same } }

  OsIs-init : (s : P.os.State) → Keeps (OsIs {P = P} s) (init_db_if_needed P)
  unfolding init_db_if_needed ◌>>=◌ on_db set_dbp
  OsIs-init s = search (keeps_rules, OsIs-on_db, OsIs-set_dbp) depth 20

  pub OsIs-find : (s : P.os.State) (key : Bytes) → Keeps (OsIs {P = P} s) (find P key)
  unfolding find
  OsIs-find s key = search (keeps_rules, OsIs-init) depth 20

  init-Halts : Halts none (init_db_if_needed P)
  unfolding init_db_if_needed
  init-Halts = search (halts_rules, Steps-on_db, Steps-set_dbp) depth 20

  find-Halts : (key : Bytes) → Halts none (find P key)
  unfolding find
  find-Halts key = Halts-then _ _ init-Halts (λ _. search halts_rules depth 20)

  insert-Halts : (key value : Bytes) → Halts none (insert P key value)
  unfolding insert
  insert-Halts key value =
      Halts-then _ _ init-Halts (λ _. search (halts_rules, Steps-on_db) depth 20)

  pub name_remove-Halts : (name : Bytes) → Halts none (name_remove P name)
  unfolding name_remove
  name_remove-Halts name =
      Halts-then _ _ init-Halts
        (λ _. Halts-then _ _ (find-Halts _) (λ _. search (halts_rules, Steps-on_db) depth 20))

module _ {P : Platform} (D : IsLawfulDb P.database) (o : Option (World P)) where
  init-Steps : Steps o (init_db_if_needed P)
  init-Steps = Steps-of_Keeps o _ init-Halts (λ before. Same-init D before)

  Same-find : (before : World P) (key : Bytes) → Keeps (SameEntries before) (find P key)
  unfolding find
  Same-find before key = Keeps-bind _ _ (Same-init D before) (λ _. search keeps_rules depth 20)

  find-Steps : (key : Bytes) → Steps o (find P key)
  find-Steps key = Steps-of_Keeps o _ (find-Halts key) (λ before. Same-find before key)

  pub get_file-Steps : (h : Fhandle) → Steps o (get_file P h)
  unfolding get_file
  get_file-Steps h = find-Steps (handle_key h)

-- A handle that is not in use is found within the rounds that there are, whatever the system has
-- done since.
pub record HasRoom {P : Platform} (w : World P) : Type 0 where
  pub free : (s : P.os.State) → FindsFree P.os P.rounds (entries w) s

module _ {P : Platform} (D : IsLawfulDb P.database) (before : World P) where
  -- The two ways on from the search for a handle that was drawn.
  next_draw-Ended :
      (n : ℕ) (h : Fhandle) (s : P.os.State) (a : Option Bytes) (t : World P)
      → (entries before (handle_key h) ≡ fail db_notfound) ⊎ FindsFree P.os n (entries before) s
      → Found before (handle_key h) a t
      → t.os ≡ s
      → ((u : World P)
          → SameEntries before u
          → FindsFree P.os n (entries before) u.os
          → Ended (generate_new_fhandle P n u).0)
      → Ended (given a (pure h) (λ _. generate_new_fhandle P n) t).0
  unfolding given
  next_draw-Ended n h s none t free found e again = tt
  next_draw-Ended n h s (some v) t (inl free) found e again = absurd cc (found.value)
  next_draw-Ended n h s (some v) t (inr free) found e again =
      again t found.same (subst (FindsFree P.os n (entries before)) (sym e) free)

  Found-Ended :
      (n : ℕ) (h : Fhandle) (s : P.os.State) (r : Outcome (Option Bytes)) (t : World P)
      → (entries before (handle_key h) ≡ fail db_notfound) ⊎ FindsFree P.os n (entries before) s
      → Ended r
      → Post (Found before (handle_key h)) (r, t)
      → t.os ≡ s
      → ((u : World P)
          → SameEntries before u
          → FindsFree P.os n (entries before) u.os
          → Ended (generate_new_fhandle P n u).0)
      → Ended (continue r (λ a. given a (pure h) (λ _. generate_new_fhandle P n)) t).0
  Found-Ended n h s (returned a) t free ended found e again =
      next_draw-Ended n h s a t free found e again
  Found-Ended n h s (exited c) t free ended found e again = tt
  Found-Ended n h s looping t free ended found e again = absurd ended

  Found-of_same :
      (w : World P) (key : Bytes) → SameEntries before w → Post (Found before key) (find P key w)
  Found-of_same w key same =
      Post-mono (Found w key) (Found before key) (find P key w)
        (λ r u found. record {
          value = sym (same.at key) ∙ found.value;
          same = record { at = λ k. found.same.at k ∙ same.at k };
        })
        (find-Post D key w)

  generate-Ended :
      (n : ℕ) (w : World P)
      → SameEntries before w
      → FindsFree P.os n (entries before) w.os
      → Ended (generate_new_fhandle P n w).0
  unfolding generate_new_fhandle sys ◌>>=◌ FindsFree
  generate-Ended zero w same free = absurd free
  generate-Ended (suc n) w same free =
      let h = u64 (P.os.arc4random_u64 w.os).0 in
      let s = (P.os.arc4random_u64 w.os).1 in
      let t : World P = record w { os = s } in
      let (r, u) = find P (handle_key h) t in
      Found-Ended n h s r u free ((find-Halts (handle_key h)).at t tt)
        (Found-of_same t (handle_key h) (record { at = same.at }))
        ((OsIs-find s (handle_key h)).at t (record { same = refl })).same (generate-Ended n)

module _ {P : Platform} (D : IsLawfulDb P.database) (before : World P) (room : HasRoom before) where
  new_fhandle-Halts : (name : Bytes) → Halts (some before) (new_fhandle P name)
  unfolding new_fhandle
  new_fhandle-Halts name =
      Halts-then _ _
        (record { at = λ w same. generate-Ended D before P.rounds w same (room.free w.os) })
        (λ h.
          Halts-then _ _ (insert-Halts _ _)
            (λ _. Halts-then _ _ (insert-Halts _ _) (λ _. Halts-pure h)))

  -- From a state with the entries that there were, `name_find_or_insert` ends.
  pub name_find_or_insert-Halts : (name : Bytes) → Halts (some before) (name_find_or_insert P name)
  unfolding name_find_or_insert
  name_find_or_insert-Halts name =
      Halts-bind _ _ (find-Steps D (some before) (terminated name))
        (λ r. Halts-given r _ _ (new_fhandle-Halts name) (λ v. Halts-pure _))
