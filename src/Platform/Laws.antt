-- ===== src/Platform/Laws.antt =====
-- What the theorems assume of the libraries, each set of laws by its own name.
use stanford_cs240_sp21_labs.Base.{Bool, Option, false, if◌then◌else◌, not, ℕ, ◌&&◌, ◌==◌, ◌||◌}
use stanford_cs240_sp21_labs.Base.{◌≡◌}
use stanford_cs240_sp21_labs.Base.Bytes.{Bytes, bytes_eq, ends_in_nul, le_bytes, u64}
use stanford_cs240_sp21_labs.Base.Exec.{fail, ok}
use stanford_cs240_sp21_labs.Base.Int.{ℤ}
use stanford_cs240_sp21_labs.Platform.{Database, OpenFlag, Os, db_notfound}

-- Berkeley DB's documented behaviour: a call that succeeds does what it says, one that fails changes
-- no entry, and DB_NOTFOUND is returned only for a key that has no entry.
pub record IsLawfulDb (D : Database) : Type 0 where
  pub get-create : (s : D.State) (k : Bytes) → D.get (D.create s).1 k ≡ D.get s k
  pub get-open : (s : D.State) (k : Bytes) → D.get (D.open_file s).1 k ≡ D.get s k
  pub get-put :
      (s : D.State) (k v j : Bytes)
      → D.get (D.put s k v).1 j ≡ (if (D.put s k v).0 == 0 && bytes_eq k j then ok v else D.get s j)
  pub get-del :
      (s : D.State) (k j : Bytes)
      → D.get (D.del s k).1 j
        ≡ (if (D.del s k).0 == 0 && bytes_eq k j then fail db_notfound else D.get s j)
  pub del_missing :
      (s : D.State) (k : Bytes) → (D.del s k).0 ≡ db_notfound → D.get s k ≡ fail db_notfound

-- No handle that is drawn has a zero as its last byte, so none is the key of a name. (Of random
-- handles one in 256 has.)
pub record DrawsHandles (O : Os) : Type 0 where
  pub draw : (s : O.State) → ends_in_nul (le_bytes 8 (u64 (O.arc4random_u64 s).0)) ≡ false

-- Which descriptors are open. A new descriptor was not open before; `close` leaves its own not
-- open, whatever it returns; a failed `open` changes none, and neither do the other calls.
pub record TellsOpen (O : Os) : Type 0 where
  pub is_open : O.State → ℕ → Bool
  pub opens :
      (path : Bytes) (flag : OpenFlag) (s : O.State) (fd : ℕ)
      → (O.open_file path flag s).0 ≡ ok fd
      → (is_open s fd ≡ false)
        × ((x : ℕ) → is_open (O.open_file path flag s).1 x ≡ (x == fd || is_open s x))
  pub fails :
      (path : Bytes) (flag : OpenFlag) (s : O.State) (e x : ℕ)
      → (O.open_file path flag s).0 ≡ fail e
      → is_open (O.open_file path flag s).1 x ≡ is_open s x
  pub closes :
      (fd : ℕ) (s : O.State) (x : ℕ) → is_open (O.close fd s).1 x ≡ (not (x == fd) && is_open s x)
  pub stats : (path : Bytes) (s : O.State) (x : ℕ) → is_open (O.stat path s).1 x ≡ is_open s x
  pub seeks : (fd : ℕ) (at : ℤ) (s : O.State) (x : ℕ) → is_open (O.lseek fd at s).1 x ≡ is_open s x
  pub reads : (fd n : ℕ) (s : O.State) (x : ℕ) → is_open (O.read fd n s).1 x ≡ is_open s x
  pub writes :
      (fd : ℕ) (bytes : Bytes) (s : O.State) (x : ℕ)
      → is_open (O.write fd bytes s).1 x ≡ is_open s x
  pub allocates : (n : ℕ) (s : O.State) (x : ℕ) → is_open (O.malloc n s).1 x ≡ is_open s x
  pub creates :
      (path : Bytes) (mode : ℕ) (s : O.State) (fd : ℕ)
      → (O.creat path mode s).0 ≡ ok fd
      → (is_open s fd ≡ false)
        × ((x : ℕ) → is_open (O.creat path mode s).1 x ≡ (x == fd || is_open s x))
  pub creates_none :
      (path : Bytes) (mode : ℕ) (s : O.State) (e x : ℕ)
      → (O.creat path mode s).0 ≡ fail e
      → is_open (O.creat path mode s).1 x ≡ is_open s x
  pub opens_dir :
      (path : Bytes) (s : O.State) (fd : ℕ)
      → (O.opendir path s).0 ≡ ok fd
      → (is_open s fd ≡ false)
        × ((x : ℕ) → is_open (O.opendir path s).1 x ≡ (x == fd || is_open s x))
  pub opens_no_dir :
      (path : Bytes) (s : O.State) (e x : ℕ)
      → (O.opendir path s).0 ≡ fail e
      → is_open (O.opendir path s).1 x ≡ is_open s x
  pub lists : (fd : ℕ) (s : O.State) (x : ℕ) → is_open (O.readdir fd s).1 x ≡ is_open s x
  pub sets_mode :
      (path : Bytes) (mode : ℕ) (s : O.State) (x : ℕ)
      → is_open (O.chmod path mode s).1 x ≡ is_open s x
  pub sets_owner :
      (path : Bytes) (uid gid : Option ℕ) (s : O.State) (x : ℕ)
      → is_open (O.chown path uid gid s).1 x ≡ is_open s x
  pub sets_size :
      (path : Bytes) (size : ℤ) (s : O.State) (x : ℕ)
      → is_open (O.truncate path size s).1 x ≡ is_open s x
  pub sets_times :
      (path : Bytes) (a b m n : ℤ) (s : O.State) (x : ℕ)
      → is_open (O.utimes path a b m n s).1 x ≡ is_open s x
  pub sets_seconds :
      (path : Bytes) (a m : ℤ) (s : O.State) (x : ℕ)
      → is_open (O.utime path a m s).1 x ≡ is_open s x
  pub unlinks : (path : Bytes) (s : O.State) (x : ℕ) → is_open (O.unlink path s).1 x ≡ is_open s x
  pub removes_dir :
      (path : Bytes) (s : O.State) (x : ℕ) → is_open (O.rmdir path s).1 x ≡ is_open s x
  pub renames :
      (old new : Bytes) (s : O.State) (x : ℕ) → is_open (O.rename old new s).1 x ≡ is_open s x
  pub makes_dir :
      (path : Bytes) (mode : ℕ) (s : O.State) (x : ℕ)
      → is_open (O.mkdir path mode s).1 x ≡ is_open s x
  pub draws : (s : O.State) (x : ℕ) → is_open (O.arc4random_u64 s).1 x ≡ is_open s x
