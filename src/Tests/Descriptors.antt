-- ===== src/Tests/Descriptors.antt =====
-- The disk of `Machine` with a table of the descriptors that are open, and the theorems on them.
use stanford_cs240_sp21_labs.Base.{Bool, [], ap, false, not, refl, sym, true, ℕ, ◌&&◌, ◌==◌, ◌||◌}
use stanford_cs240_sp21_labs.Base.{◌∙◌, ◌∷◌, ◌≡◌}
use stanford_cs240_sp21_labs.Base.Exec.{Sys, fail, ok}
use stanford_cs240_sp21_labs.Base.Exec.Post.{Post}
use stanford_cs240_sp21_labs.Base.Int.{pos}
use stanford_cs240_sp21_labs.Fhandledb.{handle_key}
use stanford_cs240_sp21_labs.Platform.{Os, Platform}
use stanford_cs240_sp21_labs.Platform.Laws.{TellsOpen}
use stanford_cs240_sp21_labs.Proto.{CreateArgs, ReadArgs}
use stanford_cs240_sp21_labs.Server.Descriptors.Dispatch.{handle_create-leaks}
use stanford_cs240_sp21_labs.Server.Names.{handle_create}
use stanford_cs240_sp21_labs.Tests.Machine.{Disk, booted, disk, table, wire}
use stanford_cs240_sp21_labs.World.{World}

record Descriptors : Type 0 where
  pub disk : Disk
  pub is_open : ℕ → Bool

-- A call of the disk that opens and closes nothing.
abbrev lifted : {A : Type 0} → (Disk → A × Disk) → Descriptors → A × Descriptors
lifted c s = ((c s.disk).0, record s { disk = (c s.disk).1 })

-- The descriptor that the disk gives, if it is not open.
abbrev opened_if : Bool → ℕ → Disk → Descriptors → Sys ℕ × Descriptors
opened_if true fd d s = (fail 24, s)
opened_if false fd d s = (ok fd, record { disk = d; is_open = λ x. x == fd || s.is_open x })

abbrev opened : Sys ℕ → Disk → Descriptors → Sys ℕ × Descriptors
opened (fail e) d s = (fail e, s)
opened (ok fd) d s = opened_if (s.is_open fd) fd d s

abbrev counted_disk : Os
counted_disk = record {
  State = Descriptors;
  stat = λ path. lifted (disk.stat path);
  open_file = λ path flag s.
      opened (disk.open_file path flag s.disk).0 (disk.open_file path flag s.disk).1 s;
  creat = λ path mode s. opened (disk.creat path mode s.disk).0 (disk.creat path mode s.disk).1 s;
  lseek = λ fd offset. lifted (disk.lseek fd offset);
  read = λ fd n. lifted (disk.read fd n);
  write = λ fd bs. lifted (disk.write fd bs);
  close = λ fd s. (
    ok tt,
    record { disk = (disk.close fd s.disk).1; is_open = λ x. not (x == fd) && s.is_open x },
  );
  opendir = λ path s. opened (disk.opendir path s.disk).0 (disk.opendir path s.disk).1 s;
  readdir = λ fd. lifted (disk.readdir fd);
  chmod = λ path mode. lifted (disk.chmod path mode);
  chown = λ path uid gid. lifted (disk.chown path uid gid);
  truncate = λ path size. lifted (disk.truncate path size);
  utimes = λ path as' au ms mu. lifted (disk.utimes path as' au ms mu);
  utime = λ path as' ms. lifted (disk.utime path as' ms);
  unlink = λ path. lifted (disk.unlink path);
  rmdir = λ path. lifted (disk.rmdir path);
  rename = λ old new. lifted (disk.rename old new);
  mkdir = λ path mode. lifted (disk.mkdir path mode);
  malloc = λ n. lifted (disk.malloc n);
  arc4random_u64 = lifted disk.arc4random_u64;
  sigterm = lifted disk.sigterm;
}

opened_if-opens :
    (b : Bool) (at fd : ℕ) (d : Disk) (s : Descriptors)
    → s.is_open at ≡ b
    → (opened_if b at d s).0 ≡ ok fd
    → (s.is_open fd ≡ false)
      × ((x : ℕ) → (opened_if b at d s).1.is_open x ≡ (x == fd || s.is_open x))
opened_if-opens true at fd d s e h = absurd cc
opened_if-opens false at fd d s e h =
    let same : at ≡ fd = cc in
    (ap s.is_open (sym same) ∙ e, λ x. ap (λ (n : ℕ). x == n || s.is_open x) same)

opened_if-fails :
    (b : Bool) (at e x : ℕ) (d : Disk) (s : Descriptors)
    → (opened_if b at d s).0 ≡ fail e
    → (opened_if b at d s).1.is_open x ≡ s.is_open x
opened_if-fails true at e x d s h = refl
opened_if-fails false at e x d s h = absurd cc

opened-opens :
    (r : Sys ℕ) (fd : ℕ) (d : Disk) (s : Descriptors)
    → (opened r d s).0 ≡ ok fd
    → (s.is_open fd ≡ false) × ((x : ℕ) → (opened r d s).1.is_open x ≡ (x == fd || s.is_open x))
opened-opens (ok at) fd d s h = opened_if-opens (s.is_open at) at fd d s refl h
opened-opens (fail e) fd d s h = absurd cc

opened-fails :
    (r : Sys ℕ) (e x : ℕ) (d : Disk) (s : Descriptors)
    → (opened r d s).0 ≡ fail e
    → (opened r d s).1.is_open x ≡ s.is_open x
opened-fails (ok at) e x d s h = opened_if-fails (s.is_open at) at e x d s h
opened-fails (fail f) e x d s h = refl

counted_disk-TellsOpen : TellsOpen counted_disk
counted_disk-TellsOpen = record {
  is_open = λ s. s.is_open;
  opens = λ path flag s fd h. opened-opens _ fd _ s h;
  fails = λ path flag s e x h. opened-fails _ e x _ s h;
  closes = λ fd s x. refl;
  stats = λ path s x. refl;
  seeks = λ fd at s x. refl;
  reads = λ fd n s x. refl;
  writes = λ fd bs s x. refl;
  allocates = λ n s x. refl;
  creates = λ path mode s fd h. opened-opens (ok 3) fd (disk.creat path mode s.disk).1 s h;
  creates_none = λ path mode s e x h. opened-fails (ok 3) e x (disk.creat path mode s.disk).1 s h;
  opens_dir = λ path s fd h. opened-opens (ok 3) fd (disk.opendir path s.disk).1 s h;
  opens_no_dir = λ path s e x h. opened-fails (ok 3) e x (disk.opendir path s.disk).1 s h;
  lists = λ fd s x. refl;
  sets_mode = λ path mode s x. refl;
  sets_owner = λ path uid gid s x. refl;
  sets_size = λ path size s x. refl;
  sets_times = λ path a b m n s x. refl;
  sets_seconds = λ path a m s x. refl;
  unlinks = λ path s x. refl;
  removes_dir = λ path s x. refl;
  renames = λ old new s x. refl;
  makes_dir = λ path mode s x. refl;
  draws = λ s x. refl;
}

abbrev counted_machine : Platform
counted_machine = record { os = counted_disk; database = table; net = wire; rounds = 2000 }

-- A server that has `/a` under the handle 7, and two descriptors open.
abbrev two_open : World counted_machine
two_open = record {
  dbp = true;
  terminated = false;
  db = (handle_key 7, b'/' ∷ b'a' ∷ 0 ∷ []) ∷ [];
  os = record { disk = (booted []).os; is_open = λ x. x == 1 || x == 2 };
  net = (booted []).net;
  sent = [];
}

abbrev read_a : ReadArgs
read_a = record { file = 7; offset = pos 1; count = 9 }

abbrev create_b : CreateArgs
create_b = record { filename = b'/' ∷ b'b' ∷ 0 ∷ []; mode = 420 }

handle_create-leaks_example :
    (counted_disk-TellsOpen.is_open two_open.os 3 ≡ false)
    × Post (λ _ t. counted_disk-TellsOpen.is_open t.os 3 ≡ true) (handle_create 3 create_b two_open)
handle_create-leaks_example =
    handle_create-leaks {P = counted_machine} counted_disk-TellsOpen 3 create_b 3 two_open refl
