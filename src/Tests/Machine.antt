-- ===== src/Tests/Machine.antt =====
-- A machine for tests: a database that is a list, a disk of named files of which one is open at a
-- time, and a network that takes every message and hands out those that it is given.
use stanford_cs240_sp21_labs.Base.{Bool, List, Option, [], ap, arith, false, if◌then◌else◌}
use stanford_cs240_sp21_labs.Base.{length, ltb, none, refl, some, suc, take, true, zero, ℕ, ◌%◌}
use stanford_cs240_sp21_labs.Base.{◌&&◌, ◌++◌, ◌+◌, ◌-◌, ◌/◌, ◌==◌, ◌^◌, ◌∙◌, ◌∷◌, ◌≡◌}
use stanford_cs240_sp21_labs.Base.Bytes.{Bytes, bytes_eq, bytes_eq_iff, ends_in_nul, le_bytes}
use stanford_cs240_sp21_labs.Base.Bytes.{u64}
use stanford_cs240_sp21_labs.Base.Exec.{Sys, checked, fail, given, ok}
use stanford_cs240_sp21_labs.Base.Int.{negsuc, pos, ℤ}
use stanford_cs240_sp21_labs.Comm.Ends.{ClockRuns}
use stanford_cs240_sp21_labs.Platform.{Database, Dirent, Net, Os, Platform, Stat, db_notfound}
use stanford_cs240_sp21_labs.Platform.{ebadf, enoent}
use stanford_cs240_sp21_labs.Platform.Laws.{DrawsHandles, IsLawfulDb}
use stanford_cs240_sp21_labs.Proto.{Rep, Req}
use stanford_cs240_sp21_labs.World.{World}

abbrev pub Table : Type 0
Table = List (Bytes × Bytes)

unfoldable pub table_get : Table → Bytes → Sys Bytes
table_get [] key = fail db_notfound
table_get ((k, v) ∷ rest) key = if bytes_eq k key then ok v else table_get rest key

unfoldable pub table_del : Table → Bytes → Table
table_del [] key = []
table_del ((k, v) ∷ rest) key =
    let kept = table_del rest key in if bytes_eq k key then kept else (k, v) ∷ kept

abbrev has : Table → Bytes → Bool
has t key = checked (table_get t key) (λ e. false) (λ v. true)

abbrev pub table : Database
table = record {
  State = Table;
  create = λ s. (0, s);
  open_file = λ s. (0, s);
  close = λ s. (0, s);
  remove_file = λ s. (0, []);
  get = table_get;
  put = λ s k v. (0, (k, v) ∷ s);
  del = λ s k. (checked (table_get s k) (λ e. db_notfound) (λ v. 0), table_del s k);
}

get-table_del :
    (s : Table) (k j : Bytes)
    → table_get (table_del s k) j ≡ (if bytes_eq k j then fail db_notfound else table_get s j)
unfolding table_get table_del
get-table_del [] k j = ground arith
get-table_del ((i, v) ∷ s) k j =
    ground (arith, get-table_del s k j, bytes_eq_iff i k, bytes_eq_iff i j, bytes_eq_iff k j)

-- A key that is not there stays out.
get-table_del_missing :
    (s : Table) (k j : Bytes)
    → table_get s k ≡ fail db_notfound
    → table_get (table_del s k) j ≡ table_get s j
get-table_del_missing s k j e = ground (arith, get-table_del s k j, bytes_eq_iff k j)

table_get_error : (s : Table) (k : Bytes) (e : ℕ) → table_get s k ≡ fail e → e ≡ db_notfound
unfolding table_get
table_get_error [] k e h = cc
table_get_error ((i, v) ∷ s) k e h = ground (arith, table_get_error s k e)

abbrev del_code : Sys Bytes → ℕ
del_code (ok v) = 0
del_code (fail e) = db_notfound

module _ (s : Table) (k : Bytes) where
  table-get-del :
      (j : Bytes) (r : Sys Bytes)
      → table_get s k ≡ r
      → table_get (table_del s k) j ≡ (
          if (checked r (λ e. db_notfound) (λ v. 0)) == 0 && bytes_eq k j
          then fail db_notfound
          else table_get s j)
  unfolding checked
  table-get-del j (ok v) h = get-table_del s k j
  table-get-del j (fail e) h = get-table_del_missing s k j (h ∙ ap fail (table_get_error s k e h))

  table_del_missing :
      (r : Sys Bytes)
      → table_get s k ≡ r
      → checked r (λ e. db_notfound) (λ v. 0) ≡ db_notfound
      → table_get s k ≡ fail db_notfound
  unfolding checked
  table_del_missing (ok v) h p = absurd (omega arith)
  table_del_missing (fail e) h p = h ∙ ap fail (table_get_error s k e h)

pub table-IsLawfulDb : IsLawfulDb table
unfolding table_get
table-IsLawfulDb = record {
  get-create = λ s k. refl;
  get-open = λ s k. refl;
  get-put = λ s k v j. refl;
  get-del = λ s k j. table-get-del s k j (table_get s k) refl;
  del_missing = λ s k h. table_del_missing s k (table_get s k) refl h;
}

-- A disk: files with their modes and contents, the file that is open and its offset, the number of
-- descriptors that are open, and the handles that were drawn so far.
pub record Disk : Type 0 where
  pub files : List (Bytes × (ℕ × Bytes))
  pub current : Bytes
  pub position : ℕ
  pub open_count : ℕ
  pub listing : List Bytes
  pub drawn : ℕ

unfoldable pub file_at : List (Bytes × (ℕ × Bytes)) → Bytes → Option (ℕ × Bytes)
file_at [] path = none
file_at ((p, f) ∷ rest) path = if bytes_eq p path then some f else file_at rest path

pub drop_file : List (Bytes × (ℕ × Bytes)) → Bytes → List (Bytes × (ℕ × Bytes))
drop_file [] path = []
drop_file ((p, f) ∷ rest) path =
    let kept = drop_file rest path in if bytes_eq p path then kept else (p, f) ∷ kept

unfoldable pub skip : ℕ → Bytes → Bytes
skip zero bs = bs
skip (suc n) [] = []
skip (suc n) (b ∷ bs) = skip n bs

abbrev stat_of : ℕ × Bytes → Stat
stat_of f = record {
  st_mode = f.0;
  st_nlink = 1;
  st_uid = 0;
  st_gid = 0;
  st_size = length f.1;
  st_rdev = 0;
  st_dev = 1;
  st_ino = 7;
  st_atime = pos 10;
  st_mtime = pos 20;
  st_ctime = pos 30;
}

abbrev pub contents : Disk → Bytes
contents d = given (file_at d.files d.current) [] (λ f. f.1)

abbrev open_path : Bytes → Disk → Sys ℕ × Disk
open_path path d =
    given (file_at d.files path) (fail enoent, d)
      (λ f. (ok 3, record d { current = path; position = 0; open_count = d.open_count + 1 }))

abbrev seek : ℤ → Disk → Sys ℕ × Disk
seek (pos n) d = (ok n, record d { position = n })
seek (negsuc n) d = (fail 22, d)

abbrev next_entry : List Bytes → Disk → Sys (Option Dirent) × Disk
next_entry [] d = (ok none, d)
next_entry (name ∷ rest) d =
    (ok (some (record { d_ino = 7; d_name = name })), record d { listing = rest })

-- The handles that are drawn, in order.
abbrev draw_number : ℕ → ℕ
draw_number zero = 2 ^ 63 + 1
draw_number (suc zero) = 2 ^ 63 + 2
draw_number _ = 2 ^ 63 + 3

abbrev remove_path : Bytes → Disk → Sys (Unit {0}) × Disk
remove_path path d =
    given (file_at d.files path) (fail enoent, d)
      (λ f. (ok tt, record d { files = drop_file d.files path }))

abbrev move_path : Bytes → Bytes → Disk → Sys (Unit {0}) × Disk
move_path old new d =
    given (file_at d.files old) (fail enoent, d)
      (λ f. (ok tt, record d { files = (new, f) ∷ drop_file d.files old }))

-- `utimes` refuses microseconds out of range, as the system call does.
abbrev set_times_to : ℤ → Disk → Sys (Unit {0}) × Disk
set_times_to (pos n) d = if ltb n 1000000 then (ok tt, d) else (fail 22, d)
set_times_to (negsuc n) d = (fail 22, d)

abbrev pub disk : Os
disk = record {
  State = Disk;
  stat = λ path d. given (file_at d.files path) (fail enoent, d) (λ f. (ok (stat_of f), d));
  open_file = λ path flag d. open_path path d;
  creat = λ path mode d. (
    ok 3,
    record d { files = (path, (32768 + mode, [])) ∷ d.files; open_count = d.open_count + 1 },
  );
  lseek = λ fd offset d. seek offset d;
  read = λ fd n d. (ok (take n (skip d.position (contents d))), d);
  write = λ fd bs d. (
    ok (length bs),
    record d { files = (d.current, (32768, take d.position (contents d) ++ bs)) ∷ d.files },
  );
  close = λ fd d. (ok tt, record d { open_count = d.open_count - 1 });
  opendir = λ path d. (ok 3, record d { open_count = d.open_count + 1 });
  readdir = λ fd d. next_entry d.listing d;
  chmod = λ path mode d. (ok tt, d);
  chown = λ path uid gid d. (fail 1, d);
  truncate = λ path size d. (ok tt, d);
  utimes = λ path as' au ms mu d. set_times_to au d;
  utime = λ path as' ms d. (ok tt, d);
  unlink = remove_path;
  rmdir = remove_path;
  rename = move_path;
  mkdir = λ path mode d. (ok tt, record d { files = (path, (16384 + mode, [])) ∷ d.files });
  malloc = λ n d. (true, d);
  arc4random_u64 = λ d. (draw_number d.drawn, record d { drawn = d.drawn + 1 });
  sigterm = λ d. (false, d);
}

draws : (n : ℕ) → ends_in_nul (le_bytes 8 (u64 (draw_number n))) ≡ false
unfolding ends_in_nul le_bytes
draws zero = refl
draws (suc zero) = refl
draws (suc (suc n)) = refl

pub disk-DrawsHandles : DrawsHandles disk
disk-DrawsHandles = record { draw = λ d. draws d.drawn }

-- The network of a server: the requests to come, and the clock in microseconds.
pub record Wire : Type 0 where
  pub requests : List Req
  pub replies : List Rep
  pub clock : ℕ

abbrev next_request : List Req → Wire → Sys (Req × ℕ) × Wire
next_request [] n = (fail ebadf, n)
next_request (r ∷ rest) n = (ok (r, 300), record n { requests = rest })

abbrev next_reply : List Rep → Wire → Sys (Rep × ℕ) × Wire
next_reply [] n = (fail ebadf, n)
next_reply (r ∷ rest) n = (ok (r, 300), record n { replies = rest })

abbrev pub wire : Net
wire = record {
  State = Wire;
  nn_connect = λ sock url n. (ok 1, n);
  nn_shutdown = λ sock how n. (ok tt, n);
  nn_send = λ sock p size flags n. (ok size, n);
  nn_recv_request = λ sock flags n. next_request n.requests n;
  nn_recv_reply = λ sock flags n. next_reply n.replies n;
  nn_close = λ sock n. (ok tt, n);
  nn_term = λ n. n;
  gettimeofday = λ n. ((n.clock / 1000000, n.clock % 1000000), n);
  usleep = λ us n. record n { clock = n.clock + us };
}

next_reply_clock : (rs : List Rep) (n : Wire) → (next_reply rs n).1.clock ≡ n.clock
next_reply_clock [] n = refl
next_reply_clock (r ∷ rest) n = refl

pub wire-ClockRuns : ClockRuns wire
wire-ClockRuns = record {
  read = λ s. omega arith;
  sleep = λ n s. omega arith;
  send = λ sock p size flags s. omega arith;
  receive = λ sock flags s. omega (arith, next_reply_clock s.replies s);
}

abbrev pub machine : Platform
machine = record { os = disk; database = table; net = wire; rounds = 2000 }

-- A server on an empty database, for these requests, with a root directory and one file in it.
abbrev pub booted : List Req → World machine
booted requests = record {
  dbp = true;
  terminated = false;
  db = [];
  os = record {
    files = ((b'/' ∷ []), (16877, [])) ∷ ((b'/' ∷ b'a' ∷ []), (33188, 1 ∷ 2 ∷ 3 ∷ 4 ∷ 5 ∷ [])) ∷ [];
    current = [];
    position = 0;
    open_count = 0;
    listing = (b'.' ∷ 0 ∷ []) ∷ (b'a' ∷ 0 ∷ []) ∷ [];
    drawn = 0;
  };
  net = record { requests = requests; replies = []; clock = 0 };
  sent = [];
}
