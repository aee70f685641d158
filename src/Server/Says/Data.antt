-- ===== src/Server/Says/Data.antt =====
-- What a reply to READ says (lab2/src/server/handlers.c).
use stanford_cs240_sp21_labs.Base.{length, ℕ, ◌<◌, ◌↔◌, ◌≡◌, ◌≤◌}
use stanford_cs240_sp21_labs.Base.Bytes.{Bytes}
use stanford_cs240_sp21_labs.Base.Exec.{ok}
use stanford_cs240_sp21_labs.Platform.{Os, Platform}
use stanford_cs240_sp21_labs.Proto.{Rep, error_rep, read_rep}
use stanford_cs240_sp21_labs.Server.Says.{Says}

-- `read` gives no more bytes than it is asked for.
pub record ReadsAtMost (O : Os) : Type 0 where
  pub read : (fd n : ℕ) (s : O.State) (bs : Bytes) → (O.read fd n s).0 ≡ ok bs → length bs ≤ n

-- An error, or a READ reply to a request for `count` bytes: as many bytes as it counts, no more than
-- were asked for, and the flag for the end of the file if and only if they are fewer.
abbrev pub IsReadAnswer : ℕ → Rep → Type 0
IsReadAnswer count (error_rep e) = Unit
IsReadAnswer count (read_rep r) =
    (r.count ≡ length r.payload) × ((r.count ≤ count) × ((r.eof ≡ 1) ↔ (r.count < count)))
IsReadAnswer count _ = ⊥
