-- ===== src/Base/Exec.antt =====
-- The monad of the C functions: they change a state, and a call may end the process (`exit`) or
-- not come back within the rounds that its loops are given.
pub mod Keeps
pub mod Post
pub mod Preserves
use mathlib.Core.Option.{Option, none, some}
use Prim.Native.Nat.{ℕ}

pub data Outcome {ℓ} (A : Type ℓ) : Type ℓ where
  returned : A → Outcome A
  exited : ℕ → Outcome A
  looping : Outcome A

abbrev pub Exec {ℓ} : Type ℓ → Type ℓ → Type ℓ
Exec S A = S → Outcome A × S

-- A call of the operating system or of another library: a result, or the error number it sets.
pub data Sys {ℓ} (A : Type ℓ) : Type ℓ where
  ok : A → Sys A
  fail : ℕ → Sys A

module _ {ℓ} {S A : Type ℓ} where
  abbrev pub pure : A → Exec S A
  pure a s = (returned a, s)

  abbrev pub gets : (S → A) → Exec S A
  gets f s = (returned (f s), s)

  -- `err_exit`, which prints a message and calls `exit(EXIT_FAILURE)`.
  abbrev pub err_exit : Exec S A
  err_exit s = (exited 1, s)

  abbrev pub diverge : Exec S A
  diverge s = (looping, s)

module _ {ℓ} {S A B : Type ℓ} where
  abbrev pub continue : Outcome A → (A → Exec S B) → Exec S B
  continue (returned a) f s = f a s
  continue (exited c) f s = (exited c, s)
  continue looping f s = (looping, s)

  infixl 10 ◌>>=◌ ◌>>◌
  unfoldable pub ◌>>=◌ : Exec S A → (A → Exec S B) → Exec S B
  ◌>>=◌ m f s = let (r, s') = m s in continue r f s'

  abbrev pub ◌>>◌ : Exec S A → Exec S B → Exec S B
  m >> n = m >>= λ _. n

module _ {ℓ κ} {A : Type ℓ} {B : Type κ} where
  -- The test of a call's result: `if (call(..) < 0) { .. errno .. } ..`.
  unfoldable pub checked : Sys A → (ℕ → B) → (A → B) → B
  checked (ok a) failed done = done a
  checked (fail e) failed done = failed e

  -- The test of a pointer for NULL.
  unfoldable pub given : Option A → B → (A → B) → B
  given none absent present = absent
  given (some a) absent present = present a
