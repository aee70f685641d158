-- ===== src/Server/Says.antt =====
-- What the last reply says: the notion, with a rule for each way to build a handler.
-- The children follow the handlers whose replies carry data.
pub mod Data
pub mod Readdir
pub mod Setattr
use stanford_cs240_sp21_labs.Base.{Bool, List, Option, [], false, if◌then◌else◌, none, refl, some}
use stanford_cs240_sp21_labs.Base.{true, ℕ, ◌∷◌, ◌≡◌}
use stanford_cs240_sp21_labs.Base.Exec.{Sys, checked, err_exit, fail, given, ok, pure, ◌>>=◌}
use stanford_cs240_sp21_labs.Base.Exec.Post.{Post, Post-any, Post-bind}
use stanford_cs240_sp21_labs.Platform.{Platform}
use stanford_cs240_sp21_labs.Proto.{Rep, SnfsError, error_rep, error_size}
use stanford_cs240_sp21_labs.Server.Data.{error_and_close}
use stanford_cs240_sp21_labs.Server.Reply.{handle_error, reply_with, send_reply}
use stanford_cs240_sp21_labs.World.{Sent, Server, World, log_sent, sys}

-- The newest reply fits `Q`.
abbrev pub LastFits : (Rep → Type 0) → List Sent → Type 0
LastFits Q [] = ⊥
LastFits Q (m ∷ log) = Q m.rep

-- A program that, if it returns, has sent a reply that fits `Q` last.
pub record Says {P : Platform} {A : Type 0} (Q : Rep → Type 0) (m : Server P A) : Type 0 where
  pub at : (w : World P) → Post (λ _ t. LastFits Q t.sent) (m w)

module _ {P : Platform} {Q : Rep → Type 0} where
  pub Says-bind :
      {A B : Type 0} (m : Server P A) (f : A → Server P B)
      → ((a : A) → Says Q (f a))
      → Says Q (m >>= f)
  Says-bind m f k = record {
    at = λ w.
        Post-bind (λ _ _. Unit) (λ _ t. LastFits Q t.sent) m f w (Post-any (m w))
          (λ a t _. (k a).at t);
  }

  -- A value with a property that a program returns goes on.
  pub Says-bind_of :
      {A B : Type 0} (V : A → Type 0) (m : Server P A) (f : A → Server P B)
      → ((w : World P) → Post (λ a _. V a) (m w))
      → ((a : A) → V a → Says Q (f a))
      → Says Q (m >>= f)
  Says-bind_of V m f h k = record {
    at = λ w. Post-bind (λ a _. V a) (λ _ t. LastFits Q t.sent) m f w (h w) (λ a t v. (k a v).at t);
  }

  pub Says-close :
      (m : Server P (Unit {0})) (fd : ℕ)
      → Says Q m
      → Says Q (m >>= λ _. sys (P.os.close fd) >>= λ _. pure tt)
  unfolding sys ◌>>=◌
  Says-close m fd h = record {
    at = λ w.
        Post-bind (λ _ t. LastFits Q t.sent) (λ _ t. LastFits Q t.sent) m _ w (h.at w) (λ a t q. q);
  }

  pub Says-checked :
      {A B : Type 0} (r : Sys A) (f : ℕ → Server P B) (g : A → Server P B)
      → ((e : ℕ) → Says Q (f e))
      → ((a : A) → r ≡ ok a → Says Q (g a))
      → Says Q (checked r f g)
  unfolding checked
  Says-checked (ok a) f g kf kg = kg a refl
  Says-checked (fail e) f g kf kg = kf e

  pub Says-given :
      {A B : Type 0} (o : Option A) (m : Server P B) (g : A → Server P B)
      → Says Q m
      → ((a : A) → Says Q (g a))
      → Says Q (given o m g)
  unfolding given
  Says-given none m g km kg = km
  Says-given (some a) m g km kg = kg a

  pub Says-if :
      {A : Type 0} (b : Bool) (m n : Server P A) → Says Q m → Says Q n → Says Q (if b then m else n)
  Says-if true m n km kn = km
  Says-if false m n km kn = kn

  pub Says-err_exit : {A : Type 0} → Says Q (err_exit {S = World P} {A = A})
  Says-err_exit = record { at = λ w. tt }

  Says-then_pure : {A B : Type 0} (m : Server P A) (b : B) → Says Q m → Says Q (m >>= λ _. pure b)
  Says-then_pure m b h = record {
    at = λ w.
        Post-bind (λ _ t. LastFits Q t.sent) (λ _ t. LastFits Q t.sent) m (λ _. pure b) w (h.at w)
          (λ a t q. q);
  }

  Says-log : (m : Sent) (d : Option ℕ) → Q m.rep → Says {P = P} Q (log_sent m >>= λ _. pure d)
  unfolding log_sent ◌>>=◌
  Says-log m d q = record { at = λ w. q }

  pub Says-reply :
      (sock : ℕ) (rep : Rep) (size : ℕ) → Q rep → Says Q (reply_with {P = P} sock rep size)
  unfolding reply_with send_reply
  Says-reply sock rep size q =
      Says-then_pure _ tt
        (Says-bind _ _ (λ d. Says-log (record { rep = rep; size = size; delivered = d }) d q))

  pub Says-error :
      (sock : ℕ) (e : SnfsError) → Q (error_rep e) → Says Q (handle_error {P = P} sock e)
  unfolding handle_error
  Says-error sock e q = Says-reply sock (error_rep e) error_size q

  pub Says-error_and_close :
      (sock fd : ℕ) (e : SnfsError) → Q (error_rep e) → Says Q (error_and_close {P = P} sock fd e)
  unfolding error_and_close
  Says-error_and_close sock fd e q = Says-close _ fd (Says-error sock e q)
