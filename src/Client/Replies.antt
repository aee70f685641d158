-- ===== src/Client/Replies.antt =====
-- What comes back to the client's callbacks (lab2/src/client/request.c and fuseops.c).
use stanford_cs240_sp21_labs.Base.{==_iff, Bool-cases, Option, if◌then◌else◌, inl, inr, none}
use stanford_cs240_sp21_labs.Base.{some, ℕ, ◌==◌, ◌≡◌, ◌≢◌}
use stanford_cs240_sp21_labs.Base.Bytes.{Bytes}
use stanford_cs240_sp21_labs.Base.Exec.{Sys, checked, fail, given, ok, pure, ◌>>=◌, ◌>>◌}
use stanford_cs240_sp21_labs.Base.Exec.Post.{Post, Post-any, Post-bind}
use stanford_cs240_sp21_labs.Client.Request.{disconnect, msg_number, not_error, send_request}
use stanford_cs240_sp21_labs.Client.Request.{snfs_req_rep_f}
use stanford_cs240_sp21_labs.Client.State.{ClientState, Host, with_net}
use stanford_cs240_sp21_labs.Comm.{receive_data, send_data}
use stanford_cs240_sp21_labs.Platform.{Platform, request}
use stanford_cs240_sp21_labs.Proto.{MsgType, Rep, Req, error_rep, rep_type, req_type}

-- What `send_request` returns: nothing, or a reply that is no error and has the number of the
-- request's type.
abbrev pub IsReplyTo : Req → Option Rep → Type 0
IsReplyTo req none = Unit
IsReplyTo req (some r) =
    (msg_number (rep_type r) ≡ msg_number (req_type req)) × (rep_type r ≢ MsgType.error)

abbrev IsNoError : Option Rep → Type 0
IsNoError none = Unit
IsNoError (some r) = rep_type r ≢ MsgType.error

not_error-IsNoError : (r : Rep) → IsNoError (not_error r)
unfolding not_error rep_type
not_error-IsNoError r = elim r as (λ k. IsNoError (not_error k)) [ error_rep e ↦ tt | _ ↦ λ h. cc ]

given_message-IsNoError :
    (o : Option (Rep × ℕ)) → IsNoError (given o none (λ message. not_error message.0))
unfolding given
given_message-IsNoError none = tt
given_message-IsNoError (some message) = not_error-IsNoError message.0

module _ (P : Platform) where
  sent-IsNoError :
      (sock endpoint flags : ℕ) (o : Option ℕ) (w : Host P)
      → Post
          (λ r _. IsNoError r)
          (given o
            (do disconnect P sock endpoint; pure none)
            (λ bytes. do
              received ← with_net (receive_data P.net P.rounds sock flags)
              disconnect P sock endpoint
              pure (given received none (λ message. not_error message.0)))
            w)
  unfolding given
  sent-IsNoError sock endpoint flags none w =
      Post-bind (λ _ _. Unit) (λ r _. IsNoError r) (disconnect P sock endpoint) _ w (Post-any _)
        (λ _ t _. tt)
  sent-IsNoError sock endpoint flags (some bytes) w =
      Post-bind (λ _ _. Unit) (λ r _. IsNoError r) (with_net _) _ w (Post-any _)
        (λ received t _.
          Post-bind (λ _ _. Unit) (λ r _. IsNoError r) (disconnect P sock endpoint) _ t (Post-any _)
            (λ _ u _. given_message-IsNoError received))

  connected-IsNoError :
      (sock : ℕ) (req : Req) (size flags : ℕ) (r : Sys ℕ) (w : Host P)
      → Post
          (λ r _. IsNoError r)
          (checked r
            (λ errno. pure none)
            (λ endpoint. do
              sent ← with_net (send_data P.net P.rounds sock (request req) size flags)
              given sent
                  (do disconnect P sock endpoint; pure none)
                  λ bytes. do
                    received ← with_net (receive_data P.net P.rounds sock flags)
                    disconnect P sock endpoint
                    pure (given received none (λ message. not_error message.0)))
            w)
  unfolding checked
  connected-IsNoError sock req size flags (fail errno) w = tt
  connected-IsNoError sock req size flags (ok endpoint) w =
      Post-bind (λ _ _. Unit) (λ r _. IsNoError r) (with_net _) _ w (Post-any _)
        (λ sent t _. sent-IsNoError sock endpoint flags sent t)

  snfs_req_rep_f-IsNoError :
      (sock : ℕ) (url : Bytes) (req : Req) (size flags : ℕ) (w : Host P)
      → Post (λ r _. IsNoError r) (snfs_req_rep_f P sock url req size flags w)
  unfolding snfs_req_rep_f
  snfs_req_rep_f-IsNoError sock url req size flags w =
      Post-bind (λ _ _. Unit) (λ r _. IsNoError r) (with_net _) _ w (Post-any _)
        (λ connected t _. connected-IsNoError sock req size flags connected t)

  typed-IsReplyTo :
      (req : Req) (o : Option Rep)
      → IsNoError o
      → IsReplyTo req (
          given o none
            (λ r. if msg_number (rep_type r) == msg_number (req_type req) then some r else none))
  unfolding given
  typed-IsReplyTo req none h = tt
  typed-IsReplyTo req (some r) h =
      elim (Bool-cases (msg_number (rep_type r) == msg_number (req_type req))) [
        | inl p ↦ rw p ((==_iff _ _).0 p, h)
        | inr p ↦ rw p tt
      ]

  -- A call of `send_request` that returns gives no reply, or one that is no error and whose type
  -- has the number of the request's type.
  pub send_request-IsReplyTo :
      (state : ClientState) (req : Req) (size : ℕ) (w : Host P)
      → Post (λ r _. IsReplyTo req r) (send_request P state req size w)
  unfolding send_request
  send_request-IsReplyTo state req size w =
      Post-bind (λ r _. IsNoError r) (λ r _. IsReplyTo req r) (snfs_req_rep_f P _ _ req size _) _ w
        (snfs_req_rep_f-IsNoError state.server_sock state.server_url req size _ w)
        (λ r t h. typed-IsReplyTo req r h)
