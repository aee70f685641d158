-- ===== src/Server/Answers/Dispatch.antt =====
-- The replies of the switch and of a round of `serve_loop` (lab2/src/server/main.c).
use stanford_cs240_sp21_labs.Base.{Bool, List, false, if◌then◌else◌, leb, true, ℕ, ◌∷◌, ◌≡◌}
use stanford_cs240_sp21_labs.Base.Exec.{ok, pure}
use stanford_cs240_sp21_labs.Base.Exec.{returned, ◌>>◌}
use stanford_cs240_sp21_labs.Base.Exec.Keeps.{Keeps}
use stanford_cs240_sp21_labs.Base.Exec.Post.{Post}
use stanford_cs240_sp21_labs.Platform.{Platform}
use stanford_cs240_sp21_labs.Proto.{Fattr, MsgType, Req}
use stanford_cs240_sp21_labs.Proto.{req_type}
use stanford_cs240_sp21_labs.Proto.{sizeof_msg_type}
use stanford_cs240_sp21_labs.Server.Answers.{IsAnswer}
use stanford_cs240_sp21_labs.Server.Loop.{dispatch}
use stanford_cs240_sp21_labs.World.{Sent, Server, World, on_net}

-- The message is one that `nn_recv` gave.
abbrev Came : (P : Platform) → ℕ → Req × ℕ → Type 0
Came P sock message = (s : P.net.State) × ((P.net.nn_recv_request sock 0 s).0 ≡ ok message)

-- What a round of the loop has done to the log of replies: an answer to a message that came, or
-- nothing.
abbrev pub Round : {P : Platform} → ℕ → List Sent → Bool → World P → Type 0
Round {P} sock before true w =
    (message : Req × ℕ) × Came P sock message
    × ((m : Sent) × ((w.sent ≡ m ∷ before) × IsAnswer (req_type message.0) m))
Round sock before false w = w.sent ≡ before

module _ {P : Platform} where
  -- What stands behind `nn_recv` in the loop.
  abbrev after_recv : Fattr → ℕ → Req × ℕ → Server P Bool
  after_recv stack sock message = do
    let req = message.0
    let msg_type = if leb sizeof_msg_type message.1 then req_type req else MsgType.error
    dispatch stack sock msg_type req
    on_net (λ s. let (a, s') = P.net.nn_shutdown sock 0 s in (returned a, s'))
    pure true
