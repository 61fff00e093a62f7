-- ===== src/Tcp.antt =====
-- internal/transport/tcp/server.go: the loop of one connection. The handler is the interface that
-- the source calls; the socket is the bytes that it will yield, and a test whether it takes a text
-- behind what was sent.
pub mod Ending
pub mod Exchange
mod Examples
use cossacks_game_server.Base.{
  ℕ, zero, suc, ◌-◌, Bool, true, false, Option, none, some, List, [], ◌∷◌, ◌++◌, map, Bytes,
  if◌then◌else◌, length, take, drop, leb,
}
use cossacks_game_server.Base.Result.{Result, ok, err}
use cossacks_game_server.Wire.Command.{Command, CommandSet}
use cossacks_game_server.Wire.Binary.{Error}
use cossacks_game_server.Wire.Stream.{Zlib, Stream, Failure, read_from, marshal_stream}
use cossacks_game_server.Gsc.Connectivity.{Connection}
use cossacks_game_server.Gsc.Commands.{HandleResult}

-- Why the loop returns.
pub data Reason : Type 0 where
  read_failed : Failure → Reason
  marshal_failed : Error → Reason
  write_failed : Reason
  cancelled : Reason

-- The arguments without the last two, the window and the key.
pub record Request : Type 0 where
  pub core_args : List Bytes
  pub win : Bytes
  pub key : Bytes

-- The last two elements of a list that has them, and what is before.
unfoldable pub split_args : List Bytes → Request
split_args [] = record { core_args = []; win = []; key = [] }
split_args (a ∷ []) = record { core_args = a ∷ []; win = []; key = [] }
split_args (win ∷ key ∷ []) = record { core_args = []; win = win; key = key }
split_args (a ∷ b ∷ c ∷ args) =
    let later = split_args (b ∷ c ∷ args) in record later { core_args = a ∷ later.core_args }

-- The window goes back behind the arguments of each command.
unfoldable pub with_window : Bytes → CommandSet → CommandSet
with_window win [] = []
with_window win (c ∷ commands) = record c { args = c.args ++ win ∷ [] } ∷ with_window win commands

-- The server's state, the connection, what was sent and what will be read.
pub record Link (W : Type 0) : Type 0 where
  pub world : W
  pub conn : Connection
  pub sent : Bytes
  pub input : Bytes

pub data Turn (W : Type 0) : Type 0 where
  ended : Reason → Link W → Turn W
  next : Link W → Turn W

module _ {W : Type 0} (z : Zlib) (max_size : ℕ)
    (handle : W → Connection → Stream → (name : Bytes) → Request → W × Connection × HandleResult)
    (on_disconnect : W → Connection → W) (takes : (sent bin : Bytes) → Bool) where
  -- The answer to a request: marshalled, written, and the end where the context is cancelled.
  unfoldable pub respond : Link W → Stream → (win : Bytes) → CommandSet → Turn W
  unfolding with_window
  respond l req win commands =
      elim (marshal_stream z (record req { cmd_set = with_window win commands })) [
        | err e ↦ ended (marshal_failed e) l
        | ok bin ↦
            if takes l.sent bin
            then (if l.conn.closed
                then ended cancelled (record l { sent = l.sent ++ bin })
                else next (record l { sent = l.sent ++ bin }))
            else ended write_failed l
      ]

  -- The body of the loop behind the read, on the request and the input behind it.
  unfoldable pub dispatch_request : Link W → Stream → Bytes → CommandSet → Turn W
  unfolding split_args respond
  dispatch_request l req rest [] = next (record l { input = rest })
  dispatch_request l req rest (cmd ∷ _) =
      let request = split_args cmd.args in
      let (w, conn, result) = handle l.world l.conn req cmd.name request in
      let l' : Link W = record { world = w; conn = conn; sent = l.sent; input = rest } in
      if result.has_response then respond l' req request.win result.commands else next l'

  -- One turn of `handleConn`.
  unfoldable pub turn : Link W → Turn W
  unfolding dispatch_request
  turn l = elim (read_from z max_size l.input) [
    | err f ↦ ended (read_failed f) l
    | ok (req, rest) ↦ dispatch_request l req rest req.cmd_set
  ]

  -- `handleConn`, with the deferred `OnDisconnect`; `none` where the fuel runs out.
  unfoldable pub serve : ℕ → Link W → Option (Reason × Link W)
  unfolding turn
  serve zero l = none
  serve (suc fuel) l = elim (turn l) [
    | ended reason l' ↦ some (reason, record l' { world = on_disconnect l'.world l'.conn })
    | next l' ↦ serve fuel l'
  ]
