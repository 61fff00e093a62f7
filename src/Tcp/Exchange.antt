-- ===== src/Tcp/Exchange.antt =====
-- internal/transport/tcp/server.go with internal/transport/gsc: a request and its answer from end to
-- end, over the bytes of both ways.
use cossacks_game_server.Base.{
  ℕ, ◌^◌, ◌<◌, ◌≤◌, Bool, true, false, Option, [], ◌∷◌, ◌++◌, Bytes, length, ◌≡◌, refl, arith, ap,
  ◌∙◌, All, List,
}
use cossacks_game_server.Base.Result.{ok}
use cossacks_game_server.Wire.Command.{CommandSet}
use cossacks_game_server.Wire.Binary.{marshal}
use cossacks_game_server.Wire.Binary.Reads.{Fits, set_ends_full}
use cossacks_game_server.Wire.Stream.{Zlib, Stream, read_from, marshal_stream}
use cossacks_game_server.Wire.Stream.RoundTrip.{HeaderFits}
use cossacks_game_server.Wire.Stream.Connection.{Within, read_from-marshal_stream}
use cossacks_game_server.Gsc.Connectivity.{Connection}
use cossacks_game_server.Gsc.Commands.{HandleError, HandleResult}
use cossacks_game_server.Tcp.{
  Request, Link, next, split_args, with_window, respond, dispatch_request, turn,
}

-- The bytes are the frame of the stream, whose numbers and lengths fit their fields, whose last
-- argument is not empty, and which is within the limit of its reader.
pub record Carried (z : Zlib) (max_size : ℕ) (s : Stream) (b : Bytes) : Type 0 where
  pub header : HeaderFits s
  pub count : length s.cmd_set < 256 ^ 2
  pub fits : All Fits s.cmd_set
  pub small : (bin : Bytes) → marshal s.cmd_set ≡ ok bin → length bin < 2 ^ 32
  pub written : marshal_stream z s ≡ ok b
  pub short : length b < 2 ^ 32
  pub within : Within max_size (length b)
  pub full : set_ends_full s.cmd_set ≡ true

Carried-read :
    (z : Zlib) (max_size : ℕ) (s : Stream) (b rest : Bytes)
    → Carried z max_size s b
    → read_from z max_size (b ++ rest) ≡ ok (s, rest)
Carried-read z max_size s b rest c =
    read_from-marshal_stream z s max_size b rest c.header c.count c.fits c.small c.written c.short
      c.within
    ∙ rw (c.full) refl

split_args_cons :
    (a : Bytes) (args : List Bytes)
    → 2 ≤ length args
    → split_args (a ∷ args)
      ≡ record (split_args args) { core_args = a ∷ (split_args args).core_args }
unfolding split_args
split_args_cons a [] h = ground (arith, h)
split_args_cons a (b ∷ []) h = ground (arith, h)
split_args_cons a (b ∷ c ∷ args) h = refl

length_two : (core : List Bytes) (win key : Bytes) → 2 ≤ length (core ++ win ∷ key ∷ [])
length_two [] win key = omega arith
length_two (a ∷ core) win key = omega (arith, length_two core win key)

-- The window and the key behind the arguments are found again.
split_args-append :
    (core : List Bytes) (win key : Bytes)
    → split_args (core ++ win ∷ key ∷ []) ≡ record { core_args = core; win = win; key = key }
unfolding split_args
split_args-append [] win key = refl
split_args-append (a ∷ core) win key =
    rw
      (
        split_args_cons a (core ++ win ∷ key ∷ []) (length_two core win key),
        split_args-append core win key,
      )
      refl

-- A stream with one command, as a client sends it, and the answer with the window that the client
-- sent.
abbrev pub ask : Stream → Bytes → Request → Stream
ask head name r = record head {
  cmd_set = record { name = name; args = r.core_args ++ r.win ∷ r.key ∷ [] } ∷ [];
}

abbrev pub reply : Stream → Bytes → CommandSet → Stream
reply head win commands = record head { cmd_set = with_window win commands }

abbrev pub answered : CommandSet → Option HandleError → HandleResult
answered commands error = record { commands = commands; has_response = true; error = error }

module _ {W : Type 0} (z : Zlib) (max_size : ℕ)
    (handle : W → Connection → Stream → (name : Bytes) → Request → W × Connection × HandleResult)
    (on_disconnect : W → Connection → W) (takes : (sent bin : Bytes) → Bool) where
  respond-next :
      (l : Link W) (head : Stream) (win : Bytes) (commands : CommandSet) (out : Bytes)
      → marshal_stream z (reply head win commands) ≡ ok out
      → takes l.sent out ≡ true
      → l.conn.closed ≡ false
      → respond z max_size handle on_disconnect takes l head win commands
        ≡ next (record l { sent = l.sent ++ out })
  unfolding respond
  respond-next l head win commands out h took live = ground arith

  dispatch_request-next :
      (l : Link W) (head : Stream) (name : Bytes) (r : Request) (rest : Bytes)
      → (w : W) (conn : Connection) (commands : CommandSet) (error : Option HandleError)
        (out : Bytes)
      → handle l.world l.conn (ask head name r) name r ≡ (w, conn, answered commands error)
      → marshal_stream z (reply head r.win commands) ≡ ok out
      → takes l.sent out ≡ true
      → conn.closed ≡ false
      → dispatch_request z max_size handle on_disconnect takes l
          (ask head name r)
          rest
          (ask head name r).cmd_set
        ≡ next (record { world = w; conn = conn; sent = l.sent ++ out; input = rest })
  unfolding dispatch_request
  dispatch_request-next l head name r rest w conn commands error out handled written took live =
      rw (split_args-append r.core_args r.win r.key, handled)
        (respond-next (record { world = w; conn = conn; sent = l.sent; input = rest })
          (ask head name r) r.win commands out written took live)

  -- A request and its answer from end to end, where the handler answers: the turn of the loop reads
  -- the name, the arguments, the window and the key that the client wrote, sends one frame behind
  -- what was sent, and leaves the input behind the request; and the client reads back from that
  -- frame the commands of the handler with the window behind the arguments of each, under the
  -- number, language and version of the request. Both frames are carried, that is their numbers and
  -- lengths fit, the last argument is not empty and the reader's limit holds; the socket takes the
  -- answer, and the connection is not closed by then.
  pub exchange :
      (l : Link W) (head : Stream) (name : Bytes) (r : Request) (b rest : Bytes)
      → (w : W) (conn : Connection) (commands : CommandSet) (error : Option HandleError)
      → (client_max : ℕ) (out back : Bytes) → Carried z max_size (ask head name r) b
      → l.input ≡ b ++ rest
      → handle l.world l.conn (ask head name r) name r ≡ (w, conn, answered commands error)
      → Carried z client_max (reply head r.win commands) out
      → takes l.sent out ≡ true
      → conn.closed ≡ false
      → (turn z max_size handle on_disconnect takes l
          ≡ next (record { world = w; conn = conn; sent = l.sent ++ out; input = rest }))
        × (read_from z client_max (out ++ back) ≡ ok (reply head r.win commands, back))
  unfolding turn
  exchange l head name r b rest w conn commands error client_max out back asked input handled
        replied took live =
      let arrived : read_from z max_size l.input ≡ ok (ask head name r, rest) =
        ap (read_from z max_size) input ∙ Carried-read z max_size (ask head name r) b rest asked in
      (
        rw (arrived, turn)
            (dispatch_request-next l head name r rest w conn commands error out handled
              replied.written took live),
        Carried-read z client_max (reply head r.win commands) out back replied,
      )
