-- ===== src/Tcp/Examples.antt =====
-- The loop of a connection at a concrete input: one request, and the end of the input.
use cossacks_game_server.Base.{
  ℕ, ◌+◌, true, false, Option, none, some, [], ◌∷◌, ◌++◌, Bytes, codes, ◌≡◌, ◌≢◌, refl, arith, sym,
  ap, length, inr, inl,
}
use cossacks_game_server.Base.Int.{pos}
use cossacks_game_server.Base.Result.{ok, ok-injective}
use cossacks_game_server.Base.LittleEndian.{get_le}
use cossacks_game_server.Wire.Binary.{marshal, unmarshal}
use cossacks_game_server.Wire.Stream.{
  Zlib, Stream, read_body, read_from, read_rest, unmarshal_stream, marshal_stream,
}
use cossacks_game_server.Gsc.Connectivity.{Connection}
use cossacks_game_server.Gsc.Commands.{HandleResult, answer, render_echo}
use cossacks_game_server.Tcp.{Request, Link, Reason, split_args, serve, with_window, turn, next}
use cossacks_game_server.Tcp.Ending.{serve-ends}
use cossacks_game_server.Tcp.Exchange.{Carried, ask, reply, exchange}

-- A compression that stores.
abbrev plain : Zlib
plain = record { compress = λ b. b; decompress = λ b. some b; decompress-compress = λ b. refl }

split_args_examples :
    (split_args (codes "a" ∷ codes "W" ∷ codes "K" ∷ [])
      ≡ record { core_args = codes "a" ∷ []; win = codes "W"; key = codes "K" })
    × (split_args (codes "a" ∷ []) ≡ record { core_args = codes "a" ∷ []; win = []; key = [] })
unfolding split_args
split_args_examples = (refl, refl)

abbrev client : Connection
client = record {
  id = 1;
  ip = codes "127.0.0.1";
  port = pos 4000;
  int_ip = 0;
  ctime = 0;
  session = none;
  closed = false;
}

-- Every request is echoed, and counted.
abbrev count_and_echo : ℕ → Connection → Stream → Bytes → Request → ℕ × Connection × HandleResult
count_and_echo n conn req name request = (n + 1, conn, answer (render_echo request.core_args))

-- A request `echo` with the arguments `WIN` and `KEY`.
abbrev request_bytes : Bytes
request_bytes =
    15 ∷ 0 ∷ 1 ∷ 2 ∷ 35 ∷ 0 ∷ 0 ∷ 0 ∷ 23 ∷ 0 ∷ 0 ∷ 0 ∷ 1 ∷ 0 ∷ 4 ∷ codes "echo"
    ++ 2 ∷ 0 ∷ 3 ∷ 0 ∷ 0 ∷ 0 ∷ codes "WIN"
    ++ 3 ∷ 0 ∷ 0 ∷ 0 ∷ codes "KEY"

abbrev connected : Link ℕ
connected = record { world = 0; conn = client; sent = []; input = request_bytes }

serve-ends_example :
    serve plain 1048576 count_and_echo (λ n conn. n) (λ sent bin. true) 36 connected ≢ none
serve-ends_example =
    serve-ends plain 1048576 count_and_echo (λ n conn. n) (λ sent bin. true) 36 connected
      (omega arith)

world_after : Option (Reason × Link ℕ) → ℕ
world_after none = 0
world_after (some (reason, l)) = l.world

served_once :
    world_after (serve plain 1048576 count_and_echo (λ n conn. n) (λ sent bin. true) 36 connected)
    ≡ 1
unfolding serve read_from read_rest read_body get_le world_after unmarshal_stream marshal_stream
    marshal unmarshal render_echo
served_once = refl

abbrev echo_request : Request
echo_request = record { core_args = []; win = codes "WIN"; key = codes "KEY" }

abbrev echo_head : Stream
echo_head = record { num = 15; lang = 1; ver = 2; cmd_set = [] }

-- The answer `LW_echo` with the window.
abbrev answer_bytes : Bytes
answer_bytes =
    15 ∷ 0 ∷ 1 ∷ 2 ∷ 31 ∷ 0 ∷ 0 ∷ 0 ∷ 19 ∷ 0 ∷ 0 ∷ 0 ∷ 1 ∷ 0 ∷ 7 ∷ codes "LW_echo"
    ++ 1 ∷ 0 ∷ 3 ∷ 0 ∷ 0 ∷ 0 ∷ codes "WIN"

request_written :
    marshal_stream plain (ask echo_head (codes "echo") echo_request) ≡ ok request_bytes
unfolding marshal_stream marshal
request_written = refl

answer_written :
    marshal_stream plain (reply echo_head (codes "WIN") (render_echo [])) ≡ ok answer_bytes
unfolding marshal_stream marshal with_window render_echo
answer_written = refl

request_payload :
    (bin : Bytes)
    → marshal (ask echo_head (codes "echo") echo_request).cmd_set ≡ ok bin
    → length bin ≡ 23
unfolding marshal
request_payload bin e = sym (ap length (ok-injective e))

answer_payload :
    (bin : Bytes)
    → marshal (reply echo_head (codes "WIN") (render_echo [])).cmd_set ≡ ok bin
    → length bin ≡ 19
unfolding marshal with_window render_echo
answer_payload bin e = sym (ap length (ok-injective e))

asked : Carried plain 1048576 (ask echo_head (codes "echo") echo_request) request_bytes
asked = record {
  header = omega arith;
  count = omega arith;
  fits = omega arith;
  small = λ bin e. omega (arith, request_payload bin e);
  written = request_written;
  short = omega arith;
  within = inr (omega arith);
  full = refl;
}

replied : Carried plain 0 (reply echo_head (codes "WIN") (render_echo [])) answer_bytes
unfolding with_window render_echo
replied = record {
  header = omega arith;
  count = omega arith;
  fits = omega arith;
  small = λ bin e. omega (arith, answer_payload bin e);
  written = answer_written;
  short = omega arith;
  within = inl refl;
  full = refl;
}

exchange_example :
    (turn plain 1048576 count_and_echo (λ n conn. n) (λ sent bin. true) connected
      ≡ next (record { world = 1; conn = client; sent = answer_bytes; input = [] }))
    × (read_from plain 0 (answer_bytes ++ [])
        ≡ ok (reply echo_head (codes "WIN") (render_echo []), []))
exchange_example =
    exchange plain 1048576 count_and_echo (λ n conn. n) (λ sent bin. true) connected echo_head
      (codes "echo") echo_request request_bytes [] 1 client (render_echo []) none 0 answer_bytes []
      asked refl refl replied refl refl
