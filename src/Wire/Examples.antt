-- ===== src/Wire/Examples.antt =====
-- The wire protocol at concrete inputs: tests, and the theorems applied.
use cossacks_game_server.Base.{
  ◌<◌, ◌≤◌, some, [], ◌∷◌, ◌++◌, Bytes, codes, ◌≡◌, ◌↔◌, refl, sym, ap, arith, if◌then◌else◌,
  length, inr,
}
use cossacks_game_server.Base.LittleEndian.{get_le}
use cossacks_game_server.Wire.Stream.{read_rest}
use cossacks_game_server.Base.Result.{ok, err, ok-injective}
use cossacks_game_server.Wire.Escape.{decode_arg}
use cossacks_game_server.Wire.Command.{
  Command, command_to_string, command_set_from_string, command_set_to_string,
}
use cossacks_game_server.Wire.Command.RoundTrip.{command_set_from_string-to_string}
use cossacks_game_server.Wire.Binary.{eof, marshal, unmarshal}
use cossacks_game_server.Wire.Binary.Reads.{set_ends_full}
use cossacks_game_server.Wire.Binary.RoundTrip.{unmarshal-marshal}
use cossacks_game_server.Wire.Stream.{
  Stream, Zlib, panic, marshal_stream, unmarshal_stream, read_from, read_rest,
}
use cossacks_game_server.Wire.Stream.RoundTrip.{unmarshal_stream-marshal_stream}
use cossacks_game_server.Wire.Stream.Connection.{
  declared_size, Within, read_from-panic, read_from-marshal_stream,
}

-- go("A\B&C|D\0"), the command of the repository's test.
abbrev escaped : Command
escaped = record { name = codes "go"; args = (codes "A\\B&C|D" ++ 0 ∷ []) ∷ [] }

command_to_string-escaped : command_to_string escaped ≡ codes "go&A\\5CB\\26C\\7CD\\00"
unfolding command_to_string
command_to_string-escaped = refl

decode_arg_short : decode_arg (codes "a\\2") ≡ codes "a\\2"
unfolding decode_arg
decode_arg_short = refl

decode_arg_lower : decode_arg (codes "\\7c\\zz") ≡ codes "|\\zz"
unfolding decode_arg
decode_arg_lower = refl

command_set_from_string-to_string_example :
    command_set_from_string (command_set_to_string (escaped ∷ escaped ∷ []))
    ≡ escaped ∷ escaped ∷ []
command_set_from_string-to_string_example =
    command_set_from_string-to_string (escaped ∷ escaped ∷ []) (cc) (omega arith)

-- A `GETTBL` whose last argument, the list of sums, is empty.
abbrev table : Command
table = record { name = codes "GETTBL"; args = codes "ROOMS_V2" ∷ [] ∷ [] }

unmarshal-marshal_example :
    (b : Bytes) × (marshal (table ∷ []) ≡ ok b)
    × (unmarshal b ≡ (if set_ends_full (table ∷ []) then ok (table ∷ []) else err eof))
unmarshal-marshal_example = unmarshal-marshal (table ∷ []) (omega arith) (omega arith)

-- The codec that stores its input.
abbrev stored : Zlib
stored = record { compress = λ b. b; decompress = λ b. some b; decompress-compress = λ b. refl }

abbrev login : Stream
login = record {
  num = 15;
  lang = 1;
  ver = 2;
  cmd_set = record { name = codes "ping"; args = codes "WIN" ∷ codes "KEY" ∷ [] } ∷ [];
}

abbrev frame : Bytes
frame =
    15 ∷ 0 ∷ 1 ∷ 2 ∷ 35 ∷ 0 ∷ 0 ∷ 0 ∷ 23 ∷ 0 ∷ 0 ∷ 0 ∷ 1 ∷ 0 ∷ 4 ∷ codes "ping"
    ++ 2 ∷ 0 ∷ 3 ∷ 0 ∷ 0 ∷ 0 ∷ codes "WIN"
    ++ 3 ∷ 0 ∷ 0 ∷ 0 ∷ codes "KEY"

login_bytes : marshal_stream stored login ≡ ok frame
unfolding marshal_stream marshal
login_bytes = refl

login_payload : (bin : Bytes) → marshal login.cmd_set ≡ ok bin → length bin ≡ 23
unfolding marshal
login_payload bin e = sym (ap length (ok-injective e))

unmarshal_stream-marshal_stream_example :
    (b : Bytes) × (marshal_stream stored login ≡ ok b)
    × (unmarshal_stream stored b ≡ (if set_ends_full login.cmd_set then ok login else err eof))
unmarshal_stream-marshal_stream_example =
    unmarshal_stream-marshal_stream stored login (omega arith) (omega arith) (omega arith)
      (λ b e. (omega (arith, login_payload b e), omega (arith, login_payload b e)))

read_from-marshal_stream_example :
    read_from stored 1048576 (frame ++ codes "next") ≡ ok (login, codes "next")
read_from-marshal_stream_example =
    read_from-marshal_stream stored login 1048576 frame (codes "next") (omega arith) (omega arith)
      (omega arith) (λ b e. omega (arith, login_payload b e)) login_bytes (omega arith)
      (inr (omega arith))

-- Twelve bytes whose declared size is 5.
abbrev short : Bytes
short = 0 ∷ 0 ∷ 0 ∷ 0 ∷ 5 ∷ 0 ∷ 0 ∷ 0 ∷ 0 ∷ 0 ∷ 0 ∷ 0 ∷ []

read_from-panic_example :
    (read_from stored 1048576 short ≡ err panic)
    ↔ ((12 ≤ length short) × (declared_size short < 12) × Within 1048576 (declared_size short))
read_from-panic_example = read_from-panic stored 1048576 short

read_from-short : read_from stored 1048576 short ≡ err panic
unfolding read_from read_rest get_le
read_from-short = refl

declared_size-frame : declared_size frame ≡ length frame
unfolding get_le
declared_size-frame = refl
