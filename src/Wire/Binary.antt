-- ===== src/Wire/Binary.antt =====
-- internal/transport/gsc/commandset.go: `MarshalBinary`, and `UnmarshalBinary` over a
-- `bytes.Reader`, which is the list of bytes not yet read.
pub mod Reads
pub mod RoundTrip
use Prim.Native.Nat.{zero, suc, ◌-◌, ◌%◌, ◌^◌}
use cossacks_game_server.Base.{
  ℕ, Bool, true, false, List, [], ◌∷◌, ◌++◌, Bytes, is_empty, if◌then◌else◌, length, take, drop,
  replicate, ltb, leb, ◌≡◌, arith,
}
use cossacks_game_server.Base.Result
use cossacks_game_server.Base.Result.{Result, ok, err}
use cossacks_game_server.Base.LittleEndian.{put_le, get_le}
use cossacks_game_server.Wire.Command.{Command, CommandSet}

-- The errors of the package: `io.EOF`, `io.ErrUnexpectedEOF`, those of `fmt.Errorf` with their
-- arguments, and any error of zlib.
pub data Error : Type 0 where
  eof unexpected_eof corrupt : Error
  name_too_long : Bytes → Error
  invalid_size : ℕ → Error
  wrong_stream_len : ℕ → ℕ → Error
  request_too_large : ℕ → Error

abbrev pub Reader : Type 0 → Type 0
Reader A = Bytes → Result Error (A × Bytes)

infixl 5 ◌>>=◌
abbrev pub ◌>>=◌ : {A B : Type 0} → Reader A → (A → Reader B) → Reader B
◌>>=◌ m f r = elim (m r) [ ok (a, rest) ↦ f a rest | err e ↦ err e ]

pub bind-ok :
    {A B : Type 0} (m : Reader A) (f : A → Reader B) {r r' : Bytes} {a : A}
    → m r ≡ ok (a, r')
    → (m >>= f) r ≡ f a r'
bind-ok m f h = ground arith

pub bind-if :
    {A B : Type 0} (m : Reader A) (f : A → Reader B) (r r' : Bytes) (a : A) (e : Error) (b : Bool)
    → m r ≡ (if b then err e else ok (a, r'))
    → (m >>= f) r ≡ (if b then err e else f a r')
bind-if m f r r' a e true h = ground arith
bind-if m f r r' a e false h = ground arith

abbrev pub pure : {A : Type 0} → A → Reader A
pure a r = ok (a, r)

-- `binary.Read` of a value of `n` bytes, and `ReadByte`: a short input is an error.
unfoldable pub read_exact : ℕ → Reader Bytes
read_exact n r =
    if leb n (length r)
    then ok (take n r, drop n r)
    else if is_empty r
    then err eof
    else err unexpected_eof

unfoldable pub read_uint : ℕ → Reader ℕ
unfolding read_exact get_le
read_uint w = do bytes ← read_exact w; pure (get_le bytes)

-- `r.Read(make([]byte, n))`: at the end of the input `io.EOF`, also for an empty buffer; otherwise
-- what there is, and the rest of the buffer stays zero.
unfoldable pub read_buffer : ℕ → Reader Bytes
read_buffer n r =
    if is_empty r then err eof else ok (take n r ++ replicate (n - length r) 0, drop n r)

-- The loop over `argc`.
unfoldable pub read_args : ℕ → Reader (List Bytes)
unfolding read_uint read_buffer
read_args zero = pure []
read_args (suc n) = do ln ← read_uint 4; arg ← read_buffer ln; rest ← read_args n; pure (arg ∷ rest)

unfoldable pub read_command : Reader Command
unfolding read_args
read_command = do
  n_len ← read_uint 1
  name ← read_buffer n_len
  argc ← read_uint 2
  args ← read_args argc
  pure (record { name = name; args = args })

-- The loop over `count`.
unfoldable pub read_commands : ℕ → Reader CommandSet
unfolding read_command
read_commands zero = pure []
read_commands (suc n) = do cmd ← read_command; rest ← read_commands n; pure (cmd ∷ rest)

read_set : Reader CommandSet
unfolding read_commands read_uint
read_set = do count ← read_uint 2; read_commands count

-- `CommandSet.UnmarshalBinary`; bytes behind the last command are ignored.
unfoldable pub unmarshal : Bytes → Result Error CommandSet
unfolding read_set
unmarshal b = elim (read_set b) [ ok (cs, _) ↦ ok cs | err e ↦ err e ]

unfoldable pub put_args : List Bytes → Bytes
unfolding put_le
put_args [] = []
put_args (a ∷ args) = put_le 4 (length a) ++ (a ++ put_args args)

unfoldable pub put_command : Command → Bytes
unfolding put_args
put_command c =
    put_le 1 (length c.name) ++ (c.name ++ (put_le 2 (length c.args) ++ put_args c.args))

-- The loop over the commands: it stops at a name of more than 255 bytes.
unfoldable pub put_commands : CommandSet → Result Error Bytes
unfolding put_command
put_commands [] = ok []
put_commands (c ∷ cs) =
    let rest = put_commands cs in
    if ltb 255 (length c.name)
    then err (name_too_long c.name)
    else Result.◌>>=◌ rest λ bytes. ok (put_command c ++ bytes)

-- `CommandSet.MarshalBinary`; `put_le` keeps the low bits, as the conversions to `uint16`, `byte`
-- and `uint32` do.
unfoldable pub marshal : CommandSet → Result Error Bytes
unfolding put_commands
marshal cs = Result.◌>>=◌ (put_commands cs) λ bytes. ok (put_le 2 (length cs) ++ bytes)
