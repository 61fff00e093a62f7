-- ===== src/Wire/Binary/RoundTrip.antt =====
-- What `UnmarshalBinary` makes of what `MarshalBinary` writes.
use cossacks_game_server.Base.{
  ℕ, suc, ◌^◌, ◌<◌, Bool, true, false, not, ◌&&◌, [], ◌∷◌, ◌++◌, append_assoc, Bytes, ◌≡◌, refl,
  ◌∙◌, arith, if◌then◌else◌, All, length, is_empty,
}
use cossacks_game_server.Base.Result.{ok, err}
use cossacks_game_server.Base.LittleEndian.{put_le}
use cossacks_game_server.Wire.Command.{Command, CommandSet}
use cossacks_game_server.Wire.Binary.{
  ◌>>=◌, Reader, bind-ok, bind-if, pure, eof, read_uint, read_args, put_args, put_command,
  read_command, put_commands, read_commands, marshal, unmarshal, Error, read_set,
}
use cossacks_game_server.Wire.Binary.Reads.{
  read_uint-put_le, Fits, ends_full, set_ends_full, read_prefixed, read_prefixed-append,
  is_empty-append, read_args-put_args,
}

is_empty-put_le : (w n : ℕ) (s : Bytes) → is_empty (put_le (suc w) n ++ s) ≡ false
unfolding put_le
is_empty-put_le w n s = refl

-- The part of a command behind its name.
finish : Bytes → Reader Command
finish name = do
  argc ← read_uint 2
  args ← read_args argc
  pure (record { name = name; args = args })

finish-put_args :
    (c : Command) (rest : Bytes)
    → Fits c
    → finish c.name (put_le 2 (length c.args) ++ (put_args c.args ++ rest))
      ≡ (if is_empty rest && not (ends_full c.args) then err eof else ok (c, rest))
unfolding finish
finish-put_args c rest (_, argc, h) =
    bind-ok (read_uint 2) _ (read_uint-put_le 2 (length c.args) _ argc)
    ∙ ground (arith, read_args-put_args c.args rest h)

put_command-append :
    (c : Command) (rest : Bytes)
    → put_command c ++ rest
      ≡ put_le 1 (length c.name)
        ++ (c.name ++ (put_le 2 (length c.args) ++ (put_args c.args ++ rest)))
unfolding put_command
put_command-append c rest = simp append_assoc

read_command-parts : (r : Bytes) → read_command r ≡ read_prefixed 1 finish r
unfolding read_command read_prefixed finish
read_command-parts r = refl

-- One command is read back with what follows it, unless its last argument is empty and nothing
-- follows.
read_command-put_command :
    (c : Command) (rest : Bytes)
    → Fits c
    → read_command (put_command c ++ rest)
      ≡ (if is_empty rest && not (ends_full c.args) then err eof else ok (c, rest))
read_command-put_command c rest h =
    let tail = put_args c.args ++ rest in
    rw (put_command-append c rest, read_command-parts)
      (ground (
        arith,
        read_prefixed-append 1 finish c.name (put_le 2 (length c.args) ++ tail),
        is_empty-append c.name (put_le 2 (length c.args) ++ tail),
        is_empty-put_le 1 (length c.args) tail,
        finish-put_args c rest h,
      ))

-- What `put_commands` writes where no name is too long.
put_all : CommandSet → Bytes
put_all [] = []
put_all (c ∷ cs) = put_command c ++ put_all cs

put_commands-put_all : (cs : CommandSet) → All Fits cs → put_commands cs ≡ ok (put_all cs)
unfolding put_commands put_all
put_commands-put_all [] h = refl
put_commands-put_all (c ∷ cs) (h, hs) = ground (arith, put_commands-put_all cs hs)

is_empty-put_all : (c : Command) (cs : CommandSet) → is_empty (put_all (c ∷ cs)) ≡ false
unfolding put_all put_command put_le
is_empty-put_all c cs = refl

put_all-cons : (c : Command) (cs : CommandSet) → put_all (c ∷ cs) ≡ put_command c ++ put_all cs
unfolding put_all
put_all-cons c cs = refl

put_all-nil : put_all [] ≡ []
unfolding put_all
put_all-nil = refl

read_no_command : (r : Bytes) → read_commands 0 r ≡ ok ([], r)
unfolding read_commands
read_no_command r = refl

read_commands-step :
    (n : ℕ) (c : Command) (rest : Bytes)
    → Fits c
    → read_commands (suc n) (put_command c ++ rest) ≡ (
        if is_empty rest && not (ends_full c.args)
        then err eof
        else (read_commands n >>= λ cs. pure (c ∷ cs)) rest)
unfolding read_commands
read_commands-step n c rest h =
    bind-if read_command (λ cmd. read_commands n >>= λ cs. pure (cmd ∷ cs)) (put_command c ++ rest)
      rest c eof (is_empty rest && not (ends_full c.args)) (read_command-put_command c rest h)

read_commands-put_all :
    (cs : CommandSet)
    → All Fits cs
    → read_commands (length cs) (put_all cs) ≡ (if set_ends_full cs then ok (cs, []) else err eof)
read_commands-put_all [] h = unfold read_commands put_all in refl
read_commands-put_all (c ∷ []) (h, _) =
    ground (arith, read_commands-step 0 c [] h, put_all-cons c [], put_all-nil, read_no_command [])
read_commands-put_all (c ∷ d ∷ cs) (h, hs) = ground (
  arith,
  read_commands-step (suc (length cs)) c (put_all (d ∷ cs)) h,
  put_all-cons c (d ∷ cs),
  is_empty-put_all d cs,
  read_commands-put_all (d ∷ cs) hs,
)

read_set-put_all :
    (cs : CommandSet)
    → length cs < 256 ^ 2
    → All Fits cs
    → read_set (put_le 2 (length cs) ++ put_all cs)
      ≡ (if set_ends_full cs then ok (cs, []) else err eof)
unfolding read_set
read_set-put_all cs count h =
    bind-ok (read_uint 2) read_commands (read_uint-put_le 2 (length cs) (put_all cs) count)
    ∙ read_commands-put_all cs h

unmarshal-parts :
    (b : Bool) (cs : CommandSet) (e : Error) (r : Bytes)
    → read_set r ≡ (if b then ok (cs, []) else err e)
    → unmarshal r ≡ (if b then ok cs else err e)
unfolding unmarshal
unmarshal-parts true cs e r h = rw (h, unmarshal)
unmarshal-parts false cs e r h = rw (h, unmarshal)

-- `MarshalBinary` succeeds where the counts and lengths fit the fields that carry them, and the
-- result of reading back is exact. It is the written set, unless the last argument of the last
-- command is empty: then the last read of `UnmarshalBinary` stands at the end of its input, and
-- the result is the error `io.EOF`.
pub unmarshal-marshal :
    (cs : CommandSet)
    → length cs < 256 ^ 2
    → All Fits cs
    → (b : Bytes) × (marshal cs ≡ ok b)
      × (unmarshal b ≡ (if set_ends_full cs then ok cs else err eof))
unmarshal-marshal cs count h = (
  put_le 2 (length cs) ++ put_all cs,
  unfold marshal in rw (put_commands-put_all cs h),
  unmarshal-parts (set_ends_full cs) cs eof _ (read_set-put_all cs count h),
)
