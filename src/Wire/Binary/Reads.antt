-- ===== src/Wire/Binary/Reads.antt =====
-- The reads of `UnmarshalBinary` over what the writes of `MarshalBinary` leave.
use cossacks_game_server.Base.{
  ℕ, suc, ◌-◌, ◌^◌, ◌<◌, ◌≤◌, Bool, true, false, not, ◌&&◌, List, [], ◌∷◌, ◌++◌, append_assoc,
  append-nil, Bytes, ◌≡◌, refl, ap, ◌∙◌, arith, if◌then◌else◌, All, length, is_empty, length-append,
  take-append, drop-append,
}
use cossacks_game_server.Base.Result.{ok, err}
use cossacks_game_server.Base.LittleEndian.{put_le, get_le, length-put_le, get_le-put_le}
use cossacks_game_server.Wire.Command.{Command, CommandSet}
use cossacks_game_server.Wire.Binary.{
  ◌>>=◌, Reader, bind-ok, bind-if, pure, eof, read_exact, read_uint, read_buffer, read_args,
  put_args,
}

read_exact-append :
    (xs rest : Bytes) (n : ℕ) → length xs ≡ n → read_exact n (xs ++ rest) ≡ ok (xs, rest)
unfolding read_exact
read_exact-append xs rest n e =
    rw (← e, take-append xs rest, drop-append xs rest) (ground (arith, length-append xs rest))

pub read_uint-put_le :
    (w n : ℕ) (rest : Bytes) → n < 256 ^ w → read_uint w (put_le w n ++ rest) ≡ ok (n, rest)
unfolding read_uint
read_uint-put_le w n rest h =
    bind-ok (read_exact w) (λ bytes. pure (get_le bytes))
      (read_exact-append (put_le w n) rest w (length-put_le w n))
    ∙ ap (λ v. ok (v, rest)) (get_le-put_le w n h)

-- The whole buffer is filled, but at the end of the input even the empty buffer is an error.
pub read_buffer-append :
    (xs rest : Bytes)
    → read_buffer (length xs) (xs ++ rest)
      ≡ (if is_empty (xs ++ rest) then err eof else ok (xs, rest))
unfolding read_buffer
read_buffer-append xs rest =
    let short : length xs - length (xs ++ rest) ≡ 0 = omega (arith, length-append xs rest) in
    rw (short, take-append xs rest, drop-append xs rest, append-nil xs)

-- Every length fits the field that carries it.
abbrev pub Fits : Command → Type 0
Fits c =
    (length c.name ≤ 255)
    × (length c.args < 256 ^ 2)
    × All (λ (a : Bytes). length a < 256 ^ 4) c.args

-- The last argument, if there is one, is not empty.
abbrev pub ends_full : List Bytes → Bool
ends_full [] = true
ends_full (a ∷ []) = not (is_empty a)
ends_full (a ∷ b ∷ args) = ends_full (b ∷ args)

abbrev pub set_ends_full : CommandSet → Bool
set_ends_full [] = true
set_ends_full (c ∷ []) = ends_full c.args
set_ends_full (c ∷ d ∷ cs) = set_ends_full (d ∷ cs)

-- A length-prefixed buffer, read by the code that goes on with `f`.
unfoldable pub read_prefixed : {A : Type 0} → ℕ → (Bytes → Reader A) → Reader A
read_prefixed w f = do n ← read_uint w; buffer ← read_buffer n; f buffer

pub read_prefixed-append :
    {A : Type 0} (w : ℕ) (f : Bytes → Reader A) (a tail : Bytes)
    → length a < 256 ^ w
    → read_prefixed w f (put_le w (length a) ++ (a ++ tail))
      ≡ (if is_empty (a ++ tail) then err eof else f a tail)
unfolding read_prefixed
read_prefixed-append w f a tail h =
    bind-ok (read_uint w) (λ n. read_buffer n >>= f) (read_uint-put_le w (length a) (a ++ tail) h)
    ∙ bind-if (read_buffer (length a)) f (a ++ tail) tail a eof (is_empty (a ++ tail))
        (read_buffer-append a tail)

read_args-step :
    (n : ℕ) (a tail : Bytes)
    → length a < 256 ^ 4
    → read_args (suc n) (put_le 4 (length a) ++ (a ++ tail))
      ≡ (if is_empty (a ++ tail) then err eof else ((read_args n >>= λ rest. pure (a ∷ rest)) tail))
unfolding read_args read_prefixed
read_args-step n a tail h =
    read_prefixed-append 4 (λ arg. read_args n >>= λ rest. pure (arg ∷ rest)) a tail h

pub is_empty-append : (xs ys : Bytes) → is_empty (xs ++ ys) ≡ (is_empty xs && is_empty ys)
is_empty-append [] ys = refl
is_empty-append (x ∷ xs) ys = refl

is_empty-put_args : (a : Bytes) (args : List Bytes) → is_empty (put_args (a ∷ args)) ≡ false
unfolding put_args put_le
is_empty-put_args a args = refl

put_args-append :
    (a : Bytes) (args : List Bytes) (rest : Bytes)
    → put_args (a ∷ args) ++ rest ≡ put_le 4 (length a) ++ (a ++ (put_args args ++ rest))
unfolding put_args
put_args-append a args rest = simp append_assoc

read_none : (r : Bytes) → read_args 0 r ≡ ok ([], r)
unfolding read_args
read_none r = refl

put_last : (a rest : Bytes) → put_args (a ∷ []) ++ rest ≡ put_le 4 (length a) ++ (a ++ rest)
put_last a rest = put_args-append a [] rest ∙ unfold put_args in refl

pub read_args-put_args :
    (args : List Bytes) (rest : Bytes)
    → All (λ (a : Bytes). length a < 256 ^ 4) args
    → read_args (length args) (put_args args ++ rest)
      ≡ (if is_empty rest && not (ends_full args) then err eof else ok (args, rest))
read_args-put_args [] rest h = unfold put_args read_args in ground arith
read_args-put_args (a ∷ []) rest (ha, _) =
    rw (put_last a rest)
      (ground (arith, read_none rest, read_args-step 0 a rest ha, is_empty-append a rest))
read_args-put_args (a ∷ b ∷ args) rest (ha, hs) = rw (put_args-append a (b ∷ args) rest) (
    ground (
      arith,
      read_args-step (suc (length args)) a (put_args (b ∷ args) ++ rest) ha,
      is_empty-append a (put_args (b ∷ args) ++ rest),
      is_empty-append (put_args (b ∷ args)) rest,
      is_empty-put_args b args,
      read_args-put_args (b ∷ args) rest hs,
    ))
