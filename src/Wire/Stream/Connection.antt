-- ===== src/Wire/Stream/Connection.antt =====
-- `ReadFrom` on the input of a connection: frames are consumed one by one, and a header that
-- declares less than its own size.
use cossacks_game_server.Base.{
  ◌+◌, ℕ, ◌-◌, ◌<◌, ◌≤◌, ◌++◌, Bytes, ◌≡◌, ◌⊎◌, ◌↔◌, ◌∙◌, length, take, drop, arith, length-append,
  length-drop, take-append, drop-append, take-append_le, drop-append_le, take-drop-take,
  take-append-drop, ge→ltb, All, Bool, ap,
}
use cossacks_game_server.Base.Result.{Result, ok, err, ◌>>=◌}
use cossacks_game_server.Base.LittleEndian.{get_le}
use cossacks_game_server.Wire.Stream.{
  Zlib, Failure, panic, with_failure, read_full, check_size, read_rest, unmarshal_stream, read_from,
  Stream, failed,
}
use cossacks_game_server.Wire.Binary.{marshal, eof}
use cossacks_game_server.Wire.Binary.Reads.{Fits, set_ends_full}
use cossacks_game_server.Wire.Binary.RoundTrip.{unmarshal-marshal}
use cossacks_game_server.Wire.Stream.RoundTrip.{
  HeaderFits, frame_size, length-put_frame, unmarshal_stream-put_frame, bind-if_ok,
}
use cossacks_game_server.Base.{sym, refl, true, false, ◌^◌, ge→ltb, if◌then◌else◌}
use cossacks_game_server.Base.Result.{ok-injective}
use cossacks_game_server.Wire.Stream.{put_frame, marshal_stream}

read_full-append :
    (n : ℕ) (xs rest : Bytes)
    → n ≤ length xs
    → read_full n (xs ++ rest) ≡ ok (take n xs, drop n xs ++ rest)
unfolding read_full
read_full-append n xs rest h =
    rw (take-append_le n xs rest h, drop-append_le n xs rest h)
      (ground (arith, length-append xs rest))

read_full_all : (xs rest : Bytes) → read_full (length xs) (xs ++ rest) ≡ ok (xs, rest)
unfolding read_full
read_full_all xs rest =
    rw (take-append xs rest, drop-append xs rest) (ground (arith, length-append xs rest))

-- The size that a header declares.
abbrev pub declared_size : Bytes → ℕ
declared_size b = get_le (take 4 (drop 4 b))

-- The limit lets the size pass.
abbrev pub Within : ℕ → ℕ → Type 0
Within max_size size = (max_size ≡ 0) ⊎ (size ≤ max_size)

check_size-Within {ℓ} :
    {A : Type ℓ} (max_size size : ℕ) (next : Result Failure A)
    → Within max_size size
    → check_size max_size size next ≡ next
unfolding check_size
check_size-Within max_size size next h = ground arith

module _ (z : Zlib) where
  read_rest-append :
      (b rest : Bytes)
      → 12 ≤ length b
      → read_rest z (length b) (take 12 b) (drop 12 b ++ rest)
        ≡ (with_failure (unmarshal_stream z b) >>= λ s. ok (s, rest))
  unfolding read_rest
  read_rest-append b rest h =
      let tail : length b - 12 ≡ length (drop 12 b) = omega (arith, length-drop 12 b) in
      rw (ge→ltb (length b) 12 h, tail, read_full_all (drop 12 b) rest, take-append-drop 12 b)

  -- A frame whose header declares its own length, within the limit, is decoded as
  -- `Stream.UnmarshalBinary` decodes it, and the input behind it is left for the next call.
  pub read_from-append :
      (max_size : ℕ) (b rest : Bytes)
      → 12 ≤ length b
      → declared_size b ≡ length b
      → Within max_size (length b)
      → read_from z max_size (b ++ rest)
        ≡ (with_failure (unmarshal_stream z b) >>= λ s. ok (s, rest))
  unfolding read_from
  read_from-append max_size b rest h e w = rw (read_full-append 12 b rest h) (
      rw (take-drop-take 4 4 12 b (omega arith), e)
        (check_size-Within max_size (length b) _ w ∙ read_rest-append b rest h))

  read_rest-panic :
      (size : ℕ) (head r : Bytes) → (read_rest z size head r ≡ err panic) ↔ (size < 12)
  unfolding read_rest
  read_rest-panic size head r = (λ h. ground (arith, h), λ h. ground (arith, h))

  -- `ReadFrom` panics exactly when a whole header arrives, its size passes the limit and is below
  -- the size of the header itself.
  pub read_from-panic :
      (max_size : ℕ) (r : Bytes)
      → (read_from z max_size r ≡ err panic)
        ↔ ((12 ≤ length r) × (declared_size r < 12) × Within max_size (declared_size r))
  unfolding read_from read_full check_size
  read_from-panic max_size r = (
    λ h. ground (
      arith,
      read_rest-panic (declared_size (take 12 r)) (take 12 r) (drop 12 r),
      take-drop-take 4 4 12 r,
      h,
    ),
    λ h. ground (
      arith,
      read_rest-panic (declared_size (take 12 r)) (take 12 r) (drop 12 r),
      take-drop-take 4 4 12 r,
      h,
    ),
  )

marshal_stream-marshal :
    (z : Zlib) (s : Stream) {bin : Bytes}
    → marshal s.cmd_set ≡ ok bin
    → marshal_stream z s ≡ ok (put_frame z s bin)
unfolding marshal_stream
marshal_stream-marshal z s h = rw h

frames-if :
    (s : Stream) (rest : Bytes) (b : Bool)
    → (◌>>=◌ {B = Stream × Bytes} (with_failure (if b then ok s else err eof)) λ t. ok (t, rest))
      ≡ (if b then ok (s, rest) else err (failed eof))
frames-if s rest true = refl
frames-if s rest false = refl

-- What `Stream.MarshalBinary` wrote is what `ReadFrom` yields on the connection, with the input
-- behind the frame left for the next call: the stream itself, or `io.EOF` where the last argument
-- of the last command is empty. The numbers and lengths fit their fields, and the frame is within
-- the limit.
pub read_from-marshal_stream :
    (z : Zlib) (s : Stream) (max_size : ℕ) (b rest : Bytes)
    → HeaderFits s
    → length s.cmd_set < 256 ^ 2
    → All Fits s.cmd_set
    → ((bin : Bytes) → marshal s.cmd_set ≡ ok bin → length bin < 2 ^ 32)
    → marshal_stream z s ≡ ok b
    → length b < 2 ^ 32
    → Within max_size (length b)
    → read_from z max_size (b ++ rest)
      ≡ (if set_ends_full s.cmd_set then ok (s, rest) else err (failed eof))
read_from-marshal_stream z s max_size b rest hd count fits small written hb within =
    let (bin, packed, read) = unmarshal-marshal s.cmd_set count fits in
    let e : put_frame z s bin ≡ b =
      ok-injective (sym (marshal_stream-marshal z s packed) ∙ written) in
    let framed : length b ≡ length (z.compress bin) + 12 =
      ap length (sym e) ∙ length-put_frame z s bin in
    let declared : declared_size b ≡ length b =
      ap declared_size (sym e) ∙ frame_size z s bin (omega (arith, framed)) ∙ sym framed in
    let decoded : unmarshal_stream z b ≡ (if set_ends_full s.cmd_set then ok s else err eof) =
      ap (unmarshal_stream z) (sym e)
      ∙ unmarshal_stream-put_frame z s bin hd (small bin packed) (omega (arith, framed))
      ∙ ap (λ r. r >>= λ cs. ok (record s { cmd_set = cs })) read
      ∙ bind-if_ok s (set_ends_full s.cmd_set) in
    read_from-append z max_size b rest (omega (arith, framed)) declared within
    ∙ rw decoded (frames-if s rest (set_ends_full s.cmd_set))
