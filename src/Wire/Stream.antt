-- ===== src/Wire/Stream.antt =====
-- internal/transport/gsc/stream.go: the frame round a compressed command set. zlib is a parameter.
pub mod RoundTrip
pub mod Connection
use Prim.Native.Nat.{zero, suc}
use cossacks_game_server.Base.{
  Option, none, some, ℕ, ◌+◌, ◌-◌, ◌%◌, ◌^◌, Bool, true, false, not, ◌&&◌, ◌||◌, List, [], ◌∷◌,
  ◌++◌, Bytes, ◌≡◌, if◌then◌else◌, length, take, drop, ltb, leb, ◌==◌, is_empty,
}
use cossacks_game_server.Base.Result.{Result, ok, err, ◌>>=◌}
use cossacks_game_server.Base.LittleEndian.{put_le, get_le}
use cossacks_game_server.Wire.Command.{CommandSet}
use cossacks_game_server.Wire.Binary.{
  Error, unexpected_eof, eof, corrupt, invalid_size, wrong_stream_len, request_too_large, marshal,
  unmarshal,
}

pub record Stream : Type 0 where
  pub num : ℕ
  pub lang : ℕ
  pub ver : ℕ
  pub cmd_set : CommandSet

-- compress/zlib: `decompress` is `none` where `NewReader` or the read fails. What is compressed is
-- read back.
pub record Zlib : Type 0 where
  pub compress : Bytes → Bytes
  pub decompress : Bytes → Option Bytes
  pub decompress-compress : (b : Bytes) → decompress (compress b) ≡ some b

abbrev pub header_size : ℕ
header_size = 12

-- What `ReadFrom` may end with: an error, or the run-time panic of a slice out of bounds.
pub data Failure : Type 0 where
  failed : Error → Failure
  panic : Failure

abbrev pub with_failure : {A : Type 0} → Result Error A → Result Failure A
with_failure (ok a) = ok a
with_failure (err e) = err (failed e)

-- `io.ReadFull` of `n` bytes from the input that the connection will yield.
unfoldable pub read_full : ℕ → Bytes → Result Error (Bytes × Bytes)
read_full n r =
    if leb n (length r)
    then ok (take n r, drop n r)
    else if is_empty r
    then err eof
    else err unexpected_eof

-- The test of `maxSize`, where 0 stands for no limit.
unfoldable pub check_size {ℓ} : {A : Type ℓ} → ℕ → ℕ → Result Failure A → Result Failure A
check_size max_size size next =
    if ltb 0 max_size && ltb max_size size then err (failed (request_too_large size)) else next

module _ (z : Zlib) where
  -- The header and the compressed set; `size` and the length keep 32 bits.
  unfoldable pub put_frame : Stream → Bytes → Bytes
  unfolding put_le
  put_frame s bin =
      let compressed = z.compress bin in
      put_le 2 s.num
      ++ (put_le 1 s.lang
          ++ (put_le 1 s.ver
              ++ (put_le 4 (length compressed + header_size)
                  ++ (put_le 4 (length bin) ++ compressed))))

  -- `Stream.MarshalBinary`.
  unfoldable pub marshal_stream : Stream → Result Error Bytes
  unfolding put_frame
  marshal_stream s = do bin ← marshal s.cmd_set; ok (put_frame s bin)

  -- The body between the header and `size`.
  unfoldable pub read_body : ℕ → Bytes → Result Error CommandSet
  read_body payload_len body = elim (z.decompress body) [
    | none ↦ err corrupt
    | some bin ↦
        if length bin % 2 ^ 32 == payload_len
        then unmarshal bin
        else err (wrong_stream_len (length bin) payload_len)
  ]

  -- `Stream.UnmarshalBinary`; the fields of the header stand at fixed places.
  unfoldable pub unmarshal_stream : Bytes → Result Error Stream
  unmarshal_stream b =
      let size = get_le (take 4 (drop 4 b)) in
      let payload_len = get_le (take 4 (drop 8 b)) in
      if ltb (length b) header_size
      then err unexpected_eof
      else if ltb size header_size || ltb (length b) size
      then err (invalid_size size)
      else do
        cmd_set ← read_body payload_len (drop header_size (take size b))
        ok (record {
          num = get_le (take 2 b);
          lang = get_le (take 1 (drop 2 b));
          ver = get_le (take 1 (drop 3 b));
          cmd_set = cmd_set;
        })

  -- The buffer of `size` bytes with the header copied in: `full[headerSize:]` panics on a buffer
  -- that is shorter than the header.
  unfoldable pub read_rest : ℕ → Bytes → Bytes → Result Failure (Stream × Bytes)
  unfolding read_full
  read_rest size head r = if ltb size header_size then err panic else do
    (body, rest) ← with_failure (read_full (size - header_size) r)
    s ← with_failure (unmarshal_stream (head ++ body))
    ok (s, rest)

  -- `ReadFrom`: one stream and the input behind it.
  unfoldable pub read_from : ℕ → Bytes → Result Failure (Stream × Bytes)
  unfolding read_rest check_size
  read_from max_size r = do
    (head, rest) ← with_failure (read_full header_size r)
    let size = get_le (take 4 (drop 4 head))
    check_size max_size size (read_rest size head rest)
