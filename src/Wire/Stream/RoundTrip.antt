-- ===== src/Wire/Stream/RoundTrip.antt =====
-- A marshalled stream is read back from a connection, frame by frame.
use cossacks_game_server.Base.{
  ◌+◌, ◌^◌, ◌<◌, Bool, true, false, Bytes, ◌≡◌, refl, ◌∙◌, if◌then◌else◌, length, take, drop, ltb,
  arith, All, take-length, ge→ltb,
}
use cossacks_game_server.Base.Result.{ok, err, ◌>>=◌}
use cossacks_game_server.Base.LittleEndian.{put_le, get_le}
use cossacks_game_server.Wire.Binary.{eof, marshal, unmarshal}
use cossacks_game_server.Wire.Binary.Reads.{Fits, set_ends_full}
use cossacks_game_server.Wire.Binary.RoundTrip.{unmarshal-marshal}
use cossacks_game_server.Wire.Stream.{
  Stream, Zlib, put_frame, marshal_stream, read_body, unmarshal_stream,
}

-- The fields of the header have the widths of the Go struct.
abbrev pub HeaderFits : Stream → Type 0
HeaderFits s = (s.num < 256 ^ 2) × (s.lang < 256) × (s.ver < 256)

module _ (z : Zlib) (s : Stream) (bin : Bytes) where
  frame_num : s.num < 256 ^ 2 → get_le (take 2 (put_frame z s bin)) ≡ s.num
  unfolding put_frame put_le get_le
  frame_num h = omega arith

  frame_lang : s.lang < 256 → get_le (take 1 (drop 2 (put_frame z s bin))) ≡ s.lang
  unfolding put_frame put_le get_le
  frame_lang h = omega arith

  frame_ver : s.ver < 256 → get_le (take 1 (drop 3 (put_frame z s bin))) ≡ s.ver
  unfolding put_frame put_le get_le
  frame_ver h = omega arith

  pub frame_size :
      length (z.compress bin) + 12 < 2 ^ 32
      → get_le (take 4 (drop 4 (put_frame z s bin))) ≡ length (z.compress bin) + 12
  unfolding put_frame put_le get_le
  frame_size h = omega arith

  frame_payload_len :
      length bin < 2 ^ 32 → get_le (take 4 (drop 8 (put_frame z s bin))) ≡ length bin
  unfolding put_frame put_le get_le
  frame_payload_len h = omega arith

  pub length-put_frame : length (put_frame z s bin) ≡ length (z.compress bin) + 12
  unfolding put_frame put_le
  length-put_frame = omega arith

  frame_body : drop 12 (put_frame z s bin) ≡ z.compress bin
  unfolding put_frame put_le
  frame_body = refl

  read_body-compress :
      length bin < 2 ^ 32 → read_body z (length bin) (z.compress bin) ≡ unmarshal bin
  unfolding read_body
  read_body-compress h = ground (arith, z.decompress-compress bin)

  -- A frame is taken apart into its header and whatever its payload decodes to.
  pub unmarshal_stream-put_frame :
      HeaderFits s
      → length bin < 2 ^ 32
      → length (z.compress bin) + 12 < 2 ^ 32
      → unmarshal_stream z (put_frame z s bin)
        ≡ (unmarshal bin >>= λ cs. ok (record s { cmd_set = cs }))
  unfolding unmarshal_stream
  unmarshal_stream-put_frame (hn, hl, hv) hb hz =
      let b = put_frame z s bin in
      let whole : get_le (take 4 (drop 4 b)) ≡ length b =
        omega (arith, frame_size hz, length-put_frame) in
      let long : ltb (length b) 12 ≡ false = ground (arith, length-put_frame) in
      rw
        (
          long,
          whole,
          ge→ltb (length b) (length b) (omega arith),
          take-length b,
          frame_body,
          frame_payload_len hb,
          read_body-compress hb,
          frame_num hn,
          frame_lang hl,
          frame_ver hv,
        )
        (rw long)

pub bind-if_ok :
    (s : Stream) (b : Bool)
    → ((if b then ok s.cmd_set else err eof) >>= λ cs. ok (record s { cmd_set = cs }))
      ≡ (if b then ok s else err eof)
bind-if_ok s true = refl
bind-if_ok s false = refl

-- `Stream.MarshalBinary` succeeds for every stream whose numbers and lengths fit their fields,
-- and what `Stream.UnmarshalBinary` makes of the frame is exact: the same stream, or `io.EOF`
-- where the last argument of the last command is empty. The compressed set and the header take
-- less than 4 GiB.
pub unmarshal_stream-marshal_stream :
    (z : Zlib) (s : Stream)
    → HeaderFits s
    → length s.cmd_set < 256 ^ 2
    → All Fits s.cmd_set
    → ((b : Bytes)
        → marshal s.cmd_set ≡ ok b
        → (length b < 2 ^ 32) × (length (z.compress b) + 12 < 2 ^ 32))
    → (b : Bytes) × (marshal_stream z s ≡ ok b)
      × (unmarshal_stream z b ≡ (if set_ends_full s.cmd_set then ok s else err eof))
unmarshal_stream-marshal_stream z s hd count fits small =
    let (bin, written, read) = unmarshal-marshal s.cmd_set count fits in
    let (hb, hz) = small bin written in
    (
      put_frame z s bin,
      unfold marshal_stream in rw written,
      unmarshal_stream-put_frame z s bin hd hb hz
          ∙ rw read (bind-if_ok s (set_ends_full s.cmd_set)),
    )
