-- ===== src/Stun/Punching.antt =====
-- internal/adapter/stun/stun.go: a host shows its address, and those who join find it.
use cossacks_game_server.Base.{
  ℕ, ◌-◌, ◌<◌, ◌≤◌, ◌^◌, false, some, [], ◌∷◌, ◌++◌, Bytes, codes, Lacks, length, length-append,
  take-length, All-append, append_assoc, ◌∙◌, ap, sym, ◌≢◌, ◌==◌, Bool, zero, suc, take, replicate,
  ltb, ◌≡◌, refl, arith, true,
}
use cossacks_game_server.Base.LittleEndian.{put_le, get_le, get_le-put_le}
use cossacks_game_server.Base.Strings.{trim_left, trim_right}
use cossacks_game_server.Base.Int.{ℤ}
use cossacks_game_server.Base.Format.{print_uint}
use cossacks_game_server.KvMemory.{RuntimeStorage, set_px}
use cossacks_game_server.Stun.{ttl_of, Packet, parse_packet, Endpoint, serve_packet, Datagram}
use mathlib.Core.Path.{subst}
use mathlib.Core.List.{reverse, reverse-reverse, reverse-cons, reverse-append}

abbrev is_nul : ℕ → Bool
is_nul c = c == 0

trim_left_lacking : (s : Bytes) → Lacks 0 s → trim_left is_nul s ≡ s
unfolding trim_left
trim_left_lacking [] h = refl
trim_left_lacking (c ∷ s) (hc, _) = ground arith

trim_left_padded :
    (n : ℕ) (s : Bytes) → trim_left is_nul (reverse (replicate n 0) ++ s) ≡ trim_left is_nul s
unfolding trim_left
trim_left_padded zero s = refl
trim_left_padded (suc n) s =
    ap (λ zs. trim_left is_nul (zs ++ s)) (reverse-cons 0 (replicate n 0))
    ∙ ap (trim_left is_nul) (append_assoc (reverse (replicate n 0)) (0 ∷ []) s)
    ∙ trim_left_padded n (0 ∷ s)

Lacks-reverse : (s : Bytes) → Lacks 0 s → Lacks 0 (reverse s)
Lacks-reverse [] h = h
Lacks-reverse (c ∷ s) (hc, hs) =
    subst (Lacks 0) (sym (reverse-cons c s))
      (All-append (λ b. b ≢ 0) (reverse s) (c ∷ []) (Lacks-reverse s hs) (hc, tt))

-- The padding of a key is dropped.
trim_right_padded :
    (n : ℕ) (key : Bytes) → Lacks 0 key → trim_right is_nul (key ++ replicate n 0) ≡ key
unfolding trim_right
trim_right_padded n key h =
    ap (λ s. reverse (trim_left is_nul s)) (reverse-append key (replicate n 0))
    ∙ ap reverse
        (trim_left_padded n (reverse key) ∙ trim_left_lacking (reverse key) (Lacks-reverse key h))
    ∙ reverse-reverse key

length-replicate : (n : ℕ) → length {A = ℕ} (replicate n 0) ≡ n
length-replicate zero = refl
length-replicate (suc n) = ap suc (length-replicate n)

length_padded : (key : Bytes) → length key ≤ 16 → length (key ++ replicate (16 - length key) 0) ≡ 16
length_padded key h =
    omega
      (arith, length-append key (replicate (16 - length key) 0), length-replicate (16 - length key))

take_whole : (n : ℕ) (s : Bytes) → length s ≡ n → take n s ≡ s
take_whole n s h = ap (λ k. take k s) (sym h) ∙ take-length s

-- The packet of a client.
abbrev pub packet_bytes : ℕ → Bytes → Bytes
packet_bytes id key =
    codes "CSHP" ++ 1 ∷ reverse (put_le 4 id) ++ key ++ replicate (16 - length key) 0

abbrev pub sent : ℕ → Bytes → Packet
sent id key = record { tag = codes "CSHP"; version = 1; player_id = id; access_key = key }

pub parse_packet-packet_bytes :
    (id : ℕ) (key : Bytes)
    → id < 256 ^ 4
    → length key ≤ 16
    → Lacks 0 key
    → parse_packet (packet_bytes id key) ≡ some (sent id key)
unfolding parse_packet put_le
parse_packet-packet_bytes id key h hk lacks =
    let padded = key ++ replicate (16 - length key) 0 in
    let whole = length_padded key hk in
    let key_read : trim_right is_nul (take 16 padded) ≡ key =
      ap (trim_right is_nul) (take_whole 16 padded whole)
      ∙ trim_right_padded (16 - length key) key lacks in
    let id_read = get_le-put_le 4 id h in
    let full : length (packet_bytes id key) ≡ 25 = omega (arith, whole) in
    let enough : ltb (length (packet_bytes id key)) 25 ≡ false = rw full refl in
    rw (enough, key_read, id_read, parse_packet) (unfold get_le in refl)

take_short : (n : ℕ) (s : Bytes) → length s ≤ n → take n s ≡ s
take_short zero [] h = refl
take_short zero (c ∷ s) h = absurd (omega arith)
take_short (suc n) [] h = refl
take_short (suc n) (c ∷ s) h = ap (◌∷◌ c) (take_short n s (omega arith))

-- The packet fits the buffer.
pub received :
    (id : ℕ) (key : Bytes)
    → id < 256 ^ 4
    → length key ≤ 16
    → Lacks 0 key
    → parse_packet (take 512 (packet_bytes id key)) ≡ some (sent id key)
received id key h hk lacks =
    let fits : length (packet_bytes id key) ≤ 512 =
      unfold put_le in omega (arith, length_padded key hk) in
    ap parse_packet (take_short 512 (packet_bytes id key) fits)
    ∙ parse_packet-packet_bytes id key h hk lacks

module _ (marshal : Endpoint → Bytes) where
  -- What a packet of the protocol does, on a storage that is not closed.
  pub serve_packet-sent :
      (keep_alive_ms : ℤ) (s : RuntimeStorage) (datagram : Datagram) (id : ℕ) (key : Bytes)
      → parse_packet (take 512 datagram.bytes) ≡ some (sent id key)
      → s.closed ≡ false
      → let endpoint : Endpoint = record {
        host = datagram.host;
        port = datagram.port;
        version = 1;
        access_key = key;
      } in
        serve_packet marshal keep_alive_ms (some s) datagram ≡ (
          (set_px (some s) datagram.at (print_uint id) (marshal endpoint) (ttl_of keep_alive_ms)).0,
          true,
        )
  unfolding serve_packet set_px
  serve_packet-sent keep_alive_ms s datagram id key parsed opened =
      rw (parsed, opened, serve_packet) refl
