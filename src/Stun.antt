-- ===== src/Stun.antt =====
-- internal/adapter/stun/stun.go: the packets by which a host shows its address. `marshal` is
-- `json.Marshal` of the four fields.
pub mod Punching
mod Examples
use Prim.Native.Nat.{◌/◌}
use cossacks_game_server.Base.{
  ℕ, ◌*◌, Bool, true, false, not, ◌||◌, Option, none, some, List, [], ◌∷◌, ◌++◌, Bytes, codes,
  if◌then◌else◌, ◌==◌, ltb, bytes_eq, length, take, drop,
}
use cossacks_game_server.Base.Int.{ℤ, pos, negsuc}
use cossacks_game_server.Base.Format.{print_uint}
use cossacks_game_server.Base.LittleEndian.{get_le}
use cossacks_game_server.Base.Result.{Result, ok, err}
use cossacks_game_server.Base.Strings.{trim_right}
use cossacks_game_server.Rooms.{Time}
use cossacks_game_server.KvMemory.{RuntimeStorage, set_px}
use mathlib.Core.List.{reverse}

pub record Packet : Type 0 where
  pub tag : Bytes
  pub version : ℕ
  pub player_id : ℕ
  pub access_key : Bytes

-- `binary.BigEndian.Uint32` of four bytes.
abbrev pub get_be : Bytes → ℕ
get_be bs = get_le (reverse bs)

-- `ParsePacket`; `none` for its error.
unfoldable pub parse_packet : Bytes → Option Packet
unfolding trim_right get_le
parse_packet b =
    if ltb (length b) 25
    then none
    else some (record {
      tag = take 4 b;
      version = get_le (take 1 (drop 4 b));
      player_id = get_be (take 4 (drop 5 b));
      access_key = trim_right (λ c. c == 0) (take 16 (drop 9 b));
    })

-- A datagram, with the address that it came from and the time.
pub record Datagram : Type 0 where
  pub at : Time
  pub host : Bytes
  pub port : ℤ
  pub bytes : Bytes

-- What is stored for a player.
pub record Endpoint : Type 0 where
  pub host : Bytes
  pub port : ℤ
  pub version : ℕ
  pub access_key : Bytes

-- `time.Duration(float64(keepAliveMs) * 1.5) * time.Millisecond`, in nanoseconds; below 0 it stands
-- for no expiry, as 0 does.
unfoldable pub ttl_of : ℤ → ℕ
ttl_of (pos n) = n * 3 / 2 * 1000000
ttl_of (negsuc n) = 0

module _ (marshal : Endpoint → Bytes) where
  -- One turn of the loop: the storage, and whether "ok" is sent back. The buffer has 512 bytes.
  unfoldable pub serve_packet : ℤ → Option RuntimeStorage → Datagram → Option RuntimeStorage × Bool
  serve_packet keep_alive_ms storage datagram = elim (parse_packet (take 512 datagram.bytes)) [
    | none ↦ (storage, false)
    | some packet ↦
        let endpoint : Endpoint = record {
          host = datagram.host;
          port = datagram.port;
          version = packet.version;
          access_key = packet.access_key;
        } in
        let (storage', failed) =
          set_px storage datagram.at (print_uint packet.player_id) (marshal endpoint)
            (ttl_of keep_alive_ms) in
        if not (bytes_eq packet.tag (codes "CSHP")) || not (packet.version == 1)
        then (storage, false)
        else (storage', elim failed [ none ↦ true | some _ ↦ false ])
  ]

  -- `ServeUDP`, until the socket fails.
  unfoldable pub serve_udp :
      ℤ → Option RuntimeStorage → List Datagram → Option RuntimeStorage × List Bool
  unfolding serve_packet
  serve_udp keep_alive_ms storage [] = (storage, [])
  serve_udp keep_alive_ms storage (datagram ∷ datagrams) =
      let (storage', answered) = serve_packet keep_alive_ms storage datagram in
      let (last, answers) = serve_udp keep_alive_ms storage' datagrams in (last, answered ∷ answers)
