-- ===== src/Gsc/Routes/Endpoint.antt =====
-- internal/app/gsc/routes/join_game.go: the address of a host, which its STUN packets left in the
-- key-value storage. `marshal` and `unmarshal` are those of `encoding/json`.
use cossacks_game_server.Base.{
  ℕ, ◌+◌, ◌<◌, ◌≤◌, ◌^◌, true, false, ◌&&◌, Option, none, some, Bytes, Lacks, length, ltb,
  if◌then◌else◌, ◌≡◌, refl, inl, inr, Bool-cases, bytes_eq_refl,
}
use cossacks_game_server.Base.{All}
use cossacks_game_server.Base.Int.{ℤ, pos, ◌≤ℤ◌, ◌<ℤ◌}
use cossacks_game_server.Base.Format.{print_uint}
use cossacks_game_server.Base.Result.{Result, ok, err}
use cossacks_game_server.KvMemory.{RuntimeStorage, StorageError, get}
use cossacks_game_server.KvMemory.Reading.{get-set_px}
use cossacks_game_server.Rooms.{Time}
use cossacks_game_server.Stun.{Endpoint, serve_packet, ttl_of}
use cossacks_game_server.Stun.Punching.{packet_bytes, received, serve_packet-sent}

abbrev decode_value : (Bytes → Option (Bytes × ℤ)) → Result StorageError Bytes → Option (Bytes × ℤ)
decode_value unmarshal (err e) = none
decode_value unmarshal (ok raw) = unmarshal raw

-- The host and the port that are stored for a player; `none` leaves the room's address.
unfoldable pub stored_endpoint :
    (Bytes → Option (Bytes × ℤ)) → Option RuntimeStorage → Time → ℕ → Option (Bytes × ℤ)
stored_endpoint unmarshal storage now id =
    decode_value unmarshal (get storage now (print_uint id)).1

-- What a UDP socket gives as the address of a packet: `net.IP.String` is of ASCII characters, and a
-- port has 16 bits.
pub record Remote (host : Bytes) (port : ℤ) : Type 0 where
  pub ascii : All (λ (c : ℕ). c < 128) host
  pub from_zero : pos 0 ≤ℤ port
  pub below : port <ℤ pos 65536

-- `encoding/json` reads back the host and the port that it wrote where the host is ASCII and the port
-- has 16 bits, whatever the access key is.
module _ (marshal : Endpoint → Bytes) (unmarshal : Bytes → Option (Bytes × ℤ))
    (reads_back : (e : Endpoint)
      → Remote e.host e.port
      → unmarshal (marshal e) ≡ some (e.host, e.port)) where
  -- From end to end between a host and those who join: a STUN packet of a player, with an id of 32
  -- bits and a key of at most 16 bytes without a zero byte, is answered, and those who ask for the
  -- endpoint of that player get the address that the packet came from. Where one and a half times
  -- the interval of the settings is positive they get it until that time has passed and nothing
  -- after that; where it is not they get it at any time. The storage is not closed, the address is
  -- one that a UDP socket gives, and encoding/json reads back the addresses of this kind that it
  -- wrote.
  pub punched :
      (keep_alive_ms : ℤ) (s : RuntimeStorage) (at read : Time) (host key : Bytes) (port : ℤ)
      (id : ℕ)
      → s.closed ≡ false
      → Remote host port
      → id < 256 ^ 4
      → length key ≤ 16
      → Lacks 0 key
      → let ttl = ttl_of keep_alive_ms in
        let served =
          serve_packet marshal keep_alive_ms
            (some s)
            (record { at = at; host = host; port = port; bytes = packet_bytes id key }) in
        (served.1 ≡ true)
        × (stored_endpoint unmarshal served.0 read id
            ≡ (if ltb 0 ttl && ltb (at + ttl) read then none else some (host, port)))
  unfolding stored_endpoint
  punched keep_alive_ms s at read host key port id opened remote h hk lacks =
      let e : Endpoint = record { host = host; port = port; version = 1; access_key = key } in
      let ttl = ttl_of keep_alive_ms in
      let served =
        serve_packet-sent marshal keep_alive_ms s
          (record { at = at; host = host; port = port; bytes = packet_bytes id key }) id key
          (received id key h hk lacks) opened in
      rw
        (
          served,
          get-set_px s at read (print_uint id) (print_uint id) (marshal e) ttl opened,
          bytes_eq_refl (print_uint id),
        )
        (
          refl,
          elim (Bool-cases (ltb 0 ttl && ltb (at + ttl) read)) [
            | inl gone ↦ rw gone refl
            | inr there ↦ rw there (reads_back e remote)
          ],
        )
