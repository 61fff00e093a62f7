-- ===== src/KvMemory.antt =====
-- internal/adapter/kvmemory/storage.go: texts under keys, with an expiry.
pub mod Reading
mod Examples
use cossacks_game_server.Base.{
  ℕ, ◌+◌, Bool, true, false, ◌&&◌, Option, none, some, List, [], ◌∷◌, Bytes, if◌then◌else◌, ltb,
  bytes_eq,
}
use cossacks_game_server.Base.Result.{Result, ok, err}
use cossacks_game_server.Base.TextMaps.{find, put, remove}
use cossacks_game_server.Rooms.{Time}

pub data StorageError : Type 0 where
  storage_closed : StorageError
  key_not_found : StorageError

-- The zero time is 0: no expiry.
pub record StorageRecord : Type 0 where
  pub value : Bytes
  pub expires_at : Time

pub record RuntimeStorage : Type 0 where
  pub closed : Bool
  pub records : List (Bytes × StorageRecord)

unfoldable pub new_runtime_storage : RuntimeStorage
new_runtime_storage = record { closed = false; records = [] }

-- `expiresAt` is set and lies before the time.
unfoldable pub expired : StorageRecord → Time → Bool
expired found now = ltb 0 found.expires_at && ltb found.expires_at now

-- `Get` at the time `now`: a record that has expired is deleted. The storage is `none` where the
-- receiver is nil.
unfoldable pub get :
    Option RuntimeStorage → Time → (key : Bytes) → Option RuntimeStorage × Result StorageError Bytes
unfolding find remove expired
get none now key = (none, err storage_closed)
get (some s) now key =
    if s.closed then (some s, err storage_closed) else elim (find key s.records) [
      | none ↦ (some s, err key_not_found)
      | some found ↦
          if expired found now
          then (some (record s { records = remove key s.records }), err key_not_found)
          else (some s, ok found.value)
    ]

-- `SetPX` at the time `now`; a duration that is not positive is 0.
unfoldable pub set_px :
    Option RuntimeStorage
    → Time
    → (key value : Bytes) → (px : ℕ) → Option RuntimeStorage × Option StorageError
unfolding put
set_px none now key value px = (none, some storage_closed)
set_px (some s) now key value px =
    let expires_at = if ltb 0 px then now + px else 0 in
    let fresh : StorageRecord = record { value = value; expires_at = expires_at } in
    if s.closed
    then (some s, some storage_closed)
    else (some (record s { records = put key fresh s.records }), none)

-- `Ping`.
unfoldable pub ping : Option RuntimeStorage → Option StorageError
ping none = some storage_closed
ping (some s) = if s.closed then some storage_closed else none
