-- ===== src/KvMemory/Reading.antt =====
-- internal/adapter/kvmemory/storage.go: what is read after a write.
use cossacks_game_server.Base.{
  ℕ, ◌+◌, false, ◌&&◌, Option, none, some, Bytes, if◌then◌else◌, ltb, bytes_eq, ◌≡◌, refl, arith,
  inl, inr, Bool-cases, Option-cases,
}
use cossacks_game_server.Base.Result.{Result, ok, err}
use cossacks_game_server.Base.TextMaps.{find, put, find-put}
use cossacks_game_server.Rooms.{Time}
use cossacks_game_server.KvMemory.{
  RuntimeStorage, StorageRecord, StorageError, key_not_found, expired, get, set_px,
}

-- What a record reads as.
read_value : Option StorageRecord → Time → Result StorageError Bytes
unfolding expired
read_value none now = err key_not_found
read_value (some found) now = if expired found now then err key_not_found else ok found.value

get-read_value :
    (s : RuntimeStorage) (now : Time) (key : Bytes)
    → s.closed ≡ false
    → (get (some s) now key).1 ≡ read_value (find key s.records) now
unfolding read_value get
get-read_value s now key h = elim (Option-cases (find key s.records)) [
  | inl e ↦ rw (h, e, get) refl
  | inr (found, e) ↦ elim (Bool-cases (expired found now)) [
    | inl gone ↦ rw (h, e, gone, get, read_value) refl
    | inr there ↦ rw (h, e, there, get, read_value) refl
  ]
]

abbrev fresh_record : Time → Bytes → ℕ → StorageRecord
fresh_record written value px = record {
  value = value;
  expires_at = if ltb 0 px then written + px else 0;
}

set_px-put :
    (s : RuntimeStorage) (written : Time) (key value : Bytes) (px : ℕ)
    → s.closed ≡ false
    → (set_px (some s) written key value px).0
      ≡ some (record s { records = put key (fresh_record written value px) s.records })
unfolding set_px
set_px-put s written key value px h = rw (h, set_px) refl

read_value-fresh_record :
    (written read : Time) (value : Bytes) (px : ℕ)
    → read_value (some (fresh_record written value px)) read
      ≡ (if ltb 0 px && ltb (written + px) read then err key_not_found else ok value)
unfolding read_value expired
read_value-fresh_record written read value px = ground arith

-- `Get` after `SetPX`, on a storage that is not closed. The key that was written reads as the text,
-- unless a duration was given and has passed, when it is not found; any other key reads as it did
-- before the write.
pub get-set_px :
    (s : RuntimeStorage) (written read : Time) (stored key value : Bytes) (px : ℕ)
    → s.closed ≡ false
    → (get (set_px (some s) written stored value px).0 read key).1 ≡ (
        if bytes_eq stored key
        then (if ltb 0 px && ltb (written + px) read then err key_not_found else ok value)
        else (get (some s) read key).1)
get-set_px s written read stored key value px opened =
    let after : RuntimeStorage = record s {
      records = put stored (fresh_record written value px) s.records;
    } in
    rw
      (
        set_px-put s written stored value px opened,
        get-read_value after read key opened,
        get-read_value s read key opened,
        find-put stored key (fresh_record written value px) s.records,
      )
      (elim (Bool-cases (bytes_eq stored key)) [
        | inl same ↦ rw same (read_value-fresh_record written read value px)
        | inr apart ↦ rw apart refl
      ])
