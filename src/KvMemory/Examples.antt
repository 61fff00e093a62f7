-- ===== src/KvMemory/Examples.antt =====
-- The storage at concrete inputs.
use cossacks_game_server.Base.{
  ◌+◌, ◌&&◌, some, codes, false, if◌then◌else◌, ltb, bytes_eq, ◌≡◌, refl,
}
use cossacks_game_server.Base.Result.{ok, err}
use cossacks_game_server.KvMemory.{key_not_found, get, set_px, new_runtime_storage}
use cossacks_game_server.KvMemory.Reading.{get-set_px}

storage_is_open : new_runtime_storage.closed ≡ false
unfolding new_runtime_storage
storage_is_open = refl

-- Written at 100 for 50; gone at 151.
get_late :
    (get (set_px (some new_runtime_storage) 100 (codes "7") (codes "x") 50).0 151 (codes "7")).1
    ≡ err key_not_found
unfolding get set_px new_runtime_storage
get_late = refl

get-set_px_example :
    (get (set_px (some new_runtime_storage) 100 (codes "7") (codes "x") 50).0 150 (codes "7")).1 ≡ (
      if bytes_eq (codes "7") (codes "7")
      then (if ltb 0 50 && ltb (100 + 50) 150 then err key_not_found else ok (codes "x"))
      else (get (some new_runtime_storage) 150 (codes "7")).1)
get-set_px_example =
    get-set_px new_runtime_storage 100 150 (codes "7") (codes "7") (codes "x") 50 storage_is_open
