-- ===== src/Ranking/Caching.antt =====
-- internal/app/ranking/service.go: what the caches answer, over the life of a file.
use cossacks_game_server.Base.{
  ℕ, true, false, Option, none, some, List, [], ◌∷◌, Bytes, is_empty, map, ◌≡◌, refl, arith, sym,
  ap, ◌∙◌, inl, inr, Bool-cases, ==_iff, ==_refl,
}
use cossacks_game_server.Base.Json.{Json, Numbers, Fields}
use cossacks_game_server.Base.Strings.{trim_space}
use cossacks_game_server.Ranking.{
  Payload, Content, File, Cache, unreadable, blank, malformed, decoded, missing, present, is_cached,
  new_cache, load_lcn, load_gg_cup, place_index, without_info,
}

module _ {F : Type 0} (numbers : Numbers F) (nested : Json F → Bytes)
    (content : ℕ → Content F) where
  -- The file at a moment: its time says what is in it.
  abbrev pub version : Option ℕ → File F
  version none = missing
  version (some mtime) = present mtime (content mtime)

  -- The answer without a cache.
  abbrev pub answer_of : Content F → Payload F
  answer_of (decoded payload) = payload
  answer_of unreadable = none
  answer_of blank = none
  answer_of malformed = none

  abbrev pub read_lcn : Option ℕ → Payload F
  read_lcn none = none
  read_lcn (some mtime) = answer_of (content mtime)

  -- The answers of the cache to a run of loads.
  pub loads : Bytes → Cache F → List (Option ℕ) → List (Payload F)
  loads path c [] = []
  loads path c (v ∷ versions) =
      let (c', answer) = load_lcn numbers nested c path (version v) in
      answer ∷ loads path c' versions

  -- The data that is kept is what its time says, and the index is that of the data.
  record Kept (c : Cache F) : Type 0 where
    data_at : (d : Fields F) → c.lcn_data ≡ some d → content c.lcn_mtime ≡ decoded (some d)
    index_of : c.lcn_place_by_id ≡ place_index numbers nested c.lcn_data

  new_cache-Kept : Kept new_cache
  unfolding new_cache place_index
  new_cache-Kept = record { data_at = λ d h. absurd (ground arith); index_of = refl }

  -- What a load that reads the file leaves.
  abbrev fetched : Cache F → ℕ → Content F → Cache F × Payload F
  fetched c mtime unreadable = (c, none)
  fetched c mtime blank = (c, none)
  fetched c mtime malformed = (c, none)
  fetched c mtime (decoded payload) = (
    record c {
      lcn_mtime = mtime;
      lcn_data = payload;
      lcn_place_by_id = place_index numbers nested payload;
    },
    payload,
  )

  fetched-Kept :
      (c : Cache F) (mtime : ℕ) (w : Content F)
      → content mtime ≡ w
      → Kept c
      → ((fetched c mtime w).1 ≡ answer_of w) × Kept (fetched c mtime w).0
  fetched-Kept c mtime unreadable e k = (refl, k)
  fetched-Kept c mtime blank e k = (refl, k)
  fetched-Kept c mtime malformed e k = (refl, k)
  fetched-Kept c mtime (decoded payload) e k =
      (refl, record { data_at = λ d h. e ∙ ap decoded h; index_of = refl })

  cached_at :
      (kept : Payload F) (cached mtime : ℕ)
      → is_cached kept cached mtime ≡ true
      → (d : Fields F) × (kept ≡ some d) × (cached ≡ mtime)
  cached_at none cached mtime h = ground arith
  cached_at (some d) cached mtime h = (d, refl, (==_iff cached mtime).0 h)

  cached_answer :
      (c : Cache F) (mtime : ℕ)
      → Kept c
      → is_cached c.lcn_data c.lcn_mtime mtime ≡ true
      → c.lcn_data ≡ answer_of (content mtime)
  cached_answer c mtime k h =
      let (d, e, t) = cached_at c.lcn_data c.lcn_mtime mtime h in
      let w : content mtime ≡ decoded (some d) = ap content (sym t) ∙ k.data_at d e in
      rw (w, e) refl

  load_lcn-Kept :
      (path : Bytes) (c : Cache F) (v : Option ℕ)
      → is_empty (trim_space path) ≡ false
      → Kept c
      → ((load_lcn numbers nested c path (version v)).1 ≡ read_lcn v)
        × Kept (load_lcn numbers nested c path (version v)).0
  unfolding load_lcn
  load_lcn-Kept path c none h k = (refl, k)
  load_lcn-Kept path c (some mtime) h k =
      elim (Bool-cases (is_cached c.lcn_data c.lcn_mtime mtime)) [
        | inl hit ↦ rw (h, hit, load_lcn) (cached_answer c mtime k hit, k)
        | inr miss ↦ rw (h, miss, load_lcn) (fetched-Kept c mtime (content mtime) refl k)
      ]

  loads-Kept :
      (path : Bytes) (c : Cache F) (versions : List (Option ℕ))
      → is_empty (trim_space path) ≡ false
      → Kept c
      → loads path c versions ≡ map read_lcn versions
  unfolding loads
  loads-Kept path c [] h k = refl
  loads-Kept path c (v ∷ versions) h k =
      let (e, k') = load_lcn-Kept path c v h k in
      rw (e, loads-Kept path (load_lcn numbers nested c path (version v)).0 versions h k') refl

  -- The cache of the LCN ranking is transparent: a cache that starts empty answers, for a file
  -- whose time says what is in it, what a read of the file would, however often the file changes,
  -- goes and comes back between the loads. The path is not blank.
  pub loads-new_cache :
      (path : Bytes) (versions : List (Option ℕ))
      → is_empty (trim_space path) ≡ false
      → loads path new_cache versions ≡ map read_lcn versions
  loads-new_cache path versions h = loads-Kept path new_cache versions h new_cache-Kept

-- The cup is hidden where its file goes and comes back with the time that it had: the load while it
-- is away keeps the text that there is no information, and the time of the file, so the next load
-- answers from the cache. The path is not blank, and the file was not in the cache before.
pub load_gg_cup_hidden :
    {F : Type 0} (c : Cache F) (path : Bytes) (mtime : ℕ) (payload : Fields F) (content : Content F)
    → is_empty (trim_space path) ≡ false
    → is_cached c.gg_cup_data c.gg_cup_mtime mtime ≡ false
    → let loaded = load_gg_cup c path (present mtime (decoded (some payload))) in
      let away = load_gg_cup loaded.0 path missing in
      (loaded.1 ≡ some payload)
      × ((load_gg_cup away.0 path (present mtime content)).1 ≡ without_info)
unfolding load_gg_cup
load_gg_cup_hidden c path mtime payload content h stale =
    rw (h, stale, load_gg_cup) (refl, rw (==_refl mtime) refl)
