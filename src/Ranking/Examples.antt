-- ===== src/Ranking/Examples.antt =====
-- Rankings at concrete inputs; the numbers are natural numbers.
use cossacks_game_server.Base.{
  ℕ, true, false, none, some, [], ◌∷◌, Bytes, codes, ◌==◌, is_empty, map, ◌≡◌, refl, arith, All,
  if◌then◌else◌, List,
}
use cossacks_game_server.Base.Int.{pos, ℤ}
use cossacks_game_server.Base.Format.{print_uint}
use cossacks_game_server.Base.Json.{
  Json, Numbers, Fields, number, string, array, object, value, no_values, field, no_fields,
  field_or_null, fields_of,
}
use cossacks_game_server.Base.Strings.{trim_space}
use cossacks_game_server.Ranking.{
  Content, present, missing, unreadable, decoded, new_cache, load_gg_cup, place_index, total_rows,
  without_info, is_cached,
}
use cossacks_game_server.Base.TextMaps.{find}
use cossacks_game_server.Ranking.FileProvider.{build_lcn_place_index}
use cossacks_game_server.Ranking.Caching.{loads, read_lcn, loads-new_cache, load_gg_cup_hidden}
use cossacks_game_server.Ranking.Places.{
  Ranked, last_place, Untexted, rows_of, build_lcn_place_index_lem,
}

abbrev naturals : Numbers ℕ
naturals = record {
  to_int = pos;
  to_text = print_uint;
  is_whole = λ n. true;
  is_zero = λ n. n == 0;
  to_fixed = print_uint;
  parse = λ s. none;
}

abbrev unprinted : Json ℕ → Bytes
unprinted v = []

abbrev ranking : Fields ℕ
ranking =
    field (codes "ranking")
      (object (
        field (codes "total")
          (array (
            value
              (object (
                field (codes "id") (string (codes "77"))
                  (field (codes "place") (number 3) no_fields)))
              no_values))
          no_fields))
      no_fields

abbrev content : ℕ → Content ℕ
content mtime = if mtime == 5 then decoded (some ranking) else unreadable

abbrev path : Bytes
path = codes "r.json"

path_is_set : is_empty (trim_space path) ≡ false
unfolding trim_space
path_is_set = refl

indexed : place_index naturals unprinted (some ranking) ≡ some ((codes "77", pos 3) ∷ [])
unfolding place_index
indexed = refl

loads-new_cache_example :
    loads naturals unprinted content path new_cache (some 5 ∷ none ∷ some 5 ∷ some 6 ∷ [])
    ≡ map (read_lcn naturals unprinted content) (some 5 ∷ none ∷ some 5 ∷ some 6 ∷ [])
loads-new_cache_example =
    loads-new_cache naturals unprinted content path (some 5 ∷ none ∷ some 5 ∷ some 6 ∷ [])
      path_is_set

cup_is_new : is_cached (new_cache {F = ℕ}).gg_cup_data (new_cache {F = ℕ}).gg_cup_mtime 5 ≡ false
unfolding new_cache
cup_is_new = refl

load_gg_cup_hidden_example :
    let loaded = load_gg_cup new_cache path (present 5 (decoded (some ranking))) in
    let away = load_gg_cup loaded.0 path missing in
    (loaded.1 ≡ some ranking)
    × ((load_gg_cup away.0 path (present 5 (decoded (some ranking)))).1 ≡ without_info)
load_gg_cup_hidden_example =
    load_gg_cup_hidden new_cache path 5 ranking (decoded (some ranking)) path_is_set cup_is_new

untexted : All (Untexted naturals unprinted) (rows_of naturals unprinted (some ranking))
unfolding total_rows field_or_null fields_of
untexted = (λ s h. ground arith, tt)

build_lcn_place_index_lem_example :
    (build_lcn_place_index naturals unprinted (some ranking)
      ≡ place_index naturals unprinted (some ranking))
    × ((index : List (Bytes × ℤ))
        → place_index naturals unprinted (some ranking) ≡ some index
        → (rows : List (Json ℕ)) × Ranked naturals unprinted (some ranking) rows)
    × ((rows : List (Json ℕ))
        → Ranked naturals unprinted (some ranking) rows
        → (index : List (Bytes × ℤ)) × (place_index naturals unprinted (some ranking) ≡ some index)
          × ((key : Bytes) → find key index ≡ last_place naturals unprinted key rows))
build_lcn_place_index_lem_example =
    build_lcn_place_index_lem naturals unprinted (some ranking) untexted

-- A text counts in the provider, and not in the cache.
abbrev texted : Fields ℕ
texted =
    field (codes "ranking")
      (object (
        field (codes "total")
          (array (
            value
              (object (
                field (codes "id") (string (codes "77"))
                  (field (codes "place") (string (codes "3")) no_fields)))
              no_values))
          no_fields))
      no_fields

texts_differ :
    (build_lcn_place_index naturals unprinted (some texted) ≡ some ((codes "77", pos 3) ∷ []))
    × (place_index naturals unprinted (some texted) ≡ some ((codes "77", pos 0) ∷ []))
unfolding build_lcn_place_index place_index
texts_differ = (refl, refl)
