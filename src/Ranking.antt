-- ===== src/Ranking.antt =====
-- internal/app/ranking/service.go: the caches of the LCN ranking and of the cup.
pub mod FileProvider
pub mod Caching
pub mod Places
mod Examples
use cossacks_game_server.Base.{
  ℕ, Bool, true, false, not, ◌&&◌, ◌||◌, Option, none, some, List, [], ◌∷◌, Bytes, codes,
  if◌then◌else◌, ◌==◌, is_empty, bytes_eq, length,
}
use cossacks_game_server.Base.Int.{ℤ, pos}
use cossacks_game_server.Base.Format.{print_int}
use cossacks_game_server.Base.Json.{
  Json, Values, Fields, Numbers, null, bool, number, string, array, object, no_fields, field,
  get_field, field_or_null, as_object, as_array, fields_of, list_values, print_value,
}
use cossacks_game_server.Base.Strings.{trim_space}
use cossacks_game_server.Base.TextMaps.{put}
use cossacks_game_server.Render.{GgCupView}

-- A decoded body; a nil map is `none`.
abbrev pub Payload : Type 0 → Type 0
Payload F = Option (Fields F)

-- What a read of a file gives: an error, nothing, a text that is no object of JSON, or the object.
pub data Content (F : Type 0) : Type 0 where
  unreadable : Content F
  blank : Content F
  malformed : Content F
  decoded : Payload F → Content F

-- `os.Stat` and `os.ReadFile`: there is no file, or there is one of a time.
pub data File (F : Type 0) : Type 0 where
  missing : File F
  present : (mtime : ℕ) → Content F → File F

abbrev pub Index : Type 0
Index = Option (List (Bytes × ℤ))

pub record Cache (F : Type 0) : Type 0 where
  pub lcn_mtime : ℕ
  pub lcn_data : Payload F
  pub lcn_place_by_id : Index
  pub gg_cup_mtime : ℕ
  pub gg_cup_data : Payload F

module _ {F : Type 0} where
  unfoldable pub new_cache : Cache F
  new_cache = record {
    lcn_mtime = 0;
    lcn_data = none;
    lcn_place_by_id = none;
    gg_cup_mtime = 0;
    gg_cup_data = none;
  }

  -- The rows of `ranking.total`, where the payload has them.
  unfoldable pub total_rows : Payload F → Option (List (Json F))
  unfolding field_or_null as_object as_array
  total_rows none = none
  total_rows (some payload) = elim (as_object (field_or_null (codes "ranking") payload)) [
    | none ↦ none
    | some ranking ↦ elim (as_array (field_or_null (codes "total") ranking)) [
      | none ↦ none
      | some rows ↦ some (list_values rows)
    ]
  ]

  -- `payload != nil && mtime == the file's`.
  abbrev pub is_cached : Payload F → ℕ → ℕ → Bool
  is_cached none cached mtime = false
  is_cached (some _) cached mtime = cached == mtime

module _ {F : Type 0} (numbers : Numbers F) (nested : Json F → Bytes) where
  -- The place of a row: 0 where it is no number.
  unfoldable pub place_of_row : Json F → ℤ
  place_of_row (number f) = numbers.to_int f
  place_of_row null = pos 0
  place_of_row (bool b) = pos 0
  place_of_row (string s) = pos 0
  place_of_row (array vs) = pos 0
  place_of_row (object entries) = pos 0

  -- The loop over the rows, with the reading of a place as an argument.
  unfoldable pub index_rows : (Json F → ℤ) → List (Json F) → List (Bytes × ℤ) → List (Bytes × ℤ)
  unfolding fields_of field_or_null print_value put
  index_rows place [] index = index
  index_rows place (row ∷ rows) index =
      let entries = fields_of row in
      let id = print_value numbers nested (field_or_null (codes "id") entries) in
      let n = place (field_or_null (codes "place") entries) in
      index_rows place rows (if is_empty id then index else put id n index)

  unfoldable pub place_index : Payload F → Index
  unfolding total_rows index_rows place_of_row
  place_index payload = elim (total_rows payload) [
    | none ↦ none
    | some rows ↦ some (index_rows place_of_row rows [])
  ]

  -- `LoadLCN`.
  unfoldable pub load_lcn : Cache F → Bytes → File F → Cache F × Payload F
  unfolding trim_space place_index
  load_lcn c path missing = (c, none)
  load_lcn c path (present mtime content) =
      let fresh : Cache F × Payload F = elim content [
        | unreadable ↦ (c, none)
        | blank ↦ (c, none)
        | malformed ↦ (c, none)
        | decoded payload ↦ (
          record c { lcn_mtime = mtime; lcn_data = payload; lcn_place_by_id = place_index payload },
          payload,
        )
      ] in
      if is_empty (trim_space path)
      then (c, none)
      else if is_cached c.lcn_data c.lcn_mtime mtime
      then (c, c.lcn_data)
      else fresh

module _ {F : Type 0} where
  abbrev pub without_info : Payload F
  without_info = some (field (codes "wo_info") (bool true) no_fields)

  -- `LoadGGCup`.
  unfoldable pub load_gg_cup : Cache F → Bytes → File F → Cache F × Payload F
  unfolding trim_space
  load_gg_cup c path missing =
      if is_empty (trim_space path)
      then (c, none)
      else (record c { gg_cup_data = without_info }, without_info)
  load_gg_cup c path (present mtime content) =
      let kept : Payload F → Cache F × Payload F =
        λ payload. (record c { gg_cup_mtime = mtime; gg_cup_data = payload }, payload) in
      let fresh : Cache F × Payload F = elim content [
        | unreadable ↦ kept without_info
        | blank ↦ kept without_info
        | malformed ↦ kept without_info
        | decoded payload ↦ kept payload
      ] in
      if is_empty (trim_space path)
      then (c, none)
      else if is_cached c.gg_cup_data c.gg_cup_mtime mtime
      then (c, c.gg_cup_data)
      else fresh

module _ {F : Type 0} (numbers : Numbers F) (nested : Json F → Bytes) where
  -- A text that is neither empty, "0" nor "false".
  abbrev is_set : Bytes → Bool
  is_set s = not (is_empty s) && not (bytes_eq s (codes "0")) && not (bytes_eq s (codes "false"))

  unfoldable pub bool_from_any : Json F → Bool
  unfolding print_value trim_space
  bool_from_any (bool b) = b
  bool_from_any (string s) = is_set s
  bool_from_any (number f) = not (numbers.is_zero f)
  bool_from_any null = false
  bool_from_any (array vs) = is_set (trim_space (print_value numbers nested (array vs)))
  bool_from_any (object entries) = is_set (trim_space (print_value numbers nested (object entries)))

  unfoldable pub any_to_string_var : Json F → Bytes
  unfolding print_value trim_space print_int
  any_to_string_var (string s) = s
  any_to_string_var (bool b) = if b then codes "1" else codes "0"
  any_to_string_var (number f) =
      if numbers.is_whole f then print_int (numbers.to_int f) else numbers.to_fixed f
  any_to_string_var null = trim_space (print_value numbers nested null)
  any_to_string_var (array vs) = trim_space (print_value numbers nested (array vs))
  any_to_string_var (object entries) = trim_space (print_value numbers nested (object entries))

  abbrev text_of : Bytes → Fields F → Bytes
  text_of key gg = elim (get_field key gg) [ none ↦ [] | some v ↦ any_to_string_var v ]

  -- `BuildGGCupView`.
  unfoldable pub build_gg_cup_view : Payload F → Option GgCupView
  unfolding get_field field_or_null any_to_string_var bool_from_any
  build_gg_cup_view none = none
  build_gg_cup_view (some gg) = some (record {
    id = text_of (codes "id") gg;
    wo_info = bool_from_any (field_or_null (codes "wo_info") gg);
    started = bool_from_any (field_or_null (codes "started") gg);
    players_count = text_of (codes "players_count") gg;
    players_count_len = length (text_of (codes "players_count") gg);
    prize_fund = text_of (codes "prize_fund") gg;
    prize_fund_len = length (text_of (codes "prize_fund") gg);
  })
