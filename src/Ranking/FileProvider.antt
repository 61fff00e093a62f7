-- ===== src/Ranking/FileProvider.antt =====
-- internal/adapter/rankingfile/provider.go: the provider of the same data over two files. A nil
-- provider, and a path that is empty, answer nothing.
use cossacks_game_server.Base.{ℕ, Option, none, some, [], Bytes, if◌then◌else◌, is_empty}
use cossacks_game_server.Base.Int.{ℤ, pos}
use cossacks_game_server.Base.Json.{Json, Numbers, null, bool, number, string, array, object}
use cossacks_game_server.Base.Numerals.{atoi}
use cossacks_game_server.Base.TextMaps.{find}
use cossacks_game_server.Ranking.{
  Payload, File, Index, unreadable, blank, malformed, decoded, missing, present, is_cached,
  total_rows, index_rows, without_info,
}

pub record Provider (F : Type 0) : Type 0 where
  pub lcn_path : Bytes
  pub gg_cup_path : Bytes
  pub lcn_mtime : ℕ
  pub lcn_data : Payload F
  pub lcn_place : Index
  pub gg_cup_mtime : ℕ
  pub gg_cup_data : Payload F

module _ {F : Type 0} (numbers : Numbers F) (nested : Json F → Bytes) where
  unfoldable pub new_provider : (lcn_ranking_path gg_cup_path : Bytes) → Provider F
  new_provider lcn_ranking_path gg_cup_path = record {
    lcn_path = lcn_ranking_path;
    gg_cup_path = gg_cup_path;
    lcn_mtime = 0;
    lcn_data = none;
    lcn_place = none;
    gg_cup_mtime = 0;
    gg_cup_data = none;
  }

  -- The place of a row; here a text that is a number counts.
  unfoldable pub provider_place_of_row : Json F → ℤ
  unfolding atoi
  provider_place_of_row (number f) = numbers.to_int f
  provider_place_of_row (string s) = elim (atoi s) [ none ↦ pos 0 | some n ↦ n ]
  provider_place_of_row null = pos 0
  provider_place_of_row (bool b) = pos 0
  provider_place_of_row (array vs) = pos 0
  provider_place_of_row (object entries) = pos 0

  unfoldable pub build_lcn_place_index : Payload F → Index
  unfolding total_rows index_rows provider_place_of_row
  build_lcn_place_index payload = elim (total_rows payload) [
    | none ↦ none
    | some rows ↦ some (index_rows numbers nested provider_place_of_row rows [])
  ]

  unfoldable pub refresh_lcn : Provider F → File F → Provider F
  unfolding build_lcn_place_index
  refresh_lcn p missing = record p { lcn_data = none; lcn_place = none }
  refresh_lcn p (present mtime content) =
      let fresh : Provider F = elim content [
        | unreadable ↦ p
        | blank ↦ p
        | malformed ↦ p
        | decoded payload ↦ record p {
          lcn_mtime = mtime;
          lcn_data = payload;
          lcn_place = build_lcn_place_index payload;
        }
      ] in
      if is_cached p.lcn_data p.lcn_mtime mtime then p else fresh

  unfoldable pub refresh_gg_cup : Provider F → File F → Provider F
  refresh_gg_cup p missing = record p { gg_cup_data = without_info }
  refresh_gg_cup p (present mtime content) =
      let kept : Payload F → Provider F =
        λ payload. record p { gg_cup_mtime = mtime; gg_cup_data = payload } in
      let fresh : Provider F = elim content [
        | unreadable ↦ kept without_info
        | blank ↦ kept without_info
        | malformed ↦ kept without_info
        | decoded payload ↦ kept payload
      ] in
      if is_cached p.gg_cup_data p.gg_cup_mtime mtime then p else fresh

  -- `LCNRanking`.
  unfoldable pub lcn_ranking : Option (Provider F) → File F → Option (Provider F) × Payload F
  unfolding refresh_lcn
  lcn_ranking none file = (none, none)
  lcn_ranking (some p) file =
      let refreshed = refresh_lcn p file in
      if is_empty p.lcn_path then (some p, none) else (some refreshed, refreshed.lcn_data)

  -- `p.lcnPlace[id]`: a missing id, and a nil map, read as 0.
  unfoldable pub place_at : Index → Bytes → ℤ
  unfolding find
  place_at none id = pos 0
  place_at (some index) id = elim (find id index) [ none ↦ pos 0 | some n ↦ n ]

  -- `LCNPlace`.
  unfoldable pub lcn_place : Option (Provider F) → File F → Bytes → Option (Provider F) × ℤ
  unfolding refresh_lcn place_at
  lcn_place none file id = (none, pos 0)
  lcn_place (some p) file id =
      let refreshed = refresh_lcn p file in
      if is_empty p.lcn_path
      then (some p, pos 0)
      else if is_empty id
      then (some p, pos 0)
      else (some refreshed, place_at refreshed.lcn_place id)

  -- `GGCup`.
  unfoldable pub gg_cup : Option (Provider F) → File F → Option (Provider F) × Payload F
  unfolding refresh_gg_cup
  gg_cup none file = (none, none)
  gg_cup (some p) file =
      let refreshed = refresh_gg_cup p file in
      if is_empty p.gg_cup_path then (some p, none) else (some refreshed, refreshed.gg_cup_data)
