-- ===== src/Gsc/Routes/Pages.antt =====
-- internal/app/gsc/routes: startup.go, users_list.go, lcn_registration.go, tournaments.go,
-- gg_cup_thanks.go and user_details.go, over the ranking of internal/app/ranking. The path of each file
-- is a setting, and what stands in the file is an argument.
use cossacks_game_server.Base.{
  ℕ, Bool, false, not, ◌&&◌, Option, none, some, List, [], ◌∷◌, ◌++◌, Bytes, codes, if◌then◌else◌,
  is_empty, bytes_eq, take, map,
}
use cossacks_game_server.Base.Int.{pos}
use cossacks_game_server.Base.Format.{print_uint}
use cossacks_game_server.Base.Json.{
  Json, Fields, Numbers, null, bool, number, string, array, object, field_or_null, as_object,
  as_array, fields_of, list_values, print_value,
}
use cossacks_game_server.Base.Strings.{trim_space, join, to_lower}
use cossacks_game_server.Config.{GameConfig, Providers, provider}
use cossacks_game_server.Match.IntArg.{int_arg, to_u32}
use cossacks_game_server.Ranking.{Cache, File, Payload, load_lcn, load_gg_cup, build_gg_cup_view}
use cossacks_game_server.Render.{View, no_view}
use cossacks_game_server.Render.GgCup.{gg_cup_thanks_body}
use cossacks_game_server.Render.TimeInterval.{time_interval_from_elapsed_sec, elapsed_secs}
use cossacks_game_server.Render.UserDetails.{UserDetailsRoom, user_details_body}
use cossacks_game_server.Rooms.{Store, Time}
use cossacks_game_server.Wire.Command.{CommandSet}
use cossacks_game_server.Gsc.Commands.{render_show, player_at}
use cossacks_game_server.Gsc.Connectivity.{Connection}
use cossacks_game_server.Gsc.Params.{Params}
use cossacks_game_server.Gsc.Routes.{param, render_alert}
use cossacks_game_server.Gsc.Routes.Enter.{window_size}
use cossacks_game_server.Gsc.Routes.RoomPages.{dev_of, find_by_host}

pub data PageError : Type 0 where
  users_list_unimplemented : PageError
  lcn_ranking_unavailable : PageError
  gg_cup_unavailable : PageError
  invalid_player_arg : Bytes → PageError
  player_not_found : ℕ → PageError

-- `parsePlayerIDArg`.
unfoldable pub parse_player_id_arg : Bytes → Option ℕ
parse_player_id_arg v = let (n, good) = int_arg v in if good then some (to_u32 n) else none

module _ (render : ℕ → (template : Bytes) → View → Bytes) (game : GameConfig) where
  -- `UsersList`.
  unfoldable pub users_list : ℕ → CommandSet × Option PageError
  users_list ver = (
    render_alert render ver (codes "Error") (codes "Not implemented"),
    some users_list_unimplemented,
  )

  -- `LCNRegistrationDialog`.
  unfoldable pub lcn_registration_dialog : Providers → ℕ → CommandSet
  lcn_registration_dialog providers ver = render_show (
      render ver (codes "confirm_dgl.tmpl") (record no_view {
        header = codes "LCN Registration";
        text = codes "Open www.newlcn.com?";
        ok_text = codes "Ok";
        height = pos 100;
        command =
            codes "GW|url&http://"
            ++ (provider providers (codes "LCN")).host
            ++ codes "/lang_redir.php&from=tournaments";
      }))

  module _ {F : Type 0} (numbers : Numbers F) (nested : Json F → Bytes) where
    -- `Startup`.
    unfoldable pub startup : Cache F → File F → Connection → ℕ → Cache F × CommandSet
    startup cache file conn ver =
        let (cache', gg) = load_gg_cup cache game.gg_cup_file file in
        (
          cache',
          render_show (
              render ver (codes "startup.tmpl") (record no_view {
                window_size = window_size conn;
                chat_server = game.chat_server;
                server_title = game.server_title;
                table_timeout = game.table_timeout;
                ver = print_uint ver;
                bottom_height = pos 32;
                gg_cup = build_gg_cup_view numbers nested gg;
              })),
        )

    -- `rankingByOption[option].([]any)`; a nil slice where it is none.
    unfoldable pub rows_under : Fields F → Bytes → List (Json F)
    rows_under ranking option = elim (as_array (field_or_null option ranking)) [
      | none ↦ []
      | some rows ↦ list_values rows
    ]

    -- The rows of the option, or those of the total.
    unfoldable pub option_rows : Fields F → Bytes → List (Json F)
    option_rows ranking option =
        let total = rows_under ranking (codes "total") in
        elim (rows_under ranking option) [
          | [] ↦ if bytes_eq option (codes "total") then [] else total
          | ◌∷◌ row rows ↦ row ∷ rows
        ]

    unfoldable pub rating_line : Json F → Bytes
    rating_line row =
        let entries = fields_of row in
        print_value numbers nested (field_or_null (codes "place") entries)
        ++ codes ". "
        ++ print_value numbers nested (field_or_null (codes "nick") entries)
        ++ codes " ("
        ++ print_value numbers nested (field_or_null (codes "score") entries)
        ++ codes ")"

    -- `Tournaments`.
    unfoldable pub tournaments :
        Cache F → File F → ℕ → Params → Cache F × CommandSet × Option PageError
    tournaments cache file ver params =
        let asked = trim_space (param (codes "option") params) in
        let option = if is_empty asked then codes "total" else asked in
        let (cache', rating) = load_lcn numbers nested cache game.lcn_ranking file in
        elim rating [
          | none ↦ (
            cache',
            render_alert render ver (codes "Error") (codes "Internal server error"),
            some lcn_ranking_unavailable,
          )
          | some entries ↦
              let rows = option_rows (fields_of (field_or_null (codes "ranking") entries)) option in
              let lines = (codes "LCN Rating: " ++ option) ∷ map rating_line (take 10 rows) in
              (cache', render_alert render ver (codes "Tournaments") (join b'\n' lines), none)
        ]

    -- `ggCupBool`.
    unfoldable pub gg_cup_bool : Json F → Bool
    gg_cup_bool (bool b) = b
    gg_cup_bool (string s) =
        not (is_empty s)
        && not (bytes_eq s (codes "0"))
        && not (bytes_eq (to_lower s) (codes "false"))
    gg_cup_bool null = false
    gg_cup_bool (number f) = false
    gg_cup_bool (array vs) = false
    gg_cup_bool (object entries) = false

    -- The supporters that are objects.
    unfoldable pub objects_of : List (Json F) → List (Fields F)
    objects_of [] = []
    objects_of (v ∷ vs) =
        let rest = objects_of vs in elim (as_object v) [ none ↦ rest | some s ↦ s ∷ rest ]

    -- `GGCupThanks` behind the cache.
    unfoldable pub thanks_page : ℕ → Payload F → CommandSet × Option PageError
    thanks_page ver gg =
        let nothing : CommandSet × Option PageError = (
          render_alert render ver (codes "Thanks for") (codes "No info yet"),
          some gg_cup_unavailable,
        ) in
        elim gg [
          | none ↦ nothing
          | some entries ↦
              let shown : CommandSet × Option PageError =
                elim (objects_of (rows_under entries (codes "supporters"))) [
                  | [] ↦ nothing
                  | ◌∷◌ s supporters ↦
                      (render_show (gg_cup_thanks_body numbers nested (s ∷ supporters)), none)
                ] in
              if gg_cup_bool (field_or_null (codes "wo_info") entries) then nothing else shown
        ]

    -- `GGCupThanks`.
    unfoldable pub gg_cup_thanks : Cache F → File F → ℕ → Cache F × CommandSet × Option PageError
    gg_cup_thanks cache file ver =
        let (cache', gg) = load_gg_cup cache game.gg_cup_file file in
        let (page, e) = thanks_page ver gg in (cache', page, e)

    -- `UserDetails`.
    unfoldable pub user_details :
        Time
        → Store
        → Cache F
        → File F
        → Connection
        → Params
        → Cache F × CommandSet × Option PageError
    user_details now s cache file conn params =
        let (cache', _) = load_lcn numbers nested cache game.lcn_ranking file in
        let raw = param (codes "ID") params in
        elim (parse_player_id_arg raw) [
          | none ↦ (cache', [], some (invalid_player_arg raw))
          | some id ↦ elim (player_at s id) [
            | none ↦ (cache', [], some (player_not_found id))
            | some player ↦
                let room : Option UserDetailsRoom = elim (find_by_host s player.id) [
                  | none ↦ none
                  | some room ↦ some (record { id = room.id; title = room.title })
                ] in
                let ago = time_interval_from_elapsed_sec (elapsed_secs now player.connected_at) in
                (
                  cache',
                  render_show
                      (user_details_body (dev_of conn) player room cache'.lcn_place_by_id ago),
                  none,
                )
          ]
        ]
