-- ===== src/Gsc/OpenRoutes.antt =====
-- internal/app/gsc/dispatch_routes.go and routes/flow_routes.go: the routes of `open` and `go`. The four
-- routes over the ranking, whose cache is no part of `Server`, are arguments.
use cossacks_game_server.Base.{ℕ, Option, none, some, List, [], ◌∷◌, Bytes, codes}
use cossacks_game_server.Base.Int.{ℤ}
use cossacks_game_server.Config.{GameConfig, ServerConfig, Providers}
use cossacks_game_server.Identity.Service.{HttpClient}
use cossacks_game_server.KvMemory.{RuntimeStorage}
use cossacks_game_server.Render.{View}
use cossacks_game_server.Gsc.Commands.{HandleError, route_failed}
use cossacks_game_server.Gsc.Dispatch.{RouteHandler}
use cossacks_game_server.Gsc.Routes.Endpoint.{stored_endpoint}
use cossacks_game_server.Gsc.Routes.Enter.{enter, resize}
use cossacks_game_server.Gsc.Routes.JoinGame.{join_game}
use cossacks_game_server.Gsc.Routes.Pages.{users_list, lcn_registration_dialog}
use cossacks_game_server.Gsc.Routes.RegNewRoom.{reg_new_room}
use cossacks_game_server.Gsc.Routes.RoomPages.{new_room_dialog, room_info, join_player}
use cossacks_game_server.Gsc.Routes.TryEnter.{try_enter}

-- The error of a route is only recorded.
abbrev recorded : {E : Type 0} → Option E → Option HandleError
recorded none = none
recorded (some e) = some route_failed

-- The routes over the ranking.
pub record RankingRoutes : Type 0 where
  pub startup : RouteHandler
  pub user_details : RouteHandler
  pub tournaments : RouteHandler
  pub gg_cup_thanks : RouteHandler

module _ (render : ℕ → (template : Bytes) → View → Bytes) (game : GameConfig)
    (server : ServerConfig) (http : HttpClient) (providers : Providers)
    (unmarshal : Bytes → Option (Bytes × ℤ)) (storage : Option RuntimeStorage)
    (ranking : RankingRoutes) where
  abbrev routes_enter : RouteHandler
  routes_enter now w conn ver params = (w, conn, enter render game server conn ver params, none)

  abbrev routes_try_enter : RouteHandler
  routes_try_enter now w conn ver params =
      let (w', conn', page, e) =
        try_enter render game server http providers now w conn ver params in
      (w', conn', page, recorded e)

  abbrev routes_resize : RouteHandler
  routes_resize now w conn ver params =
      let (conn', page, e) = resize conn params in (w, conn', page, recorded e)

  abbrev routes_new_room_dialog : RouteHandler
  routes_new_room_dialog now w conn ver params =
      let (page, e) = new_room_dialog render game ver params in (w, conn, page, recorded e)

  abbrev routes_reg_new_room : RouteHandler
  routes_reg_new_room now w conn ver params =
      let (w', page, e) = reg_new_room render game server now w conn ver params in
      (w', conn, page, recorded e)

  abbrev routes_join_game : RouteHandler
  routes_join_game now w conn ver params =
      let (w', page, e) =
        join_game render (stored_endpoint unmarshal storage now) now w conn ver params in
      (w', conn, page, recorded e)

  abbrev routes_room_info : RouteHandler
  routes_room_info now w conn ver params =
      let (page, e) = room_info render game now w.store conn ver params in
      (w, conn, page, recorded e)

  abbrev routes_join_player : RouteHandler
  routes_join_player now w conn ver params =
      let (page, e) = join_player render game now w.store conn params in (w, conn, page, recorded e)

  abbrev routes_users_list : RouteHandler
  routes_users_list now w conn ver params =
      let (page, e) = users_list render game ver in (w, conn, page, recorded e)

  abbrev routes_lcn_registration_dialog : RouteHandler
  routes_lcn_registration_dialog now w conn ver params =
      (w, conn, lcn_registration_dialog render game providers ver, none)

  -- `openRoutes`.
  unfoldable pub open_routes : List (Bytes × RouteHandler)
  open_routes =
      (codes "enter", routes_enter)
      ∷ (codes "try_enter", routes_try_enter)
      ∷ (codes "startup", ranking.startup)
      ∷ (codes "games", ranking.startup)
      ∷ (codes "rooms_table_dgl", ranking.startup)
      ∷ (codes "resize", routes_resize)
      ∷ (codes "new_room_dgl", routes_new_room_dialog)
      ∷ (codes "reg_new_room", routes_reg_new_room)
      ∷ (codes "join_game", routes_join_game)
      ∷ (codes "room_info_dgl", routes_room_info)
      ∷ (codes "join_pl_cmd", routes_join_player)
      ∷ (codes "user_details", ranking.user_details)
      ∷ (codes "users_list", routes_users_list)
      ∷ (codes "tournaments", ranking.tournaments)
      ∷ (codes "lcn_registration_dgl", routes_lcn_registration_dialog)
      ∷ (codes "gg_cup_thanks_dgl", ranking.gg_cup_thanks)
      ∷ []
