-- ===== src/Gsc/GameCommands.antt =====
-- internal/app/gsc/commands/start.go and stats.go, and the controller's OnDisconnect and notAlive:
-- what starts, feeds and ends a game.
use cossacks_game_server.Base.{
  ℕ, not, Option, none, some, List, [], ◌∷◌, ◌++◌, Bytes, codes, if◌then◌else◌, ◌==◌,
}
use cossacks_game_server.Base.{get_elem?}
use cossacks_game_server.Base.Maps.{lookup}
use cossacks_game_server.Base.Strings.{trim_right}
use cossacks_game_server.Rooms.{
  Ref, Map, Time, Store, load_room, get_room, get_room_by_host, delete_player,
}
use cossacks_game_server.Lobby.{leave, mark_started}
use cossacks_game_server.Match.IntArg.{int_arg, to_u32}
use cossacks_game_server.Match.StartedUsers.{apply_started_users}
use cossacks_game_server.Match.StartPayload.{StartPayload, build_start_account_payload}
use cossacks_game_server.Gsc.Connectivity.{Connection, Manager, arm_timer, clear_timer, unregister}
use cossacks_game_server.Gsc.Commands.{
  start_no_session, start_not_host, stats_bad_args, stats_unknown_room, stats_no_session,
  stats_not_in_room, HandleResult, silent, refused, Server, Handler, player_id_of, refresh_alive,
  player_at,
}

-- An alive timer for each key of `room.Players`.
unfoldable pub arm_timers : Manager → Map (Option Ref) → Time → Manager
arm_timers m [] now = m
arm_timers m ((id, p) ∷ players) now = arm_timers (arm_timer m id now) players now

-- Argument `i` of `start` without its zero bytes at the end; a missing one is empty.
unfoldable pub start_arg : Option Bytes → Bytes
unfolding trim_right
start_arg none = []
start_arg (some arg) = trim_right (λ c. c == 0) arg

-- `postAccountAction`: only an authenticated session posts.
unfoldable pub post_account_action : Server → Connection → Bytes → Option StartPayload → Server
post_account_action w conn action none = w
post_account_action w conn action (some payload) = elim conn.session [
  | none ↦ w
  | some session ↦ elim session.account [
    | none ↦ w
    | some account ↦ record w { posts = w.posts ++ (action, some payload) ∷ [] }
  ]
]

-- `Start.Handle` behind its two guards, on the room that the host index leads to.
unfoldable pub start_room : Time → Server → Connection → ℕ → Ref → List Bytes → Server
unfolding arm_timers start_arg player_at post_account_action
start_room now w conn id r args =
    let sav = start_arg (get_elem? args 0) in
    let map_name = start_arg (get_elem? args 1) in
    let s1 = mark_started w.store r sav map_name now in
    elim (load_room s1 r) [
      | none ↦ w
      | some room ↦
          let s2 = if id == room.host_id then apply_started_users s1 r args else s1 in
          let payload : Option StartPayload = elim (load_room s2 r) [
            | none ↦ none
            | some room' ↦ build_start_account_payload room' args sav map_name (player_at s2)
          ] in
          post_account_action
            (record w { store = s2; manager = arm_timers w.manager room.players now }) conn
            (codes "start") payload
    ]

-- `Start.Handle`.
unfoldable pub start : Handler
unfolding player_id_of start_room
start now w conn ver args =
    let id = player_id_of conn in
    if id == 0 then (w, conn, refused start_no_session) else elim (get_room_by_host w.store id) [
      | none ↦ (w, conn, refused start_not_host)
      | some r ↦ (start_room now w conn id r args, conn, silent)
    ]

-- `room.Players[userID]`.
unfoldable pub member : Store → Ref → ℕ → Option Ref
member s r id = elim (load_room s r) [
  | none ↦ none
  | some room ↦ elim (lookup id room.players) [ none ↦ none | some p ↦ p ]
]

-- `Stats.Handle` behind the count of the arguments.
unfoldable pub stats_of :
    (Server → Ref → Ref → Bytes → Server)
    → Server
    → Connection
    → (raw id : Bytes) → Server × Connection × HandleResult
unfolding player_id_of member
stats_of update w conn raw id =
    let (room_id, parsed) = int_arg id in
    if not parsed
    then (w, conn, refused stats_bad_args)
    else elim (get_room w.store (to_u32 room_id)) [
      | none ↦ (w, conn, refused (stats_unknown_room (to_u32 room_id)))
      | some r ↦
          if player_id_of conn == 0
          then (w, conn, refused stats_no_session)
          else elim (member w.store r (player_id_of conn)) [
            | none ↦ (w, conn, refused stats_not_in_room)
            | some p ↦ (update w p r raw, conn, silent)
          ]
    ]

unfoldable pub stats_args :
    (Server → Ref → Ref → Bytes → Server)
    → Server
    → Connection
    → List Bytes
    → Server × Connection × HandleResult
unfolding stats_of
stats_args update w conn (raw ∷ id ∷ _) = stats_of update w conn raw id
stats_args update w conn _ = (w, conn, refused stats_bad_args)

-- `Stats.Handle`; the service that applies a sample to a player of a room is an argument, as in
-- the source.
unfoldable pub stats : (Server → Ref → Ref → Bytes → Server) → Handler
unfolding refresh_alive stats_args
stats update now w0 conn0 ver args =
    let (w, conn) = refresh_alive now w0 conn0 in stats_args update w conn args

-- `OnDisconnect`; `leaveRoomByID` clears the timer once more.
unfoldable pub on_disconnect : Time → Server → Connection → Server
unfolding player_id_of
on_disconnect now w conn =
    let id = player_id_of conn in
    if id == 0 then w else record w {
      manager = clear_timer (unregister (clear_timer w.manager id) id) id;
      store = delete_player ((leave w.store id now).0) id;
    }

-- `notAlive`: what an alive timer runs.
unfoldable pub not_alive : Time → Server → ℕ → Server
not_alive now w id = record w {
  manager = unregister (clear_timer w.manager id) id;
  store = (leave w.store id now).0;
}
