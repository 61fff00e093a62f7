-- ===== src/Gsc/Commands.antt =====
-- internal/app/gsc/commands: the handlers of the commands, and the builders of
-- internal/render that they answer with.
use cossacks_game_server.Base.{
  ℕ, Bool, true, false, Option, none, some, List, [], ◌∷◌, ◌++◌, Bytes, codes, if◌then◌else◌, ◌==◌,
}
use cossacks_game_server.Base.Int.{pos}
use cossacks_game_server.Rooms.{
  Time, Player, Room, Store, load_room, load_player, get_player, get_room,
}
use cossacks_game_server.Lobby.{leave}
use cossacks_game_server.Match.Endgame.{parse_endgame}
use cossacks_game_server.Match.StartPayload.{StartPayload}
use cossacks_game_server.Wire.Command.{CommandSet}
use cossacks_game_server.Gsc.Connectivity.{Session, Connection, Manager, arm_timer, clear_timer}
use cossacks_game_server.Gsc.Gettbl.{gettbl}

pub data HandleError : Type 0 where
  url_no_arg : HandleError
  endgame_bad_args : HandleError
  gettbl_bad_args : HandleError
  start_no_session : HandleError
  start_not_host : HandleError
  stats_bad_args : HandleError
  proxy_bad_args : HandleError
  proxy_unauthorized : HandleError
  stats_unknown_room : ℕ → HandleError
  stats_no_session : HandleError
  stats_not_in_room : HandleError
  unknown_command : Bytes → HandleError
  unknown_open_route : Bytes → HandleError
  route_failed : HandleError

-- port.HandleResult.
pub record HandleResult : Type 0 where
  pub commands : CommandSet
  pub has_response : Bool
  pub error : Option HandleError

abbrev pub silent : HandleResult
silent = record { commands = []; has_response = false; error = none }

abbrev pub refused : HandleError → HandleResult
refused e = record { commands = []; has_response = false; error = some e }

abbrev pub answer : CommandSet → HandleResult
answer commands = record { commands = commands; has_response = true; error = none }

-- What the handlers share: the store, the alive timers and the posts to the account service:
-- the action, and its payload where that is not nil.
pub record Server : Type 0 where
  pub store : Store
  pub manager : Manager
  pub posts : List (Bytes × Option StartPayload)

-- A handler gets the time, the server, the connection, the version of the request and the arguments.
abbrev pub Handler : Type 0
Handler = Time → Server → Connection → ℕ → List Bytes → Server × Connection × HandleResult

-- render.Show, render.Echo and render.Time.
unfoldable pub render_show : Bytes → CommandSet
render_show body = record { name = codes "LW_show"; args = body ∷ [] } ∷ []

unfoldable pub render_echo : List Bytes → CommandSet
render_echo args = record { name = codes "LW_echo"; args = args } ∷ []

unfoldable pub render_time : Bytes → Bytes → CommandSet
render_time delay action = record { name = codes "LW_time"; args = delay ∷ action ∷ [] } ∷ []

unfoldable pub login : Handler
unfolding render_show
login now w conn ver args = (w, conn, answer (render_show (codes ":GW|open&enter.dcml")))

unfoldable pub echo : Handler
unfolding render_echo
echo now w conn ver args = (w, conn, answer (render_echo args))

unfoldable pub url : Handler
unfolding render_time
url now w conn ver [] = (w, conn, refused url_no_arg)
url now w conn ver (arg ∷ args) = (w, conn, answer (render_time (codes "0") (codes "open:" ++ arg)))

-- The player id of the session; 0 where there is no session.
unfoldable pub player_id_of : Connection → ℕ
player_id_of conn = elim conn.session [ none ↦ 0 | some session ↦ session.player_id ]

-- `Leave.Handle`.
unfoldable pub leave_command : Handler
unfolding player_id_of
leave_command now w conn ver args =
    let id = player_id_of conn in
    if id == 0 then (w, conn, silent) else (
      record w { manager = clear_timer w.manager id; store = (leave w.store id now).0 },
      conn,
      silent,
    )

abbrev pub fresh_session : Time → Session
fresh_session now = record {
  account = none;
  player_id = 0;
  nick = [];
  window_w = pos 0;
  window_h = pos 0;
  dev = false;
  room_id = 0;
  alive_at = now;
}

-- `ensureSession`, with the time of the call written to it.
unfoldable pub touch_session : Time → Connection → Connection
touch_session now conn = elim conn.session [
  | none ↦ record conn { session = some (fresh_session now) }
  | some session ↦ record conn { session = some (record session { alive_at = now }) }
]

-- `refreshAlive`.
unfoldable pub refresh_alive : Time → Server → Connection → Server × Connection
unfolding touch_session player_id_of
refresh_alive now w conn =
    let conn' = touch_session now conn in
    let id = player_id_of conn' in
    if id == 0 then (w, conn') else (record w { manager = arm_timer w.manager id now }, conn')

unfoldable pub alive : Handler
unfolding refresh_alive
alive now w conn ver args = let (w', conn') = refresh_alive now w conn in (w', conn', silent)

-- What the pointers of the store lead to.
unfoldable pub player_at : Store → ℕ → Option Player
player_at s id = elim (get_player s id) [ none ↦ none | some p ↦ load_player s p ]

unfoldable pub room_at : Store → ℕ → Option Room
room_at s id = elim (get_room s id) [ none ↦ none | some r ↦ load_room s r ]

-- `Endgame.Handle`: the event is logged only.
unfoldable pub endgame : Handler
unfolding player_id_of player_at room_at
endgame now w conn ver args =
    elim (parse_endgame args (player_id_of conn) (player_at w.store) (room_at w.store)) [
      | none ↦ (w, conn, refused endgame_bad_args)
      | some event ↦ (w, conn, silent)
    ]

-- `GETTBL.Handle`.
unfoldable pub gettbl_command : (show_started_rooms : Bool) → Handler
gettbl_command show now w conn ver args =
    let dev : Bool = elim conn.session [ none ↦ false | some session ↦ session.dev ] in
    elim (gettbl w.store dev show ver args) [
      | none ↦
          (w, conn, record { commands = []; has_response = true; error = some gettbl_bad_args })
      | some commands ↦ (w, conn, answer commands)
    ]
