-- ===== src/Gsc/Routes/RegNewRoom.antt =====
-- internal/app/gsc/routes/reg_new_room.go: a player opens a room.
pub mod Opening
use cossacks_game_server.Base.{
  ℕ, not, ◌||◌, Option, none, some, [], ◌++◌, Bytes, codes, if◌then◌else◌, ◌==◌, is_empty, bytes_eq,
}
use cossacks_game_server.Base.Int.{ℤ, pos, ◌+ℤ◌, wrap_int}
use cossacks_game_server.Base.Format.{print_uint}
use cossacks_game_server.Base.Numerals.{atoi}
use cossacks_game_server.Base.Result.{Result, ok, err}
use cossacks_game_server.Config.{GameConfig, ServerConfig}
use cossacks_game_server.Lobby.{RegisterNewParams, register_new}
use cossacks_game_server.Lobby.Title.{validate_title, normalize_title, level_label}
use cossacks_game_server.Render.{View, no_view, is_ac}
use cossacks_game_server.Rooms.{Room, Time, get_player, load_room}
use cossacks_game_server.Wire.Command.{CommandSet}
use cossacks_game_server.Gsc.Commands.{Server, player_id_of, render_show}
use cossacks_game_server.Gsc.Connectivity.{Connection, arm_timer}
use cossacks_game_server.Gsc.Params.{Params}
use cossacks_game_server.Gsc.Routes.{param, render_alert, leave_by_player}
use cossacks_game_server.Gsc.Routes.JoinGame.{nick_of_session}

pub data RegNewRoomError : Type 0 where
  already_in_room : ℕ → RegNewRoomError
  session_expired : RegNewRoomError
  illegal_room_title : RegNewRoomError

-- The parameters of the room, from those of the request.
unfoldable pub new_room_params : Connection → ℕ → Params → Option ℕ → RegisterNewParams
new_room_params conn ver params host =
    let max_players : ℤ = elim (atoi (param (codes "VE_MAX_PL") params)) [
      | none ↦ pos 8
      | some v ↦ wrap_int (v +ℤ pos 2)
    ] in
    let level : ℤ = elim (atoi (param (codes "VE_LEVEL") params)) [ none ↦ pos 0 | some v ↦ v ] in
    let password = param (codes "VE_PASSWD") params in
    record {
      host = host;
      host_addr = conn.ip;
      password = password;
      level = level;
      columns = record {
        host_addr_int = conn.int_ip;
        ver = ver;
        title = normalize_title (param (codes "VE_TITLE") params);
        max_players = max_players;
        level_label = level_label level;
        lock_mark = if is_empty password then [] else codes "#";
        nick_str = nick_of_session conn;
        ve_type = param (codes "VE_TYPE") params;
        is_ac = is_ac ver;
      };
    }

module _ (render : ℕ → (template : Bytes) → View → Bytes) (game : GameConfig)
    (server : ServerConfig) where
  -- The early returns: the page, and the error.
  unfoldable pub check_new_room : Connection → ℕ → Params → Result (CommandSet × RegNewRoomError) ℕ
  check_new_room conn ver params =
      let astate = param (codes "ASTATE") params in
      let id = player_id_of conn in
      if is_empty astate || bytes_eq astate (codes "0")
      then err (
        render_alert render ver (codes "Error") (
            codes
              "You can not create or join room!\nYou are already participate in some room\nPlease disconnect from that room first to create a new one"),
        already_in_room id,
      )
      else if id == 0 || is_empty (nick_of_session conn)
      then err (
        render_alert render ver (codes "Error")
            (codes "Your was disconnected from the server. Enter again."),
        session_expired,
      )
      else if not (validate_title (param (codes "VE_TITLE") params))
      then err (
        render_show (
            render ver (codes "confirm_dgl.tmpl") (record no_view {
              header = codes "Error";
              text = codes "Illegal title!\nPress Edit button to check title";
              ok_text = codes "Edit";
              height = pos 180;
              command = codes "GW|open&new_room_dgl.dcml&ASTATE=<%ASTATE>";
            })),
        illegal_room_title,
      )
      else ok id

  -- The server behind the registration: the room that the player was in is left first, and its alive
  -- timer starts anew.
  unfoldable pub open_room : Time → Server → Connection → ℕ → Params → ℕ → Server × ℕ
  open_room now w conn ver params id =
      let w1 = leave_by_player now w id in
      let (s, r) =
        register_new w1.store (new_room_params conn ver params (get_player w1.store id)) now in
      (record w1 { store = s; manager = arm_timer w1.manager id now }, r)

  unfoldable pub new_room_page : ℕ → Params → Connection → ℕ → Room → CommandSet
  new_room_page ver params conn id room =
      let game_id =
        if is_empty (param (codes "VE_TYPE") params)
        then print_uint room.id
        else codes "HB" ++ print_uint room.id in
      render_show (
        render ver (codes "reg_new_room.tmpl") (record no_view {
          player_id = print_uint id;
          hole_port = server.hole_port;
          hole_host = if is_empty server.host_name then conn.ip else server.host_name;
          hole_int = game.hole_interval;
          id = game_id;
          name = room.title;
          max_pl = room.max_players;
        }))

  -- `RegNewRoomImpl`. The title and the size on the page are those of the room.
  unfoldable pub reg_new_room :
      Time → Server → Connection → ℕ → Params → Server × CommandSet × Option RegNewRoomError
  reg_new_room now w conn ver params = elim (check_new_room conn ver params) [
    | err (page, e) ↦ (w, page, some e)
    | ok id ↦
        let (w', r) = open_room now w conn ver params id in
        let page : CommandSet = elim (load_room w'.store r) [
          | none ↦ []
          | some room ↦ new_room_page ver params conn id room
        ] in
        (w', page, none)
  ]
