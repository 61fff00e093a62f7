-- ===== src/Gsc/Routes/JoinGame.antt =====
-- internal/app/gsc/routes/join_game.go: a player asks to join a room.
pub mod Admitting
pub mod OwnRoom
use cossacks_game_server.Base.{
  ℕ, ◌+◌, Bool, true, false, not, ◌&&◌, ◌||◌, Option, none, some, List, [], ◌∷◌, Bytes, codes,
  if◌then◌else◌, ◌==◌, is_empty, bytes_eq, ◌≡◌, refl, arith, ◌⊎◌, inl, inr,
}
use cossacks_game_server.Base.Int.{ℤ, pos, leb_ℤ}
use cossacks_game_server.Base.Format.{print_uint}
use cossacks_game_server.Base.Result.{Result, ok, err, ◌>>=◌}
use cossacks_game_server.Base.Strings.{trim_space}
use cossacks_game_server.Lobby.{join}
use cossacks_game_server.Rooms.{Ref, Room, Time, get_room, get_player, load_room}
use cossacks_game_server.Wire.Command.{CommandSet}
use cossacks_game_server.Render.{View, no_view}
use cossacks_game_server.Gsc.Commands.{Server, player_id_of, render_show}
use cossacks_game_server.Gsc.Connectivity.{Connection}
use cossacks_game_server.Gsc.Params.{Params}
use cossacks_game_server.Base.Numerals.{parse_uint32}
use cossacks_game_server.Gsc.Routes.{render_alert, param, leave_by_player}

pub data JoinGameError : Type 0 where
  already_in_room : ℕ → JoinGameError
  session_expired : JoinGameError
  invalid_room_id : Bytes → JoinGameError
  room_not_found : ℕ → JoinGameError
  room_started : ℕ → JoinGameError
  room_full : ℕ → JoinGameError
  bad_room_password : ℕ → JoinGameError

-- The nick of the session; empty where there is no session.
unfoldable pub nick_of_session : Connection → Bytes
nick_of_session conn = elim conn.session [ none ↦ [] | some session ↦ session.nick ]

module _ (render : ℕ → (template : Bytes) → View → Bytes) where
  unfoldable pub alert : ℕ → (text : Bytes) → CommandSet
  unfolding render_alert
  alert ver text = render_alert render ver (codes "Error") text

  -- The early returns that need no room: the page, and the error.
  unfoldable pub check_session : Connection → ℕ → Params → Result (CommandSet × JoinGameError) ℕ
  unfolding alert param player_id_of nick_of_session trim_space parse_uint32 render_show
  check_session conn ver params =
      let astate = param (codes "ASTATE") params in
      let rid = parse_uint32 (trim_space (param (codes "VE_RID") params)) in
      if is_empty astate || bytes_eq astate (codes "0")
      then err (
        alert ver (
            codes
              "You can not create or join room!\nYou are already participate in some room\nPlease disconnect from that room first to create a new one"),
        already_in_room (player_id_of conn),
      )
      else if player_id_of conn == 0 || is_empty (trim_space (nick_of_session conn))
      then err
          (alert ver (codes "Your was disconnected from the server. Enter again."), session_expired)
      else elim rid [
        | none ↦ err (
          render_show (codes "<NGDLG>\n<NGDLG>"),
          invalid_room_id (param (codes "VE_RID") params),
        )
        | some id ↦ ok id
      ]

  -- The early returns on the room that was found.
  unfoldable pub check_room : Room → Params → Result (CommandSet × JoinGameError) Room
  unfolding alert param render_show print_uint
  check_room room params =
      if room.started
      then err (
        alert room.ver (codes "You can not join this room!\nThe game has already started"),
        room_started room.id,
      )
      else if leb_ℤ room.max_players room.players_count
      then err (
        alert room.ver (codes "You can not join this room!\nThe room is full"),
        room_full room.id,
      )
      else if not (is_empty room.password)
          && not (bytes_eq (param (codes "VE_PASSWD") params) room.password)
      then err (
        render_show (
            render room.ver (codes "confirm_password_dgl.tmpl")
              (record no_view { id = print_uint room.id })),
        bad_room_password room.id,
      )
      else ok room

  -- The pointer of the room, and the room.
  unfoldable pub find_room :
      Server → ℕ → (id : ℕ) → Result (CommandSet × JoinGameError) (Ref × Room)
  unfolding alert
  find_room w ver id =
      let missing : CommandSet × JoinGameError =
        (alert ver (codes "You can not join this room!\nThe room is closed"), room_not_found id) in
      elim (get_room w.store id) [
        | none ↦ err missing
        | some r ↦ elim (load_room w.store r) [ none ↦ err missing | some room ↦ ok (r, room) ]
      ]

  unfoldable pub admission :
      Server → Connection → ℕ → Params → Result (CommandSet × JoinGameError) (Ref × Room)
  admission w conn ver params = do
    id ← check_session conn ver params
    (r, room) ← find_room w ver id
    checked ← check_room room params
    ok (r, checked)

  -- The endpoint of a host that the key-value storage holds, if any; otherwise the room's address.
  unfoldable pub join_page : (ℕ → Option (Bytes × ℤ)) → Room → CommandSet
  unfolding render_show print_uint
  join_page endpoint room =
      let (ip, port) : Bytes × ℤ = elim (endpoint room.host_id) [
        | none ↦ (room.host_addr, pos 0)
        | some remote ↦ remote
      ] in
      render_show (
        render room.ver (codes "join_room.tmpl") (record no_view {
          id = print_uint room.id;
          max_pl = room.max_players;
          name = room.title;
          ip = ip;
          port = port;
        }))

  -- `JoinGameImpl`: the player leaves the room that it is in, and joins. The page is of the room
  -- after the join.
  unfoldable pub join_game :
      (ℕ → Option (Bytes × ℤ))
      → Time
      → Server
      → Connection
      → ℕ
      → Params
      → Server × CommandSet × Option JoinGameError
  unfolding admission leave_by_player join_page player_id_of
  join_game endpoint now w conn ver params = elim (admission w conn ver params) [
    | err (page, e) ↦ (w, page, some e)
    | ok (r, room) ↦
        let id = player_id_of conn in
        let w1 = leave_by_player now w id in
        let s = join w1.store r (get_player w1.store id) now in
        let page : CommandSet = elim (load_room s r) [
          | none ↦ []
          | some joined ↦ join_page endpoint joined
        ] in
        (record w1 { store = s }, page, none)
  ]
