-- ===== src/Gsc/Routes/RoomPages.antt =====
-- internal/app/gsc/routes/new_room_dialog.go, room_info.go and join_player.go. `load` gives what the
-- pointer of a player points to.
use Prim.Native.Nat.{◌^◌}
use cossacks_game_server.Base.{
  ℕ, Bool, false, not, ◌&&◌, ◌||◌, Option, none, some, [], ◌∷◌, ◌++◌, Bytes, codes, if◌then◌else◌,
  ◌==◌, ltb, is_empty, bytes_eq,
}
use cossacks_game_server.Base.Format.{print_uint}
use cossacks_game_server.Base.Numerals.{parse_uint32, all_digits, digits_value}
use cossacks_game_server.Base.Strings.{trim_space}
use cossacks_game_server.Config.{GameConfig}
use cossacks_game_server.Render.{View, no_view}
use cossacks_game_server.Render.Rooms.{build_room_view, build_started_room_view}
use cossacks_game_server.Rooms.{Room, Store, Time, load_room, load_player, get_room_by_host}
use cossacks_game_server.Wire.Command.{CommandSet}
use cossacks_game_server.Gsc.Commands.{player_id_of, render_show, room_at}
use cossacks_game_server.Gsc.Connectivity.{Connection}
use cossacks_game_server.Gsc.Params.{Params}
use cossacks_game_server.Gsc.Routes.{param, render_alert}

pub data RoomPageError : Type 0 where
  already_in_room : RoomPageError
  invalid_room_id : Bytes → RoomPageError
  room_not_found : ℕ → RoomPageError
  invalid_player_arg : Bytes → RoomPageError
  no_room_of_player : ℕ → RoomPageError
  room_started : ℕ → RoomPageError

-- Whether `strconv.ParseUint(s, 10, 64)` takes the text.
abbrev is_uint64 : Bytes → Bool
is_uint64 s = not (is_empty s) && all_digits s && ltb (digits_value 0 s) (2 ^ 64)

-- `normalizePageRoutes`.
unfoldable pub normalize_page : Bytes → Bytes
normalize_page v =
    let s = trim_space v in
    if is_empty s
    then codes "1"
    else if not (is_uint64 s)
    then codes "1"
    else if not (bytes_eq s (codes "1"))
        && not (bytes_eq s (codes "2"))
        && not (bytes_eq s (codes "3"))
    then codes "1"
    else s

-- `normalizeResRoutes`.
unfoldable pub normalize_res : Bytes → Bytes
normalize_res v =
    let s = trim_space v in
    if is_empty s then codes "0" else if not (is_uint64 s) then codes "0" else s

-- `FindByHost`.
unfoldable pub find_by_host : Store → ℕ → Option Room
find_by_host s id = elim (get_room_by_host s id) [ none ↦ none | some r ↦ load_room s r ]

abbrev pub dev_of : Connection → Bool
dev_of conn = elim conn.session [ none ↦ false | some session ↦ session.dev ]

-- Where a page leads back to.
unfoldable pub backto : Connection → Params → Bytes
backto conn params =
    let id = player_id_of conn in
    if bytes_eq (param (codes "BACKTO") params) (codes "user_details") && not (id == 0)
    then codes "open&user_details.dcml&ID=" ++ print_uint id
    else []

module _ (render : ℕ → (template : Bytes) → View → Bytes) (game : GameConfig) where
  -- `NewRoomDialog`.
  unfoldable pub new_room_dialog : ℕ → Params → CommandSet × Option RoomPageError
  new_room_dialog ver params =
      let astate = param (codes "ASTATE") params in
      if is_empty astate || bytes_eq astate (codes "0")
      then (
        render_alert render ver (codes "Error") (
            codes
              "You can not create or join room!\nYou are already participate in some room\nPlease disconnect from that room first to create a new one"),
        some already_in_room,
      )
      else (render_show (render ver (codes "new_room_dgl.tmpl") no_view), none)

  -- The page of a room that is there.
  unfoldable pub room_page : Time → Store → Connection → Room → Params → CommandSet
  room_page now s conn room params =
      let dev = dev_of conn in
      let base : View = record no_view {
        dev = dev;
        room = some (build_room_view (load_player s) now room (backto conn params));
      } in
      let started : View = record base {
        started_room = some (
            build_started_room_view (load_player s) now room
              (normalize_page (param (codes "page") params))
              (normalize_res (param (codes "res") params)));
      } in
      let template =
        if bytes_eq (param (codes "part") params) (codes "statcols")
        then codes "started_room_info/statcols.tmpl"
        else codes "started_room_info.tmpl" in
      if room.started && (dev || game.show_started_room_info)
      then render_show (render room.ver template started)
      else render_show (render room.ver (codes "room_info_dgl.tmpl") base)

  -- `RoomInfoImpl`.
  unfoldable pub room_info :
      Time → Store → Connection → ℕ → Params → CommandSet × Option RoomPageError
  room_info now s conn ver params =
      let raw = param (codes "VE_RID") params in
      elim (parse_uint32 raw) [
        | none ↦ (render_show (codes "<NGDLG>\n<NGDLG>"), some (invalid_room_id raw))
        | some id ↦ elim (room_at s id) [
          | none ↦ (
            render_alert render ver (codes "Error") (codes "The room is closed"),
            some (room_not_found id),
          )
          | some room ↦ (room_page now s conn room params, none)
        ]
      ]

  -- `JoinPlayerImpl`, behind the test that the caller hosts no room.
  unfoldable pub player_room :
      Time → Store → Connection → Params → CommandSet × Option RoomPageError
  player_room now s conn params =
      let raw = trim_space (param (codes "VE_PLAYER") params) in
      elim (parse_uint32 raw) [
        | none ↦ ([], some (invalid_player_arg raw))
        | some id ↦ elim (find_by_host s id) [
          | none ↦ ([], some (no_room_of_player id))
          | some room ↦
              if room.started
              then (
                render_alert render room.ver (codes "Error") (codes "Game alredy started"),
                some (room_started room.id),
              )
              else room_info now s conn room.ver ((codes "VE_RID", print_uint room.id) ∷ [])
        ]
      ]

  -- `JoinPlayerImpl`.
  unfoldable pub join_player :
      Time → Store → Connection → Params → CommandSet × Option RoomPageError
  join_player now s conn params =
      let id = player_id_of conn in
      let own : Option Room = if id == 0 then none else find_by_host s id in
      let rest = player_room now s conn params in elim own [ some _ ↦ ([], none) | none ↦ rest ]
