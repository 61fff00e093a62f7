-- ===== src/Lobby.antt =====
-- internal/app/lobby: the life of a room over the store of internal/adapter/rooms, which the
-- service reaches through `RoomRepoAdapter`. The time of a call is an argument.
pub mod Row
pub mod Sav
pub mod Title
pub mod Invariant
pub mod Leaving
pub mod Steady
pub mod Joining
mod Examples
use Prim.Native.Nat.{suc, ◌-◌}
use cossacks_game_server.Base.{
  ℕ, Bool, true, false, ◌||◌, Option, none, some, List, [], ◌∷◌, ◌++◌, Bytes, codes, if◌then◌else◌,
  ◌==◌,
}
use cossacks_game_server.Base.Int.{ℤ, pos, ◌+ℤ◌, ◌-ℤ◌, leb_ℤ}
use cossacks_game_server.Base.Maps.{lookup, insert, erase}
use cossacks_game_server.Rooms.{
  Ref, Map, Time, Player, Room, Store, next_room_id, new_room, load_room, store_room, load_player,
  store_player, get_room_by_host, index_room_by_id, index_room_by_host, index_room_by_sum,
  unindex_room_by_id, unindex_room_by_host, unindex_room_by_sum,
}
use cossacks_game_server.Rooms.ControlSum.{control_sum}
use cossacks_game_server.Lobby.Row.{set_players_column, RowParams, new_row, start_row}
use cossacks_game_server.Lobby.Sav.{parse_sav}

-- `CreateParams`; the host is nil where it is `none`.
pub record CreateParams : Type 0 where
  pub host : Option Ref
  pub host_addr : Bytes
  pub host_addr_int : ℕ
  pub ver : ℕ
  pub title : Bytes
  pub password : Bytes
  pub max_players : ℤ
  pub level : ℤ
  pub row : List Bytes

-- `RegisterNewParams`.
pub record RegisterNewParams : Type 0 where
  pub host : Option Ref
  pub host_addr : Bytes
  pub password : Bytes
  pub level : ℤ
  pub columns : RowParams

-- `p.Host.ID`, and 0 for a nil host.
unfoldable pub host_id_of : Store → Option Ref → ℕ
host_id_of s none = 0
host_id_of s (some p) = elim (load_player s p) [ none ↦ 0 | some player ↦ player.id ]

-- The room literal of `Create`: its host is inside.
unfoldable pub build_room : ℕ → ℕ → CreateParams → Time → Room
build_room id host_id p now = record {
  id = id;
  title = p.title;
  host_id = host_id;
  host_addr = p.host_addr;
  host_addr_int = p.host_addr_int;
  ver = p.ver;
  level = p.level;
  password = p.password;
  max_players = p.max_players;
  players_count = pos 1;
  players = (host_id, p.host) ∷ [];
  players_time = (host_id, now) ∷ [];
  started = false;
  started_at = 0;
  start_players = pos 0;
  ctl_sum = control_sum p.row;
  row = p.row;
  ctime = now;
  map_name = [];
  save_from = pos 0;
  time_tick = 0;
  started_users = [];
}

-- `Create`: the room is indexed under its id, its host and its sum.
unfoldable pub create : Store → CreateParams → Time → Store × Ref
unfolding host_id_of build_room
create s p now =
    let (s1, id) = next_room_id s in
    let host_id = host_id_of s p.host in
    let room = build_room id host_id p now in
    let (s2, r) = new_room s1 room in
    (index_room_by_sum (index_room_by_host (index_room_by_id s2 id r) host_id r) room.ctl_sum r, r)

-- The parameters of `Create` that `RegisterNew` stands for, with the row of the GSC request.
unfoldable pub create_params : RegisterNewParams → ℕ → CreateParams
create_params p id = record {
  host = p.host;
  host_addr = p.host_addr;
  host_addr_int = p.columns.host_addr_int;
  ver = p.columns.ver;
  title = p.columns.title;
  password = p.password;
  max_players = p.columns.max_players;
  level = p.level;
  row = new_row p.columns id (pos 1);
}

-- `RegisterNew`.
unfoldable pub register_new : Store → RegisterNewParams → Time → Store × Ref
unfolding create create_params
register_new s p now = let (_, id) = next_room_id s in create s (create_params p id) now

-- The room once `p` is in: the count and the column of the row go up.
unfoldable pub admit : Room → ℕ → Ref → Time → Room
admit room pid p now =
    let count = room.players_count +ℤ pos 1 in
    let row = set_players_column room.row count room.max_players in
    record room {
      players = insert pid (some p) room.players;
      players_time = insert pid now room.players_time;
      players_count = count;
      row = row;
      ctl_sum = control_sum row;
    }

-- `Join`; a nil player changes nothing.
unfoldable pub join : Store → Ref → Option Ref → Time → Store
unfolding admit
join s r none now = s
join s r (some p) now = elim (load_room s r) [
  | none ↦ s
  | some room ↦ elim (load_player s p) [
    | none ↦ s
    | some player ↦
        let room' = admit room player.id p now in
        let s1 = store_room (unindex_room_by_sum s room.ctl_sum) r room' in
        index_room_by_sum (index_room_by_host s1 player.id r) room'.ctl_sum r
  ]
]

-- The player of a started room is marked as exited, if the room holds one.
unfoldable pub mark_exited : Store → Option (Option Ref) → Time → Store
mark_exited s (some (some p)) now = elim (load_player s p) [
  | none ↦ s
  | some player ↦ store_player s p (record player { exited_at = now })
]
mark_exited s _ now = s

-- The room once `pid` has left: a started room keeps its list and its row.
unfoldable pub dismiss : Room → ℕ → Room
dismiss room pid =
    let count = room.players_count -ℤ pos 1 in
    let row = set_players_column room.row count room.max_players in
    if room.started
    then record room { players_count = count; ctl_sum = control_sum room.row }
    else record room {
      players_count = count;
      players = erase pid room.players;
      players_time = erase pid room.players_time;
      row = row;
      ctl_sum = control_sum row;
    }

-- Whether the room goes with the player: its last one, or the host before the start.
unfoldable pub should_delete : Room → ℕ → Bool
should_delete room pid =
    if room.started
    then leb_ℤ room.players_count (pos 0)
    else room.host_id == pid || leb_ℤ room.players_count (pos 0)

unfoldable pub leave_room : Store → ℕ → Ref → Room → Time → Store × Bool
unfolding dismiss should_delete mark_exited
leave_room s pid r room now =
    let room' = dismiss room pid in
    let s1 = unindex_room_by_host s pid in
    let s2 = if room.started then mark_exited s1 (lookup pid room.players) now else s1 in
    let s3 = store_room (unindex_room_by_sum s2 room.ctl_sum) r room' in
    if should_delete room' pid
    then (unindex_room_by_sum (unindex_room_by_id s3 room.id) room'.ctl_sum, true)
    else (index_room_by_sum s3 room'.ctl_sum r, false)

-- `Leave`: the store, the room that the player was in, and whether it was deleted.
unfoldable pub leave : Store → ℕ → Time → Store × Option Ref × Bool
unfolding leave_room
leave s pid now = elim (get_room_by_host s pid) [
  | none ↦ (s, none, false)
  | some r ↦ elim (load_room s r) [
    | none ↦ (s, none, false)
    | some room ↦ let (s', deleted) = leave_room s pid r room now in (s', some r, deleted)
  ]
]

-- The room once its game runs.
unfoldable pub launch : Room → Bytes → Bytes → Time → Room
launch room sav map_name now =
    let row = start_row room.row in
    record room {
      started = true;
      started_at = now;
      start_players = room.players_count;
      map_name = map_name;
      save_from = parse_sav sav;
      row = row;
      ctl_sum = control_sum row;
    }

-- `MarkStarted`.
unfoldable pub mark_started : Store → Ref → Bytes → Bytes → Time → Store
unfolding launch
mark_started s r sav map_name now = elim (load_room s r) [
  | none ↦ s
  | some room ↦
      let room' = launch room sav map_name now in
      index_room_by_sum (store_room (unindex_room_by_sum s room.ctl_sum) r room') room'.ctl_sum r
]
