-- ===== src/Rooms.antt =====
-- internal/adapter/rooms, internal/domain/{lobby,player}: the in-memory store. Its maps hold
-- pointers, and rooms and players are changed in place through them: here a pointer is a number,
-- and two heaps hold what it points to.
pub mod ControlSum
use Prim.Native.Nat.{suc, ◌%◌, ◌^◌}
use cossacks_game_server.Base.{ℕ, ◌+◌, Bool, Option, none, some, List, [], ◌∷◌, Bytes}
use cossacks_game_server.Base.Int.{ℤ}
use cossacks_game_server.Base.Maps.{lookup, insert, erase}

abbrev pub Ref : Type 0
Ref = ℕ

abbrev pub Map : Type 0 → Type 0
Map V = List (ℕ × V)

-- A time is the number of nanoseconds since the epoch, and 0 stands for Go's zero time.
abbrev pub Time : Type 0
Time = ℕ

-- player.Player without its STAT history.
pub record Player : Type 0 where
  pub id : ℕ
  pub nick : Bytes
  pub connected_at : Time
  pub exited_at : Time
  pub account_type : Bytes
  pub account_login : Bytes
  pub account_id : Bytes
  pub account_profile : Bytes
  pub nation : ℕ
  pub theam : ℕ
  pub color : ℕ

-- lobby.Room. A nil player pointer is `none`.
pub record Room : Type 0 where
  pub id : ℕ
  pub title : Bytes
  pub host_id : ℕ
  pub host_addr : Bytes
  pub host_addr_int : ℕ
  pub ver : ℕ
  pub level : ℤ
  pub password : Bytes
  pub max_players : ℤ
  pub players_count : ℤ
  pub players : Map (Option Ref)
  pub players_time : Map Time
  pub started : Bool
  pub started_at : Time
  pub start_players : ℤ
  pub ctl_sum : ℕ
  pub row : List Bytes
  pub ctime : Time
  pub map_name : Bytes
  pub save_from : ℤ
  pub time_tick : ℕ
  pub started_users : List Ref

pub record Store : Type 0 where
  pub last_player_id : ℕ
  pub last_room_id : ℕ
  pub players : Map Ref
  pub rooms_by_id : Map Ref
  pub rooms_by_pid : Map Ref
  pub rooms_by_sum : Map Ref
  pub room_heap : Map Room
  pub player_heap : Map Player
  pub next_ref : Ref

unfoldable pub new_store : Store
new_store = record {
  last_player_id = 0;
  last_room_id = 0;
  players = [];
  rooms_by_id = [];
  rooms_by_pid = [];
  rooms_by_sum = [];
  room_heap = [];
  player_heap = [];
  next_ref = 0;
}

-- `NextPlayerID` and `NextRoomID`: `++` on a uint32.
unfoldable pub next_player_id : Store → Store × ℕ
next_player_id s =
    let id = (s.last_player_id + 1) % 2 ^ 32 in (record s { last_player_id = id }, id)

unfoldable pub next_room_id : Store → Store × ℕ
next_room_id s = let id = (s.last_room_id + 1) % 2 ^ 32 in (record s { last_room_id = id }, id)

-- `GetPlayer`, `FindPlayer` and `PlayerByID` are one lookup.
unfoldable pub get_player : Store → ℕ → Option Ref
get_player s id = lookup id s.players

-- `SetPlayer`, `UpsertPlayer`: under the player's own id.
unfoldable pub set_player : Store → ℕ → Ref → Store
set_player s id p = record s { players = insert id p s.players }

unfoldable pub delete_player : Store → ℕ → Store
delete_player s id = record s { players = erase id s.players }

unfoldable pub get_room : Store → ℕ → Option Ref
get_room s id = lookup id s.rooms_by_id

unfoldable pub get_room_by_host : Store → ℕ → Option Ref
get_room_by_host s pid = lookup pid s.rooms_by_pid

unfoldable pub get_room_by_sum : Store → ℕ → Option Ref
get_room_by_sum s sum = lookup sum s.rooms_by_sum

unfoldable pub index_room_by_id : Store → ℕ → Ref → Store
index_room_by_id s id r = record s { rooms_by_id = insert id r s.rooms_by_id }

unfoldable pub index_room_by_host : Store → ℕ → Ref → Store
index_room_by_host s pid r = record s { rooms_by_pid = insert pid r s.rooms_by_pid }

unfoldable pub index_room_by_sum : Store → ℕ → Ref → Store
index_room_by_sum s sum r = record s { rooms_by_sum = insert sum r s.rooms_by_sum }

unfoldable pub unindex_room_by_id : Store → ℕ → Store
unindex_room_by_id s id = record s { rooms_by_id = erase id s.rooms_by_id }

unfoldable pub unindex_room_by_host : Store → ℕ → Store
unindex_room_by_host s pid = record s { rooms_by_pid = erase pid s.rooms_by_pid }

unfoldable pub unindex_room_by_sum : Store → ℕ → Store
unindex_room_by_sum s sum = record s { rooms_by_sum = erase sum s.rooms_by_sum }

-- What a pointer points to, a write through it, and a new object.
unfoldable pub load_room : Store → Ref → Option Room
load_room s r = lookup r s.room_heap

unfoldable pub store_room : Store → Ref → Room → Store
store_room s r room = record s { room_heap = insert r room s.room_heap }

unfoldable pub new_room : Store → Room → Store × Ref
new_room s room = (
  record s { room_heap = insert s.next_ref room s.room_heap; next_ref = suc s.next_ref },
  s.next_ref,
)

unfoldable pub load_player : Store → Ref → Option Player
load_player s p = lookup p s.player_heap

unfoldable pub store_player : Store → Ref → Player → Store
store_player s p player = record s { player_heap = insert p player s.player_heap }

-- `UpsertPlayer` of a new object, under the player's own id.
unfoldable pub upsert_player : Store → Player → Store
upsert_player s player =
    set_player
      (record s { player_heap = insert s.next_ref player s.player_heap; next_ref = suc s.next_ref })
      player.id s.next_ref
