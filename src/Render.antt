-- ===== src/Render.antt =====
-- internal/render: the views, and the texts that are built without a template.
pub mod Filters
pub mod TimeInterval
pub mod Rooms
pub mod UserDetails
pub mod GgCup
pub mod Templates
mod Examples
pub mod Functions
pub mod Sums
pub mod JoiningOrder
pub mod IntervalText
use cossacks_game_server.Base.{
  ℕ, Bool, true, false, ◌||◌, Option, none, some, List, [], ◌∷◌, Bytes, ◌==◌,
}
use cossacks_game_server.Base.Int.{ℤ, pos}
use cossacks_game_server.Wire.Command.{CommandSet}

-- RoomView; `players` has the nicks of the players under their ids.
pub record RoomView : Type 0 where
  pub id : ℕ
  pub title : Bytes
  pub host_id : ℕ
  pub host_nick : Bytes
  pub host_addr : Bytes
  pub host_addr_int : ℕ
  pub level : ℤ
  pub started : Bool
  pub start_players : ℤ
  pub players_count : ℤ
  pub max_players : ℤ
  pub map_name : Bytes
  pub password : Bytes
  pub backto : Bytes
  pub has_exited : Bool
  pub ctime_formatted : Bytes
  pub time : Bytes
  pub active_players : List Bytes
  pub exited_players : List Bytes
  pub players : List (ℕ × Bytes)

-- StartedPlayerView, without the fields that nothing fills.
pub record StartedPlayerView : Type 0 where
  pub nick : Bytes
  pub color : ℕ
  pub theam : ℕ
  pub nation : ℕ
  pub exited : Bool

-- StartedRoomView; a nil player is `none`.
pub record StartedRoomView : Type 0 where
  pub id : ℕ
  pub title : Bytes
  pub map_name : Bytes
  pub level : ℤ
  pub room_time : Bytes
  pub time_tick_secs : ℕ
  pub small_col_w : ℤ
  pub large_col_w : ℤ
  pub page : Bytes
  pub res : Bytes
  pub players : List (Option StartedPlayerView)

-- GGCupView, without the fields that nothing fills.
pub record GgCupView : Type 0 where
  pub id : Bytes
  pub wo_info : Bool
  pub started : Bool
  pub players_count : Bytes
  pub players_count_len : ℕ
  pub prize_fund : Bytes
  pub prize_fund_len : ℕ

-- View, as far as the routes fill it; an unset field has Go's zero value.
pub record View : Type 0 where
  pub id : Bytes
  pub type : Bytes
  pub logged_in : Bool
  pub nick : Bytes
  pub nickname : Bytes
  pub chat_server : Bytes
  pub server_name : Bytes
  pub header : Bytes
  pub text : Bytes
  pub ok_text : Bytes
  pub error : Bytes
  pub command : Bytes
  pub ver : Bytes
  pub window_size : Bytes
  pub height : ℤ
  pub bottom_height : ℤ
  pub server_title : Bytes
  pub table_timeout : ℤ
  pub dev : Bool
  pub ip : Bytes
  pub port : ℤ
  pub hole_host : Bytes
  pub hole_int : ℤ
  pub hole_port : ℤ
  pub player_id : Bytes
  pub max_pl : ℤ
  pub name : Bytes
  pub room : Option RoomView
  pub started_room : Option StartedRoomView
  pub gg_cup : Option GgCupView

abbrev pub no_view : View
no_view = record {
  id = [];
  type = [];
  logged_in = false;
  nick = [];
  nickname = [];
  chat_server = [];
  server_name = [];
  header = [];
  text = [];
  ok_text = [];
  error = [];
  command = [];
  ver = [];
  window_size = [];
  height = pos 0;
  bottom_height = pos 0;
  server_title = [];
  table_timeout = pos 0;
  dev = false;
  ip = [];
  port = pos 0;
  hole_host = [];
  hole_int = pos 0;
  hole_port = pos 0;
  player_id = [];
  max_pl = pos 0;
  name = [];
  room = none;
  started_room = none;
  gg_cup = none;
}

unfoldable pub is_ac : ℕ → Bool
is_ac ver = ver == 3 || ver == 8 || ver == 10
