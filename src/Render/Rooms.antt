-- ===== src/Render/Rooms.antt =====
-- internal/render/room_view.go: the views of a room. The zombie mark and the statistics of a player,
-- which are kept with the STAT history, are left out.
use Prim.Native.Nat.{◌/◌, ◌%◌, ◌^◌}
use cossacks_game_server.Base.{
  ℕ, ◌-◌, ◌*◌, true, false, not, ◌&&◌, Option, none, some, List, [], ◌∷◌, Bytes, codes,
  if◌then◌else◌, ltb, ◌==◌, is_empty,
}
use cossacks_game_server.Base.Int.{pos}
use cossacks_game_server.Base.Maps.{lookup}
use cossacks_game_server.Rooms.{Map, Player, Ref, Room, Time}
use cossacks_game_server.Render.{RoomView, StartedRoomView, StartedPlayerView}
use cossacks_game_server.Render.TimeInterval.{
  time_interval_from_elapsed_sec, elapsed_secs, format_utc,
}

-- `sort.Slice` by the time of joining; those of one time keep an order, which the runtime chooses.
unfoldable pub insert_by_time : ℕ × Time → Map Time → Map Time
insert_by_time entry [] = entry ∷ []
insert_by_time (id, t) ((id', t') ∷ entries) =
    let deeper = (id', t') ∷ insert_by_time (id, t) entries in
    if ltb t' t then deeper else (id, t) ∷ (id', t') ∷ entries

unfoldable pub sort_by_time : Map Time → Map Time
unfolding insert_by_time
sort_by_time [] = []
sort_by_time (entry ∷ entries) = insert_by_time entry (sort_by_time entries)

module _ (load : Ref → Option Player) where
  -- `room.Players[id]`, and what it points to; `none` for a nil pointer.
  unfoldable pub player_in : Room → ℕ → Option Player
  unfolding lookup
  player_in room id = elim (lookup id room.players) [
    | none ↦ none
    | some none ↦ none
    | some (some p) ↦ load p
  ]

  -- The nicks of those who are there, and of those who left, in the order of joining.
  unfoldable pub names_in : Room → Map Time → List Bytes × List Bytes
  unfolding player_in
  names_in room [] = ([], [])
  names_in room ((id, t) ∷ ordered) =
      let (active, exited) = names_in room ordered in
      elim (player_in room id) [
        | none ↦ (active, exited)
        | some player ↦
            if player.exited_at == 0
            then (player.nick ∷ active, exited)
            else (active, player.nick ∷ exited)
      ]

  unfoldable pub started_player_names : Room → List Bytes × List Bytes
  unfolding names_in sort_by_time
  started_player_names room = names_in room (sort_by_time room.players_time)

  -- The nicks under the ids, without the nil players.
  unfoldable pub nicks_in : Map (Option Ref) → Map Bytes
  nicks_in [] = []
  nicks_in ((id, none) ∷ players) = nicks_in players
  nicks_in ((id, some p) ∷ players) =
      let rest = nicks_in players in
      elim (load p) [ none ↦ rest | some player ↦ (id, player.nick) ∷ rest ]

  unfoldable pub room_time_interval : Time → Room → Bytes
  room_time_interval now room =
      let base =
        if room.started && not (room.started_at == 0) then room.started_at else room.ctime in
      time_interval_from_elapsed_sec (elapsed_secs now base)

  -- `BuildRoomView`.
  unfoldable pub build_room_view : Time → Room → Bytes → RoomView
  unfolding started_player_names nicks_in
  build_room_view now room backto =
      let (active, exited) = started_player_names room in
      let host_nick : Bytes = elim (player_in room room.host_id) [
        | none ↦ []
        | some host ↦ host.nick
      ] in
      record {
        id = room.id;
        title = room.title;
        host_id = room.host_id;
        host_nick = host_nick;
        host_addr = room.host_addr;
        host_addr_int = room.host_addr_int;
        level = room.level;
        started = room.started;
        start_players = room.start_players;
        players_count = room.players_count;
        max_players = room.max_players;
        map_name = room.map_name;
        password = room.password;
        backto = backto;
        has_exited = elim exited [ [] ↦ false | ◌∷◌ _ _ ↦ true ];
        ctime_formatted = format_utc room.ctime;
        time = room_time_interval now room;
        active_players = active;
        exited_players = exited;
        players = nicks_in room.players;
      }

  unfoldable pub started_players : List Ref → List (Option StartedPlayerView)
  started_players [] = []
  started_players (p ∷ users) =
      let view : Option StartedPlayerView = elim (load p) [
        | none ↦ none
        | some player ↦ some (record {
          nick = player.nick;
          color = player.color;
          theam = player.theam;
          nation = player.nation;
          exited = not (player.exited_at == 0);
        })
      ] in
      view ∷ started_players users

  -- `uint32(time.Since(room.StartedAt).Seconds() * 25)` where no STAT has set the tick.
  unfoldable pub room_ticks : Time → Room → ℕ
  room_ticks now room =
      if room.time_tick == 0 && not (room.started_at == 0)
      then (now - room.started_at) * 25 / 1000000000 % 2 ^ 32
      else room.time_tick

  -- `BuildStartedRoomView`.
  unfoldable pub build_started_room_view : Time → Room → (page res : Bytes) → StartedRoomView
  unfolding started_players room_ticks
  build_started_room_view now room page res = record {
    id = room.id;
    title = room.title;
    map_name = room.map_name;
    level = room.level;
    room_time = room_time_interval now room;
    time_tick_secs = room_ticks now room / 25;
    small_col_w = pos 49;
    large_col_w = pos 54;
    page = if is_empty page then codes "1" else page;
    res = res;
    players = started_players room.started_users;
  }
