-- ===== src/Gsc/Routes/Examples.antt =====
-- The route `join_game` at concrete inputs: a host and the room of its own.
use cossacks_game_server.Base.{
  ℕ, true, false, none, some, [], ◌∷◌, Bytes, codes, ◌≡◌, ◌≢◌, ◌⊎◌, refl,
}
use cossacks_game_server.Base.Int.{pos}
use cossacks_game_server.Base.Maps.{lookup, insert}
use cossacks_game_server.Base.Result.{ok}
use cossacks_game_server.Base.Strings.{trim_space}
use cossacks_game_server.Lobby.{join, leave, dismiss, should_delete}
use cossacks_game_server.Rooms.{
  Ref, Room, Player, Store, new_store, new_room, index_room_by_id, index_room_by_host,
  index_room_by_sum, set_player, store_player, load_room, load_player, get_room, get_room_by_host,
  get_player,
}
use cossacks_game_server.Gsc.Connectivity.{Connection, new_manager}
use cossacks_game_server.Gsc.Commands.{Server, player_id_of}
use cossacks_game_server.Gsc.Params.{Params}
use cossacks_game_server.Base.Numerals.{parse_uint32}
use cossacks_game_server.Render.{View}
use cossacks_game_server.Gsc.Routes.{param}
use cossacks_game_server.Gsc.Routes.JoinGame.{
  admission, check_session, check_room, find_room, join_game, nick_of_session,
}
use cossacks_game_server.Gsc.Routes.JoinGame.Admitting.{Asked, Open, join_game_lem}
use cossacks_game_server.Gsc.Routes.JoinGame.OwnRoom.{join_game_own}

parse_uint32_examples :
    (parse_uint32 (codes "4294967295") ≡ some 4294967295)
    × (parse_uint32 (codes "4294967296") ≡ none)
    × (parse_uint32 (codes "-1") ≡ none)
    × (parse_uint32 [] ≡ none)
unfolding parse_uint32
parse_uint32_examples = (refl, refl, refl, refl)

abbrev duel : Room
duel = record {
  id = 1;
  title = codes "duel";
  host_id = 7;
  host_addr = [];
  host_addr_int = 0;
  ver = 2;
  level = pos 0;
  password = [];
  max_players = pos 8;
  players_count = pos 1;
  players = (7, some 1) ∷ [];
  players_time = [];
  started = false;
  started_at = 0;
  start_players = pos 0;
  ctl_sum = 99;
  row = codes "duel" ∷ [];
  ctime = 0;
  map_name = [];
  save_from = pos 0;
  time_tick = 0;
  started_users = [];
}

abbrev ann : Player
ann = record {
  id = 7;
  nick = codes "ann";
  connected_at = 0;
  exited_at = 0;
  account_type = [];
  account_login = [];
  account_id = [];
  account_profile = [];
  nation = 0;
  theam = 0;
  color = 0;
}

-- One room, under its id, its host and its sum, and the player who hosts it.
abbrev hosted : Store
hosted =
    set_player
      (store_player
        (index_room_by_sum
          (index_room_by_host (index_room_by_id (new_room new_store duel).0 1 0) 7 0) 99 0)
        1 ann)
      7 1

abbrev host_conn : Connection
host_conn = record {
  id = 3;
  ip = codes "127.0.0.1";
  port = pos 4000;
  int_ip = 0;
  ctime = 0;
  session = some (record {
    account = none;
    player_id = 7;
    nick = codes "ann";
    window_w = pos 0;
    window_h = pos 0;
    dev = false;
    room_id = 0;
    alive_at = 0;
  });
  closed = false;
}

abbrev hosting : Server
hosting = record { store = hosted; manager = new_manager 0; posts = [] }

abbrev asked : Params
asked = (codes "ASTATE", codes "1") ∷ (codes "VE_RID", codes "1") ∷ []

abbrev blank : ℕ → Bytes → View → Bytes
blank ver template view = template

admitted : admission blank hosting host_conn 2 asked ≡ ok (0, duel)
unfolding admission check_session check_room find_room param parse_uint32 player_id_of
    nick_of_session trim_space get_room load_room lookup insert new_store new_room index_room_by_sum
    index_room_by_host index_room_by_id set_player store_player
admitted = refl

player_id : player_id_of host_conn ≡ 7
unfolding player_id_of
player_id = refl

leads :
    (get_room_by_host hosted 7 ≡ some 0)
    × (get_player hosted 7 ≡ some 1)
    × (load_player hosted 1 ≡ some ann)
unfolding get_room_by_host get_player load_player lookup insert new_store new_room index_room_by_sum
    index_room_by_host index_room_by_id set_player store_player
leads = (refl, refl, refl)

goes : should_delete (dismiss duel 7) 7 ≡ true
unfolding should_delete dismiss
goes = refl

join_game_own_example :
    (get_room (join_game blank (λ id. none) 20 hosting host_conn 2 asked).0.store 1 ≡ none)
    × (get_room_by_host
          (join_game blank (λ id. none) 20 hosting host_conn 2 asked).0.store
          (player_id_of host_conn)
        ≡ some 0)
join_game_own_example =
    join_game_own blank (λ id. none) 20 hosting host_conn 2 asked 0 1 duel ann admitted
      (rw (player_id) (leads.0)) (rw (player_id) goes) (rw (player_id) (leads.1)) (leads.2)
      (rw (player_id) refl)

join_game_lem_example :
    let (w', page, error) = join_game blank (λ id. none) 20 hosting host_conn 2 asked in
    ((w' ≡ hosting) × (error ≢ none))
    ⊎ ((id : ℕ) × (r : Ref) × (room : Room) × Asked host_conn asked id
        × (get_room hosted id ≡ some r)
        × (load_room hosted r ≡ some room)
        × Open room asked
        × (error ≡ none)
        × (w'.store
            ≡ join
                (leave hosted (player_id_of host_conn) 20).0
                r
                (get_player (leave hosted (player_id_of host_conn) 20).0 (player_id_of host_conn))
                20))
join_game_lem_example = join_game_lem blank (λ id. none) 20 hosting host_conn 2 asked
