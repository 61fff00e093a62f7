-- ===== src/Lobby/Examples.antt =====
-- The lobby at concrete inputs: a room with a host and two guests.
use cossacks_game_server.Base.{
  ℕ, false, none, some, [], ◌∷◌, codes, ◌≡◌, refl, arith, if◌then◌else◌, ◌==◌, true, Option,
}
use cossacks_game_server.Base.Int.{pos, ◌+ℤ◌}
use cossacks_game_server.Rooms.{Map, unindex_room_by_host}
use cossacks_game_server.Base.Int.{◌+ℤ◌}
use cossacks_game_server.Base.Int.{leb_ℤ, ◌-ℤ◌}
use cossacks_game_server.Base.Maps.{erase}
use cossacks_game_server.Base.{not, ◌||◌, ◌&&◌, ◌==◌}
use cossacks_game_server.Base.Maps.{lookup, insert}
use cossacks_game_server.Rooms.{
  Room, Player, Store, new_store, load_room, load_player, get_room, get_room_by_host,
  get_room_by_sum, upsert_player, set_player,
}
use cossacks_game_server.Rooms.ControlSum.{control_sum, checksum}
use cossacks_game_server.Rooms.ControlSum.Adler.{checksum-adler, adler}
use cossacks_game_server.Lobby.{
  RegisterNewParams, register_new, admit, join, dismiss, should_delete, leave, leave_room,
  unindex_room_by_host, Ref,
}
use cossacks_game_server.Lobby.Row.{RowParams, new_row, start_row, set_players_column}
use cossacks_game_server.Lobby.Sav.{parse_sav}
use cossacks_game_server.Lobby.Invariant.{Inv}
use cossacks_game_server.Lobby.Invariant.Steps.{
  enters, registers, joins, leaves, here, next, step, Reach-new_store-Inv,
}
use cossacks_game_server.Lobby.Leaving.{Left, leave-Left, guest-leave-ghost}
use cossacks_game_server.Lobby.Joining.{
  join_lem, visits, arrives, departs, count_after, visits-registered,
}
use cossacks_game_server.Base.Format.{print_int, print_hex}
use cossacks_game_server.Lobby.Row.{players_column}
use cossacks_game_server.Rooms.{
  index_room_by_sum, index_room_by_host, index_room_by_id, new_room, next_room_id, store_room,
  unindex_room_by_sum,
}
use cossacks_game_server.Lobby.Title.{
  level_label, validate_title, normalize_title, normalize_title_padded,
}
use cossacks_game_server.Base.Strings.{trim_space}
use cossacks_game_server.Base.{replicate, ◌++◌}
use cossacks_game_server.Base.Int.{negsuc}
use Prim.Native.Nat.{bit_or, ◌*◌, ◌^◌}

abbrev columns : RowParams
columns = record {
  host_addr_int = 0x0100007F;
  ver = 2;
  title = codes "duel";
  max_players = pos 8;
  level_label = codes "Easy";
  lock_mark = [];
  nick_str = codes "ann";
  ve_type = [];
  is_ac = false;
}

abbrev params : RegisterNewParams
params = record {
  host = some 100;
  host_addr = codes "127.0.0.1";
  password = [];
  level = pos 1;
  columns = columns;
}

new_row_example :
    new_row columns 3 (pos 1)
    ≡ codes "3"
      ∷ []
      ∷ codes "duel"
      ∷ codes "ann"
      ∷ codes "Easy"
      ∷ codes "1/8"
      ∷ codes "2"
      ∷ codes "16777343"
      ∷ codes "0FFFFFFFC"
      ∷ []
unfolding new_row players_column print_int print_hex
new_row_example = refl

start_row_example :
    start_row (codes "3" ∷ [] ∷ codes "0F" ∷ [])
    ≡ codes "3" ∷ (0x7F ∷ codes "0018") ∷ codes "1F" ∷ []
unfolding start_row
start_row_example = refl

parse_sav_examples :
    (parse_sav (codes "sav:[42]") ≡ pos 42)
    × (parse_sav (codes "sav:[4x]") ≡ pos 0)
    × (parse_sav (codes "sav:[9223372036854775808]") ≡ pos 0)
unfolding parse_sav
parse_sav_examples = (refl, refl, refl)

-- The Adler-32 of "Wikipedia".
checksum_example : checksum (codes "Wikipedia") ≡ 0x11E60398
unfolding checksum
checksum_example = refl

checksum-adler_example :
    checksum (codes "Wikipedia")
    ≡ bit_or ((adler 1 0 (codes "Wikipedia")).1 * 2 ^ 16) (adler 1 0 (codes "Wikipedia")).0
checksum-adler_example = checksum-adler (codes "Wikipedia") (omega arith)

abbrev player : ℕ → Player
player id = record {
  id = id;
  nick = codes "ann";
  connected_at = 0;
  exited_at = 0;
  account_type = [];
  account_login = [];
  account_id = [];
  account_profile = [];
  nation = 0;
  theam = 0;
  color = 0;
}

-- Players 1, 2 and 3 behind the pointers 100, 200 and 300.
abbrev players_only : Store
players_only = record new_store {
  player_heap = (100, player 1) ∷ (200, player 2) ∷ (300, player 3) ∷ [];
}

-- Player 1 hosts a room, which players 2 and 3 join.
abbrev hosted : Store
hosted = (register_new players_only params 10).0

abbrev crowded : Store
crowded = join (join hosted 0 (some 200) 11) 0 (some 300) 12

-- The room of the crowd.
abbrev duel : Room
duel = record {
  id = 1;
  title = codes "duel";
  host_id = 1;
  host_addr = codes "127.0.0.1";
  host_addr_int = 0x0100007F;
  ver = 2;
  level = pos 1;
  password = [];
  max_players = pos 8;
  players_count = pos 3;
  players = (1, some 100) ∷ (2, some 200) ∷ (3, some 300) ∷ [];
  players_time = (1, 10) ∷ (2, 11) ∷ (3, 12) ∷ [];
  started = false;
  started_at = 0;
  start_players = pos 0;
  ctl_sum = control_sum (new_row columns 1 (pos 3));
  row = new_row columns 1 (pos 3);
  ctime = 10;
  map_name = [];
  save_from = pos 0;
  time_tick = 0;
  started_users = [];
}

crowded-duel : load_room crowded 0 ≡ some duel
unfolding join register_new new_store load_room get_room get_room_by_host lookup insert
    index_room_by_sum index_room_by_host index_room_by_id new_room next_room_id load_player
    store_room unindex_room_by_sum ◌+ℤ◌ new_row set_players_column
crowded-duel = refl

crowded_hosts :
    (get_room_by_host crowded 1 ≡ some 0)
    × (get_room_by_host crowded 2 ≡ some 0)
    × (get_room_by_host crowded 3 ≡ some 0)
    × (get_room crowded 1 ≡ some 0)
unfolding join register_new new_store load_room get_room get_room_by_host lookup insert
    index_room_by_sum index_room_by_host index_room_by_id new_room next_room_id load_player
    store_room unindex_room_by_sum ◌+ℤ◌ new_row set_players_column
crowded_hosts = (refl, refl, refl, refl)

crowded_players :
    (load_player players_only 200 ≡ some (player 2)) × (load_player hosted 200 ≡ some (player 2))
unfolding load_player lookup register_new new_store index_room_by_sum index_room_by_host
    index_room_by_id new_room next_room_id
crowded_players = (refl, refl)

-- Players 1, 2 and 3 enter, behind the pointers 0, 1 and 2; player 1 opens a room, behind the
-- pointer 3, the others join it, and player 2 leaves.
abbrev arrived : Store
arrived =
    step (step (step new_store (1, enters (player 1))) (2, enters (player 2)))
      (3, enters (player 3))

abbrev opened : Store
opened = step arrived (10, registers (record params { host = some 0 }))

abbrev visited : Store
visited = step (step (step opened (11, joins 3 (some 1))) (12, joins 3 (some 2))) (20, leaves 2)

host_and_players : Option Room → ℕ × Map (Option Ref)
host_and_players none = (0, [])
host_and_players (some room) = (room.host_id, room.players)

visited_room : host_and_players (load_room visited 3) ≡ (1, (1, some 0) ∷ (3, some 2) ∷ [])
unfolding upsert_player set_player register_new new_store load_room load_player join leave
    leave_room lookup insert erase get_room_by_host index_room_by_sum index_room_by_host
    index_room_by_id host_and_players new_room next_room_id store_room unindex_room_by_sum
    unindex_room_by_host ◌-ℤ◌ ◌+ℤ◌
visited_room = refl

Reach-new_store-Inv_example : Inv visited
Reach-new_store-Inv_example =
    let entered =
      next (next (next here (1, enters (player 1))) (2, enters (player 2)))
        (3, enters (player 3)) in
    let opens = next entered (10, registers (record params { host = some 0 })) in
    Reach-new_store-Inv
      (next (next (next opens (11, joins 3 (some 1))) (12, joins 3 (some 2))) (20, leaves 2))

leave-Left_example :
    Left crowded 2 0 duel 20 (leave crowded 2 20).0
    × ((leave crowded 2 20).1 ≡ some 0)
    × ((leave crowded 2 20).2 ≡ should_delete (dismiss duel 2) 2)
    × (should_delete (dismiss duel 2) 2
        ≡ (leb_ℤ (duel.players_count -ℤ pos 1) (pos 0) || (not duel.started && duel.host_id == 2)))
leave-Left_example = leave-Left crowded 2 0 duel 20 crowded_hosts.1 crowded-duel

guest-leave-ghost_example :
    let s1 = (leave crowded 1 20).0 in
    let s2 = (leave s1 2 30).0 in
    (get_room s1 duel.id ≡ none)
    × (get_room_by_host s1 2 ≡ some 0)
    × (get_room s2 duel.id ≡ none)
    × (get_room_by_sum s2 (dismiss (dismiss duel 1) 2).ctl_sum ≡ some 0)
guest-leave-ghost_example =
    guest-leave-ghost crowded 1 2 0 duel 0 20 30 crowded_hosts.0 crowded_hosts.1 crowded-duel refl
      refl refl (omega arith)

hosted_room :
    load_room hosted 0
    ≡ some (record duel {
      players_count = pos 1;
      players = (1, some 100) ∷ [];
      players_time = (1, 10) ∷ [];
      ctl_sum = control_sum (new_row columns 1 (pos 1));
      row = new_row columns 1 (pos 1);
    })
unfolding register_new new_store load_room lookup insert index_room_by_sum index_room_by_host
    index_room_by_id new_room next_room_id load_player
hosted_room = refl

join_lem_example :
    let room = record duel {
      players_count = pos 1;
      players = (1, some 100) ∷ [];
      players_time = (1, 10) ∷ [];
      ctl_sum = control_sum (new_row columns 1 (pos 1));
      row = new_row columns 1 (pos 1);
    } in
    let room' = admit room 2 200 11 in
    let s' = join hosted 0 (some 200) 11 in
    (load_room s' 0 ≡ some room')
    × ((q : ℕ) → get_room_by_host s' q ≡ (if 2 == q then some 0 else get_room_by_host hosted q))
    × ((k : ℕ) → get_room s' k ≡ get_room hosted k)
    × ((k : ℕ)
        → get_room_by_sum s' k ≡ (
            if room'.ctl_sum == k
            then some 0
            else if room.ctl_sum == k
            then none
            else get_room_by_sum hosted k))
join_lem_example = join_lem hosted 0 200 _ (player 2) 11 hosted_room crowded_players.1

visits-registered_example :
    (room : Room) × (load_room
        (register_new players_only params 10).0
        (register_new players_only params 10).1
      ≡ some room)
    × ((visits room (arrives 2 200 11 ∷ departs 2 ∷ [])).row
        ≡ new_row columns room.id (visits room (arrives 2 200 11 ∷ departs 2 ∷ [])).players_count)
    × ((visits room (arrives 2 200 11 ∷ departs 2 ∷ [])).players_count
        ≡ count_after (pos 1) (arrives 2 200 11 ∷ departs 2 ∷ []))
visits-registered_example =
    visits-registered players_only params 10 (arrives 2 200 11 ∷ departs 2 ∷ [])

level_labels : (level_label (pos 2) ≡ codes "Normal") × (level_label (negsuc 0) ≡ codes "For all")
unfolding level_label
level_labels = (refl, refl)

trim_space_wide :
    trim_space (0xC2 ∷ 0xA0 ∷ 32 ∷ codes "a b" ++ 0xE2 ∷ 0x80 ∷ 0xA8 ∷ 9 ∷ []) ≡ codes "a b"
unfolding trim_space
trim_space_wide = refl

validate_title_fun : validate_title (codes "fun") ≡ true
unfolding validate_title trim_space
validate_title_fun = refl

normalize_title_padded_example :
    (validate_title (replicate 60 32 ++ codes "fun") ≡ true)
    × (normalize_title (replicate 60 32 ++ codes "fun") ≡ [])
normalize_title_padded_example =
    normalize_title_padded 60 (codes "fun") validate_title_fun (omega arith)
