-- ===== src/Gsc/Examples.antt =====
-- Commands at concrete inputs.
use cossacks_game_server.Base.{
  ℕ, true, false, Bytes, Option, bytes_eq, is_empty, if◌then◌else◌, none, some, List, [], ◌∷◌, ◌++◌,
  codes, ◌≡◌, ◌⊎◌, ◌≢◌, refl, arith, All,
}
use cossacks_game_server.Base.Int.{ℤ, pos, ◌<ℤ◌}
use cossacks_game_server.Base.Maps.{lookup, insert}
use cossacks_game_server.Rooms.{
  Ref, Room, Store, new_store, new_room, index_room_by_id, index_room_by_host, index_room_by_sum,
  load_room, get_room_by_host, get_player,
}
use cossacks_game_server.Base.Format.{print_uint}
use cossacks_game_server.Base.Numerals.{atoi}
use cossacks_game_server.Base.Strings.{trim_space}
use cossacks_game_server.Gsc.ProxyCommand.{
  Ip4, proxy, proxy_lem, cancel, redirect, endpoint_args, print_ip4, int_ip4,
}
use cossacks_game_server.Gsc.Connectivity.{Connection, new_manager, arm_timer}
use cossacks_game_server.Gsc.Params.{next_param, open_url, go_params, parse_open_params, put_param}
use cossacks_game_server.Gsc.Params.Parsing.{
  Readable, Written, write_params, put_all, parse_open_params-write_params, go_params_indirect,
}
use cossacks_game_server.Gsc.Gettbl.{gettbl, unpack_u32, equal_fold}
use cossacks_game_server.Gsc.Gettbl.View.{
  Told, table_answer, table_name, is_room_table, gettbl_view,
}
use cossacks_game_server.Gsc.Commands.{Server, player_id_of}
use cossacks_game_server.Gsc.GameCommands.{on_disconnect}
use cossacks_game_server.Gsc.Dispatch.Disconnecting.{Gone, on_disconnect-Gone}

open_url_example : open_url (codes " enter.dcml") ≡ codes "enter"
unfolding open_url
open_url_example = refl

parse_open_params_example :
    parse_open_params (codes "A=1^B=x^y^=z")
    ≡ (codes "A", codes "1") ∷ (codes "B", codes "x^y") ∷ []
unfolding parse_open_params
parse_open_params_example = refl

abbrev written : List Written
written =
    record { first = b'A'; key = codes "_1"; value = codes "a=b" }
    ∷ record { first = b'B'; key = []; value = codes "x^y" }
    ∷ []

written-Readable : All Readable written
unfolding next_param
written-Readable = (((refl, (refl, (refl, tt))), refl), (((refl, tt), refl), tt))

parse_open_params-write_params_example :
    parse_open_params (write_params written) ≡ put_all written []
parse_open_params-write_params_example = parse_open_params-write_params written written-Readable

go_params_indirect_example :
    go_params ((codes "nick" ++ codes ":=") ∷ codes "ann" ∷ []) []
    ≡ go_params (codes "ann" ∷ []) (put_param (codes "nick" ++ codes ":") [] [])
go_params_indirect_example = go_params_indirect (codes "nick") (codes "ann" ∷ []) [] (ground arith)

equal_fold_example : equal_fold (codes "rooms_v2") (codes "ROOMS_V2") ≡ true
unfolding equal_fold
equal_fold_example = refl

abbrev duel : Room
duel = record {
  id = 1;
  title = codes "duel";
  host_id = 7;
  host_addr = [];
  host_addr_int = 0;
  ver = 2;
  level = pos 0;
  password = [];
  max_players = pos 8;
  players_count = pos 1;
  players = (7, none) ∷ [];
  players_time = [];
  started = false;
  started_at = 0;
  start_players = pos 0;
  ctl_sum = 99;
  row = codes "duel" ∷ [];
  ctime = 0;
  map_name = [];
  save_from = pos 0;
  time_tick = 0;
  started_users = [];
}

-- One room, under its id, its host and its sum.
abbrev hosted : Store
hosted =
    index_room_by_sum (index_room_by_host (index_room_by_id (new_room new_store duel).0 1 0) 7 0) 99
      0

abbrev rooms_v2 : Bytes
rooms_v2 = codes "ROOMS_V2" ++ 0 ∷ []

abbrev sums_99_5 : Bytes
sums_99_5 = 99 ∷ 0 ∷ 0 ∷ 0 ∷ 5 ∷ 0 ∷ 0 ∷ 0 ∷ []

gettbl_view_example :
    (gone : List ℕ) × (rows : List (List Bytes)) × (gettbl hosted false false 2
        (rooms_v2 ∷ [] ∷ sums_99_5 ∷ [])
      ≡ some (table_answer (table_name rooms_v2) gone rows))
    × Told hosted true (is_room_table 2 rooms_v2) (unpack_u32 sums_99_5) gone rows
gettbl_view_example = gettbl_view hosted false false 2 rooms_v2 [] sums_99_5 []

abbrev host_conn : Connection
host_conn = record {
  id = 3;
  ip = codes "127.0.0.1";
  port = pos 4000;
  int_ip = 0;
  ctime = 0;
  session = some (record {
    account = none;
    player_id = 7;
    nick = codes "ann";
    window_w = pos 0;
    window_h = pos 0;
    dev = false;
    room_id = 0;
    alive_at = 0;
  });
  closed = false;
}

abbrev hosting : Server
hosting = record { store = hosted; manager = arm_timer (new_manager 0) 7 10; posts = [] }

host_id : player_id_of host_conn ≡ 7
unfolding player_id_of
host_id = refl

host_leads : (get_room_by_host hosted 7 ≡ some 0) × (load_room hosted 0 ≡ some duel)
unfolding get_room_by_host load_room new_store new_room index_room_by_sum index_room_by_host
    index_room_by_id lookup insert
host_leads = (refl, refl)

host_loaded :
    (r : Ref)
    → get_room_by_host hosted (player_id_of host_conn) ≡ some r
    → load_room hosted r ≢ none
host_loaded r h gone = let (leads, there) = host_leads in let id = host_id in cc

on_disconnect-Gone_example :
    Gone (on_disconnect 20 hosting host_conn) (player_id_of host_conn)
    × (get_player (on_disconnect 20 hosting host_conn).store (player_id_of host_conn) ≡ none)
on_disconnect-Gone_example =
    on_disconnect-Gone 20 hosting host_conn (rw (host_id) (omega arith)) host_loaded

-- An address that is no address, and one that is read as it stands here.
abbrev one_ip : Bytes → Option Ip4
one_ip s =
    if bytes_eq s (codes "1.2.3.4") then some (record { a = 1; b = 2; c = 3; d = 4 }) else none

proxied :
    (proxy one_ip
      (codes "k")
      5
      hosting
      host_conn
      2
      (codes "1.2.3.4" ∷ codes " 80" ∷ codes "k" ∷ [])).1
    ≡ record host_conn { ip = codes "1.2.3.4"; int_ip = 67305985; port = pos 80 }
unfolding proxy endpoint_args trim_space atoi print_ip4 int_ip4 print_uint
proxied = refl

proxy_lem_example :
    let (w', conn', result) =
      proxy one_ip
        (codes "k")
        5
        hosting
        host_conn
        2
        (codes "1.2.3.4" ∷ codes "80" ∷ codes "k" ∷ []) in
    (w' ≡ hosting)
    × (((conn' ≡ cancel host_conn) × (result.error ≢ none))
        ⊎ ((codes "k" ≡ codes "k")
            × (is_empty (codes "k") ≡ false)
            × ((ip : Ip4) × (n : ℤ) × (one_ip (trim_space (codes "1.2.3.4")) ≡ some ip)
                × (atoi (trim_space (codes "80")) ≡ some n)
                × (pos 0 <ℤ n)
                × (n <ℤ pos 65535)
                × (conn' ≡ redirect one_ip (codes "k") host_conn ip n))))
proxy_lem_example =
    proxy_lem one_ip (codes "k") 5 hosting host_conn 2 (codes "1.2.3.4") (codes "80") (codes "k") []
