-- ===== src/Gsc/Routes/EntryExamples.antt =====
-- Entries, registrations and addresses at concrete inputs.
use cossacks_game_server.Base.{
  ℕ, zero, suc, ◌+◌, true, false, ◌&&◌, Option, none, some, [], ◌∷◌, Bytes, codes, Lacks, ltb,
  if◌then◌else◌, ◌≡◌, ◌≢◌, refl, arith, ◌⊎◌,
}
use cossacks_game_server.Base.Int.{ℤ, pos, negsuc}
use cossacks_game_server.Config.{GameConfig, ServerConfig, config_from_raw}
use cossacks_game_server.Identity.EnterFlow.{success}
use cossacks_game_server.Identity.EnterFlow.Admitted.{Admitted}
use cossacks_game_server.Identity.Service.{HttpClient}
use cossacks_game_server.KvMemory.{new_runtime_storage}
use cossacks_game_server.Lobby.Title.{validate_title}
use cossacks_game_server.Render.{View}
use cossacks_game_server.Rooms.{new_store, Room}
use cossacks_game_server.Stun.{Endpoint, serve_packet, ttl_of}
use cossacks_game_server.Stun.Punching.{packet_bytes}
use cossacks_game_server.Gsc.Commands.{Server, player_id_of}
use cossacks_game_server.Gsc.Connectivity.{Connection, new_manager}
use cossacks_game_server.Gsc.Params.{Params}
use cossacks_game_server.Gsc.Routes.{param}
use cossacks_game_server.Gsc.Routes.Endpoint.{Remote, stored_endpoint, punched}
use cossacks_game_server.Gsc.Routes.Enter.{resize, window_size}
use cossacks_game_server.Gsc.Routes.RegNewRoom.{reg_new_room}
use cossacks_game_server.Gsc.Routes.RegNewRoom.Opening.{Opened, reg_new_room_lem}
use cossacks_game_server.Gsc.Routes.RoomPages.{normalize_page, normalize_res}
use cossacks_game_server.Gsc.Routes.TryEnter.{try_enter}
use cossacks_game_server.Gsc.Routes.TryEnter.Entering.{
  request, decision, account_then, Entered, try_enter_lem,
}

abbrev shows_text : ℕ → Bytes → View → Bytes
shows_text ver template view = template

abbrev game : GameConfig
game = (config_from_raw []).game

abbrev server : ServerConfig
server = (config_from_raw []).server

abbrev nobody : HttpClient
nobody req = none

abbrev empty_server : Server
empty_server = record { store = new_store; manager = new_manager 0; posts = [] }

abbrev fresh_conn : Connection
fresh_conn = record {
  id = 3;
  ip = codes "10.0.0.1";
  port = pos 4000;
  int_ip = 167772161;
  ctime = 9;
  session = none;
  closed = false;
}

abbrev as_guest : Params
as_guest = (codes "NICK", codes "ann") ∷ []

-- The last three of them are tests: a page of four, one of text, and a size.
pages :
    (normalize_page (codes " 3 ") ≡ codes "3")
    × (normalize_page (codes "4") ≡ codes "1")
    × (normalize_res (codes "17") ≡ codes "17")
    × (normalize_res (codes "x") ≡ codes "0")
    × (window_size (resize fresh_conn ((codes "height", codes "400") ∷ [])).0 ≡ codes "large")
unfolding normalize_page normalize_res window_size resize
pages = (refl, refl, refl, refl, refl)

try_enter_lem_example :
    let (w', conn', page, e) =
      try_enter shows_text game server nobody [] 20 empty_server fresh_conn 2 as_guest in
    let d = decision shows_text game server nobody [] 20 empty_server fresh_conn 2 as_guest in
    ((d.kind ≢ success) × (w' ≡ empty_server) × (player_id_of conn' ≡ player_id_of fresh_conn))
    ⊎ (Admitted nobody []
          (request shows_text game server nobody [] 20 empty_server fresh_conn 2 as_guest)
          d
        × ((id : ℕ) × Entered fresh_conn d.nick
              (account_then shows_text game server nobody [] 20 empty_server fresh_conn 2 as_guest)
              w'
              conn'
              id))
try_enter_lem_example =
    try_enter_lem shows_text game server nobody [] 20 empty_server fresh_conn 2 as_guest

abbrev entered : Server × Connection
entered =
    let (w', conn', page, e) =
      try_enter shows_text game server nobody [] 20 empty_server fresh_conn 2 as_guest in
    (w', conn')

abbrev opens : Params
opens = (codes "ASTATE", codes "1") ∷ (codes "VE_TITLE", codes "duel") ∷ []

reg_new_room_lem_example :
    let (w', page, e) = reg_new_room shows_text game server 30 entered.0 entered.1 2 opens in
    ((e ≢ none) × (w' ≡ entered.0))
    ⊎ ((e ≡ none)
        × (player_id_of entered.1 ≢ 0)
        × (validate_title (param (codes "VE_TITLE") opens) ≡ true)
        × ((room : Room) × Opened shows_text game server 30 entered.0 entered.1 2 opens w'
              (player_id_of entered.1)
              room))
reg_new_room_lem_example = reg_new_room_lem shows_text game server 30 entered.0 entered.1 2 opens

-- An encoding that keeps the host and the port.
abbrev port_code : ℤ → Bytes → Bytes
port_code (pos n) host = 0 ∷ n ∷ host
port_code (negsuc n) host = 1 ∷ n ∷ host

abbrev written : Endpoint → Bytes
written e = port_code e.port e.host

abbrev read_back : Bytes → Option (Bytes × ℤ)
read_back (zero ∷ n ∷ host) = some (host, pos n)
read_back (suc k ∷ n ∷ host) = some (host, negsuc n)
read_back _ = none

written_port : (port : ℤ) (host : Bytes) → read_back (port_code port host) ≡ some (host, port)
written_port (pos n) host = refl
written_port (negsuc n) host = refl

abbrev key : Bytes
key = codes "k3y"

key-Lacks_nul : Lacks 0 key
key-Lacks_nul = (λ h. ground arith, (λ h. ground arith, (λ h. ground arith, tt)))

storage_opened : new_runtime_storage.closed ≡ false
unfolding new_runtime_storage
storage_opened = refl

remote : Remote (codes "1.2.3.4") (pos 3708)
remote = record { ascii = omega arith; from_zero = omega arith; below = omega arith }

punched_example :
    let ttl = ttl_of (pos 1000) in
    let served =
      serve_packet written
        (pos 1000)
        (some new_runtime_storage)
        (record { at = 5; host = codes "1.2.3.4"; port = pos 3708; bytes = packet_bytes 7 key }) in
    (served.1 ≡ true)
    × (stored_endpoint read_back served.0 100 7
        ≡ (if ltb 0 ttl && ltb (5 + ttl) 100 then none else some (codes "1.2.3.4", pos 3708)))
punched_example =
    punched written read_back (λ e remote. written_port e.port e.host) (pos 1000)
      new_runtime_storage 5 100 (codes "1.2.3.4") key (pos 3708) 7 storage_opened remote
      (omega arith) (omega arith) key-Lacks_nul
