-- ===== src/Gsc/Dispatch/Disconnecting.antt =====
-- `OnDisconnect` and `notAlive` of internal/app/gsc: what is left of a player.
use cossacks_game_server.Base.{
  Option-cases, ℕ, false, none, some, ◌≡◌, ◌≢◌, refl, arith, inl, inr, ◌∙◌,
}
use cossacks_game_server.Base.Maps.{lookup-erase}
use cossacks_game_server.Rooms.{
  Ref, Time, Store, get_player, get_room_by_host, load_room, delete_player,
}
use cossacks_game_server.Lobby.{leave}
use cossacks_game_server.Lobby.Leaving.{leave-Left}
use cossacks_game_server.Gsc.Connectivity.{
  Connection, Manager, has_timer, conn_of, clear_timer, unregister,
}
use cossacks_game_server.Gsc.Commands.{Server, player_id_of}
use cossacks_game_server.Gsc.GameCommands.{on_disconnect, not_alive}

-- Nothing leads to the player any more, the room index by host included.
pub record Gone (w : Server) (id : ℕ) : Type 0 where
  pub no_timer : has_timer w.manager id ≡ false
  pub no_connection : conn_of w.manager id ≡ none
  pub no_room : get_room_by_host w.store id ≡ none

clear_timer_lem : (m : Manager) (id : ℕ) → has_timer (clear_timer m id) id ≡ false
unfolding has_timer clear_timer
clear_timer_lem m id = ground (arith, lookup-erase id id m.timers)

unregister_lem :
    (m : Manager) (id : ℕ)
    → (conn_of (unregister m id) id ≡ none) × (has_timer (unregister m id) id ≡ has_timer m id)
unfolding conn_of unregister has_timer
unregister_lem m id = (ground (arith, lookup-erase id id m.by_id), refl)

conn_of-clear_timer : (m : Manager) (id : ℕ) → conn_of (clear_timer m id) id ≡ conn_of m id
unfolding conn_of clear_timer
conn_of-clear_timer m id = refl

-- The rooms that the host index leads to are there.
abbrev pub Loaded : Store → ℕ → Type 0
Loaded s id = (r : Ref) → get_room_by_host s id ≡ some r → load_room s r ≢ none

leave_nowhere :
    (s : Store) (id : ℕ) (now : Time) → get_room_by_host s id ≡ none → (leave s id now).0 ≡ s
unfolding leave
leave_nowhere s id now h = rw (h, leave) refl

leave-get_room_by_host :
    (s : Store) (id : ℕ) (now : Time) → Loaded s id → get_room_by_host (leave s id now).0 id ≡ none
leave-get_room_by_host s id now loaded = elim (Option-cases (get_room_by_host s id)) [
  | inl e ↦ rw (leave_nowhere s id now e) e
  | inr (r, e) ↦ elim (Option-cases (load_room s r)) [
    | inl gone ↦ elim (loaded r e gone) [ ]
    | inr (room, l) ↦ rw ((leave-Left s id r room now e l).0.host_entry id) (ground arith)
  ]
]

delete_player_lem :
    (s : Store) (id : ℕ)
    → (get_player (delete_player s id) id ≡ none)
      × (get_room_by_host (delete_player s id) id ≡ get_room_by_host s id)
unfolding get_player delete_player get_room_by_host
delete_player_lem s id = (ground (arith, lookup-erase id id s.players), refl)

on_disconnect_known :
    (now : Time) (w : Server) (conn : Connection)
    → player_id_of conn ≢ 0
    → on_disconnect now w conn ≡ (
        let id = player_id_of conn in
        record w {
          manager = clear_timer (unregister (clear_timer w.manager id) id) id;
          store = delete_player ((leave w.store id now).0) id;
        })
unfolding on_disconnect
on_disconnect_known now w conn h = ground arith

-- A connection that closes leaves nothing of its player: no alive timer, no connection, no entry
-- in the host index and none among the players. The session has a player, and the host index
-- leads to a room that is there.
pub on_disconnect-Gone :
    (now : Time) (w : Server) (conn : Connection)
    → player_id_of conn ≢ 0
    → Loaded w.store (player_id_of conn)
    → Gone (on_disconnect now w conn) (player_id_of conn)
      × (get_player (on_disconnect now w conn).store (player_id_of conn) ≡ none)
on_disconnect-Gone now w conn h loaded =
    let id = player_id_of conn in
    let m = unregister (clear_timer w.manager id) id in
    let s = (leave w.store id now).0 in
    rw (on_disconnect_known now w conn h) (
      record {
        no_timer = clear_timer_lem m id;
        no_connection = conn_of-clear_timer m id ∙ (unregister_lem (clear_timer w.manager id) id).0;
        no_room = (delete_player_lem s id).1 ∙ leave-get_room_by_host w.store id now loaded;
      },
      (delete_player_lem s id).0,
    )

-- An alive timer that fires leaves no timer, no connection and no entry in the host index either,
-- where the host index leads to a room that is there.
pub not_alive-Gone :
    (now : Time) (w : Server) (id : ℕ) → Loaded w.store id → Gone (not_alive now w id) id
unfolding not_alive
not_alive-Gone now w id loaded = record {
  no_timer = rw ((unregister_lem (clear_timer w.manager id) id).1) (clear_timer_lem w.manager id);
  no_connection = (unregister_lem (clear_timer w.manager id) id).0;
  no_room = leave-get_room_by_host w.store id now loaded;
}
