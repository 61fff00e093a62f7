-- ===== src/Gsc/Dispatch/Aside.antt =====
-- internal/app/connectivity/manager.go and the handlers of internal/app/gsc that end a player: what
-- they leave of another player.
use cossacks_game_server.Base.{
  some, ℕ, ◌+◌, ◌==◌, Bool-cases, Option-cases, none, List, Bytes, ◌≡◌, ◌≢◌, refl, arith, inl, inr,
  ◌∙◌,
}
use cossacks_game_server.Base.Maps.{lookup, lookup-insert, lookup-erase}
use cossacks_game_server.Lobby.Joining.{join_lem}
use cossacks_game_server.Lobby.{join, leave}
use cossacks_game_server.Lobby.Invariant.Changes.{join-Inv, leave-Inv}
use cossacks_game_server.Rooms.{
  Player, load_player, Ref, Time, Store, get_room_by_host, load_room, delete_player,
}
use cossacks_game_server.Lobby.Invariant.{Inv, Points}
use cossacks_game_server.Gsc.Connectivity.{
  Connection, Manager, has_timer, conn_of, clear_timer, unregister, arm_timer,
}
use cossacks_game_server.Gsc.Commands.{
  Server, player_id_of, touch_session, refresh_alive, leave_command, alive,
}
use cossacks_game_server.Gsc.GameCommands.{on_disconnect, not_alive}
use cossacks_game_server.Lobby.Leaving.{leave-Left}
use cossacks_game_server.Gsc.Dispatch.Disconnecting.{Gone, Loaded}

unpointed : (s : Store) (r : Ref) → Points s r (λ _. Unit {0}) → lookup r s.room_heap ≢ none
unpointed s r there gone = rw (gone) at there

pub Inv-Loaded : (s : Store) (id : ℕ) → Inv s → Loaded s id
unfolding get_room_by_host load_room
Inv-Loaded s id v r h gone = unpointed s r (v.by_host id r h) gone

delete_player-Inv : (s : Store) (id : ℕ) → Inv s → Inv (delete_player s id)
unfolding delete_player
delete_player-Inv s id v = record {
  by_id = v.by_id;
  by_host = v.by_host;
  by_sum = v.by_sum;
  summed = v.summed;
  fresh = v.fresh;
}

player_id_of-touch_session :
    (now : Time) (conn : Connection) → player_id_of (touch_session now conn) ≡ player_id_of conn
unfolding player_id_of touch_session
player_id_of-touch_session now conn = ground arith

leave-none :
    (s : Store) (q p : ℕ) (now : Time)
    → get_room_by_host s p ≡ none
    → get_room_by_host (leave s q now).0 p ≡ none
unfolding leave
leave-none s q p now h = elim (Option-cases (get_room_by_host s q)) [
  | inl e ↦ rw (e, leave) h
  | inr (r, e) ↦ elim (Option-cases (load_room s r)) [
    | inl e' ↦ rw (e, e', leave) h
    | inr (room, e') ↦ rw ((leave-Left s q r room now e e').0.host_entry p) (ground arith)
  ]
]

arm_timer-lookup :
    (m : Manager) (q p : ℕ) (now : Time)
    → q ≢ p
    → lookup p (arm_timer m q now).timers ≡ lookup p m.timers
unfolding arm_timer
arm_timer-lookup m q p now h = ground (arith, lookup-insert q p (now + m.ttl) m.timers)

clear_timer-lookup :
    (m : Manager) (q p : ℕ) → q ≢ p → lookup p (clear_timer m q).timers ≡ lookup p m.timers
unfolding clear_timer
clear_timer-lookup m q p h = ground (arith, lookup-erase q p m.timers)

-- How a server may change for a player who takes no part: its room and its connection only go.
pub record Aside (p : ℕ) (w w' : Server) : Type 0 where
  pub kept : Inv w.store → Inv w'.store
  pub timer : lookup p w'.manager.timers ≡ lookup p w.manager.timers
  pub connection : conn_of w.manager p ≡ none → conn_of w'.manager p ≡ none
  pub room : get_room_by_host w.store p ≡ none → get_room_by_host w'.store p ≡ none

pub Aside-Gone : (p : ℕ) (w w' : Server) → Aside p w w' → Gone w p → Gone w' p
unfolding has_timer
Aside-Gone p w w' a g = record {
  no_timer = rw (a.timer, has_timer) g.no_timer;
  no_connection = a.connection g.no_connection;
  no_room = a.room g.no_room;
}

same-Aside : (p : ℕ) (w : Server) → Aside p w w
same-Aside p w = record { kept = λ v. v; timer = refl; connection = λ h. h; room = λ h. h }

pub alive-Aside :
    (p : ℕ) (now : Time) (w : Server) (conn : Connection) (ver : ℕ) (args : List Bytes)
    → player_id_of conn ≢ p
    → Aside p w (alive now w conn ver args).0
unfolding alive refresh_alive arm_timer conn_of
alive-Aside p now w conn ver args h =
    let id = player_id_of (touch_session now conn) in
    let other : id ≢ p = rw (player_id_of-touch_session now conn) h in
    elim (Bool-cases (id == 0)) [
      | inl e ↦ rw (e, refresh_alive) (same-Aside p w)
      | inr e ↦
          rw (e, refresh_alive)
            (record {
              kept = λ v. v;
              timer = arm_timer-lookup w.manager id p now other;
              connection = λ h. h;
              room = λ h. h;
            })
    ]

leave-Aside :
    (p q : ℕ) (now : Time) (w : Server)
    → q ≢ p
    → Aside p w (record w { manager = clear_timer w.manager q; store = (leave w.store q now).0 })
unfolding clear_timer conn_of
leave-Aside p q now w h = record {
  kept = leave-Inv w.store q now;
  timer = clear_timer-lookup w.manager q p h;
  connection = λ h. h;
  room = leave-none w.store q p now;
}

unregister-lookup : (m : Manager) (q p : ℕ) → conn_of m p ≡ none → conn_of (unregister m q) p ≡ none
unfolding conn_of unregister
unregister-lookup m q p h = ground (arith, h, lookup-erase q p m.by_id)

pub leave_command-Aside :
    (p : ℕ) (now : Time) (w : Server) (conn : Connection) (ver : ℕ) (args : List Bytes)
    → player_id_of conn ≢ p
    → Aside p w (leave_command now w conn ver args).0
unfolding leave_command
leave_command-Aside p now w conn ver args h = elim (Bool-cases (player_id_of conn == 0)) [
  | inl e ↦ rw (e, leave_command) (same-Aside p w)
  | inr e ↦ rw (e, leave_command) (leave-Aside p (player_id_of conn) now w h)
]

pub not_alive-Aside : (p q : ℕ) (now : Time) (w : Server) → q ≢ p → Aside p w (not_alive now w q)
unfolding not_alive unregister
not_alive-Aside p q now w h = record {
  kept = leave-Inv w.store q now;
  timer = clear_timer-lookup w.manager q p h;
  connection = λ none_there.
      unregister-lookup (clear_timer w.manager q) q p
        ((leave-Aside p q now w h).connection none_there);
  room = leave-none w.store q p now;
}

Aside-trans : (p : ℕ) (u v w : Server) → Aside p u v → Aside p v w → Aside p u w
Aside-trans p u v w a b = record {
  kept = λ i. b.kept (a.kept i);
  timer = b.timer ∙ a.timer;
  connection = λ h. b.connection (a.connection h);
  room = λ h. b.room (a.room h);
}

-- The end of `OnDisconnect`, behind the player's leave.
forgotten-Aside :
    (p q : ℕ) (w : Server)
    → q ≢ p
    → Aside p w (record w { manager = clear_timer w.manager q; store = delete_player w.store q })
unfolding clear_timer conn_of delete_player get_room_by_host
forgotten-Aside p q w h = record {
  kept = delete_player-Inv w.store q;
  timer = clear_timer-lookup w.manager q p h;
  connection = λ h. h;
  room = λ h. h;
}

pub on_disconnect-Aside :
    (p : ℕ) (now : Time) (w : Server) (conn : Connection)
    → player_id_of conn ≢ p
    → Aside p w (on_disconnect now w conn)
unfolding on_disconnect not_alive
on_disconnect-Aside p now w conn h =
    let q = player_id_of conn in
    let v = not_alive now w q in
    elim (Bool-cases (q == 0)) [
      | inl e ↦ rw (e, on_disconnect) (same-Aside p w)
      | inr e ↦
          rw (e, on_disconnect)
            (Aside-trans p w v _ (not_alive-Aside p q now w h) (forgotten-Aside p q v h))
    ]

pub join-Aside :
    (p : ℕ) (now : Time) (w : Server) (r q : Ref)
    → ((player : Player) → load_player w.store q ≡ some player → player.id ≢ p)
    → Aside p w (record w { store = join w.store r (some q) now })
unfolding join
join-Aside p now w r q other = elim (Option-cases (load_room w.store r)) [
  | inl e ↦ rw (e, join) (same-Aside p w)
  | inr (room, e) ↦ elim (Option-cases (load_player w.store q)) [
    | inl e' ↦ rw (e, e', join) (same-Aside p w)
    | inr (player, e') ↦ record {
      kept = join-Inv w.store r (some q) now;
      timer = refl;
      connection = λ h. h;
      room = λ h.
          let differs = other player e' in
          (join_lem w.store r q room player now e e').1 p ∙ ground (arith, h, differs);
    }
  ]
]
