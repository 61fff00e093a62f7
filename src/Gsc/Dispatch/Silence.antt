-- ===== src/Gsc/Dispatch/Silence.antt =====
-- internal/app/connectivity/manager.go and controller_alive.go of internal/app/gsc in time: runs in
-- which players come alive, join, leave and disconnect, and timers fire when they are due.
use cossacks_game_server.Base.{
  ℕ, ◌==◌, Bool-cases, ◌≤◌, ◌<◌, some, List, Bytes, ◌≡◌, ◌≢◌, arith, inl, inr, ◌⊎◌, ◌∙◌, sym,
}
use cossacks_game_server.Base.Maps.{lookup}
use cossacks_game_server.Lobby.{join}
use cossacks_game_server.Rooms.{Player, Ref, load_player, Time}
use cossacks_game_server.Gsc.Dispatch.Aside.{
  join-Aside, Aside, Aside-Gone, alive-Aside, leave_command-Aside, on_disconnect-Aside,
  not_alive-Aside, Inv-Loaded,
}
use cossacks_game_server.Lobby.Invariant.{Inv}
use cossacks_game_server.Lobby.Invariant.Changes.{leave-Inv}
use cossacks_game_server.Gsc.Connectivity.{Connection}
use cossacks_game_server.Gsc.Commands.{Server, player_id_of, leave_command, alive}
use cossacks_game_server.Gsc.GameCommands.{on_disconnect, not_alive}
use cossacks_game_server.Gsc.Dispatch.Disconnecting.{Gone, not_alive-Gone}

-- The server and the time.
pub record Clock : Type 0 where
  pub now : Time
  pub server : Server

-- What happens to the server: commands of a connection, its end, a player who joins a room, a
-- timer that fires at the time it is due, and time that passes.
pub data Event : Type 0 where
  alive_by : Connection → ℕ → List Bytes → Event
  leave_by : Connection → ℕ → List Bytes → Event
  end_of : Connection → Event
  joins : Ref → Ref → Event
  fires : ℕ → Time → Event
  waits : Time → Event

abbrev pub after : Clock → Event → Clock
after c (alive_by conn ver args) = record c { server = (alive c.now c.server conn ver args).0 }
after c (leave_by conn ver args) = record c {
  server = (leave_command c.now c.server conn ver args).0;
}
after c (end_of conn) = record c { server = on_disconnect c.now c.server conn }
after c (joins r q) = record c {
  server = record c.server { store = join c.server.store r (some q) c.now };
}
after c (fires id t) = record { now = t; server = not_alive t c.server id }
after c (waits t) = record { now = t; server = c.server }

-- The time does not go back, and does not pass a timer that is due.
abbrev pub Reaches : Clock → Time → Type 0
Reaches c t =
    (c.now ≤ t) × ((id : ℕ) (due : Time) → lookup id c.server.manager.timers ≡ some due → t ≤ due)

abbrev pub Happens : Clock → Event → Type 0
Happens c (fires id t) = (lookup id c.server.manager.timers ≡ some t) × Reaches c t
Happens c (waits t) = Reaches c t
Happens c e = Unit {0}

-- The event comes from no connection of the player, and the player is not the one who joins.
abbrev pub Without : ℕ → Clock → Event → Type 0
Without p c (alive_by conn ver args) = player_id_of conn ≢ p
Without p c (leave_by conn ver args) = player_id_of conn ≢ p
Without p c (end_of conn) = player_id_of conn ≢ p
Without p c (joins r q) =
    (player : Player) → load_player c.server.store q ≡ some player → player.id ≢ p
Without p c e = Unit {0}

-- A run that hears nothing of the player.
pub data SilentRun (p : ℕ) (c : Clock) : Clock → Type 0 where
  here : SilentRun p c c
  next :
      {d : Clock}
      → SilentRun p c d
      → (e : Event) → Happens d e
      → Without p d e
      → SilentRun p c (after d e)

-- What holds of a silent player: its timer is due, and not passed, or it is gone.
abbrev Watched : ℕ → Time → Clock → Type 0
Watched p due d =
    Inv d.server.store
    × (((lookup p d.server.manager.timers ≡ some due) × (d.now ≤ due)) ⊎ Gone d.server p)

Aside-Watched :
    (p : ℕ) (due : Time) (now : Time) (w w' : Server)
    → Aside p w w'
    → Watched p due (record { now = now; server = w })
    → Watched p due (record { now = now; server = w' })
Aside-Watched p due now w w' a (v, inl (h, early)) = (a.kept v, inl (a.timer ∙ h, early))
Aside-Watched p due now w w' a (v, inr gone) = (a.kept v, inr (Aside-Gone p w w' a gone))

later-Watched :
    (p : ℕ) (due : Time) (c : Clock) (t : Time)
    → Reaches c t
    → Watched p due c
    → Watched p due (record c { now = t })
later-Watched p due c t (later, within) (v, inl (h, early)) = (v, inl (h, within p due h))
later-Watched p due c t (later, within) (v, inr gone) = (v, inr gone)

pub not_alive_kept :
    (now : Time) (w : Server) (id : ℕ) → Inv w.store → Inv (not_alive now w id).store
unfolding not_alive
not_alive_kept now w id = leave-Inv w.store id now

fires-Watched :
    (p : ℕ) (due : Time) (c : Clock) (id : ℕ) (t : Time)
    → Happens c (fires id t)
    → Watched p due c
    → Watched p due (after c (fires id t))
fires-Watched p due c id t (armed, reached) w =
    let (v, _) = later-Watched p due c t reached w in
    elim (Bool-cases (id == p)) [
      | inl e ↦
          let same : id ≡ p = ground arith in
          (
            not_alive_kept t c.server id v,
            inr (rw (sym same) (not_alive-Gone t c.server id (Inv-Loaded c.server.store id v))),
          )
      | inr e ↦
          let other : id ≢ p = ground arith in
          Aside-Watched p due t c.server (not_alive t c.server id)
            (not_alive-Aside p id t c.server other) (later-Watched p due c t reached w)
    ]

after-Watched :
    (p : ℕ) (due : Time) (c : Clock) (e : Event)
    → Happens c e
    → Without p c e
    → Watched p due c
    → Watched p due (after c e)
after-Watched p due c (alive_by conn ver args) ok out w =
    Aside-Watched p due c.now c.server _ (alive-Aside p c.now c.server conn ver args out) w
after-Watched p due c (leave_by conn ver args) ok out w =
    Aside-Watched p due c.now c.server _ (leave_command-Aside p c.now c.server conn ver args out) w
after-Watched p due c (end_of conn) ok out w =
    Aside-Watched p due c.now c.server _ (on_disconnect-Aside p c.now c.server conn out) w
after-Watched p due c (joins r q) ok out w =
    Aside-Watched p due c.now c.server _ (join-Aside p c.now c.server r q out) w
after-Watched p due c (fires id t) ok out w = fires-Watched p due c id t ok w
after-Watched p due c (waits t) ok out w = later-Watched p due c t ok w

SilentRun-Watched :
    (p : ℕ) (due : Time) (c d : Clock) → SilentRun p c d → Watched p due c → Watched p due d
SilentRun-Watched p due c d here w = w
SilentRun-Watched p due c _ (next {d = d} run e ok out) w =
    after-Watched p due d e ok out (SilentRun-Watched p due c d run w)

-- A player who has an alive timer and is not heard of any more is gone when the time is past the
-- one at which the timer is due, whatever the others do: it has no timer, no connection and no
-- entry in the host index. The run starts before the timer is due, from a store with the
-- invariant, and the others come alive, join, leave and disconnect, and their timers fire.
pub SilentRun-Gone :
    (p : ℕ) (due : Time) (c d : Clock)
    → Inv c.server.store
    → lookup p c.server.manager.timers ≡ some due
    → c.now ≤ due
    → SilentRun p c d
    → due < d.now
    → Gone d.server p
SilentRun-Gone p due c d v armed early run past =
    elim ((SilentRun-Watched p due c d run (v, inl (armed, early))).1) [
      | inl (still, before) ↦ let impossible : ⊥ = omega arith in elim impossible [ ]
      | inr gone ↦ gone
    ]
