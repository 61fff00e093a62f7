-- ===== src/Gsc/Dispatch/Examples.antt =====
-- A host who falls silent, at concrete times.
use cossacks_game_server.Base.{ℕ, false, some, [], ◌∷◌, codes, ◌≡◌, ◌≢◌, ◌≤◌, refl, arith}
use cossacks_game_server.Base.Int.{pos}
use cossacks_game_server.Base.Maps.{lookup, insert, erase}
use cossacks_game_server.Rooms.{Store, new_store}
use cossacks_game_server.Lobby.{RegisterNewParams, register_new}
use cossacks_game_server.Lobby.Row.{RowParams}
use cossacks_game_server.Lobby.Invariant.{Inv}
use cossacks_game_server.Lobby.Invariant.Steps.{
  here, next, registers, Reach-new_store-Inv, step-Inv,
}
use cossacks_game_server.Gsc.Connectivity.{
  Connection, new_manager, arm_timer, clear_timer, unregister,
}
use cossacks_game_server.Gsc.Commands.{
  player_id_of, fresh_session, leave_command, alive, refresh_alive, touch_session,
}
use cossacks_game_server.Gsc.GameCommands.{not_alive}
use cossacks_game_server.Gsc.Dispatch.Disconnecting.{Gone}
use cossacks_game_server.Gsc.Dispatch.Silence.{
  Clock, after, SilentRun, here, next, leave_by, alive_by, fires, waits, SilentRun-Gone,
}

abbrev columns : RowParams
columns = record {
  host_addr_int = 0x0100007F;
  ver = 2;
  title = codes "duel";
  max_players = pos 8;
  level_label = codes "Easy";
  lock_mark = [];
  nick_str = codes "ann";
  ve_type = [];
  is_ac = false;
}

abbrev params : RegisterNewParams
params = record {
  host = some 100;
  host_addr = codes "127.0.0.1";
  password = [];
  level = pos 1;
  columns = columns;
}

-- Player 7 behind the pointer 100.
abbrev alone : Store
alone = record new_store {
  player_heap =
      (
        100,
        record {
          id = 7;
          nick = codes "ann";
          connected_at = 0;
          exited_at = 0;
          account_type = [];
          account_login = [];
          account_id = [];
          account_profile = [];
          nation = 0;
          theam = 0;
          color = 0;
        },
      )
      ∷ [];
}

alone-Inv : Inv alone
alone-Inv =
    let v = Reach-new_store-Inv here in
    record {
      by_id = v.by_id;
      by_host = v.by_host;
      by_sum = v.by_sum;
      summed = v.summed;
      fresh = v.fresh;
    }

-- The room of player 7, opened at the time 10.
abbrev at_ten : Clock
at_ten = record {
  now = 10;
  server = record {
    store = (register_new alone params 10).0;
    manager = arm_timer (new_manager 0) 7 10;
    posts = [];
  };
}

at_ten-Inv : Inv at_ten.server.store
at_ten-Inv = step-Inv alone (10, registers params) alone-Inv

-- Player 8 comes alive at the time 10 and leaves at the time 40.
abbrev guest : Connection
guest = record {
  id = 4;
  ip = codes "127.0.0.1";
  port = pos 4001;
  int_ip = 0;
  ctime = 0;
  session = some (record (fresh_session 10) { player_id = 8 });
  closed = false;
}

guest_other : player_id_of guest ≢ 7
unfolding player_id_of
guest_other = omega arith

abbrev alive_at_ten : Clock
alive_at_ten = after at_ten (alive_by guest 2 [])

abbrev at_forty : Clock
at_forty = after alive_at_ten (waits 40)

abbrev left : Clock
left = after at_forty (leave_by guest 2 [])

abbrev due : ℕ
due = 150000000010

both_timers : alive_at_ten.server.manager.timers ≡ (7, due) ∷ (8, due) ∷ []
unfolding alive refresh_alive arm_timer new_manager touch_session player_id_of insert
both_timers = refl

both_due : (id t : ℕ) → lookup id alive_at_ten.server.manager.timers ≡ some t → t ≡ due
unfolding lookup
both_due id t h = ground (arith, both_timers, rw (both_timers) at h)

host_timer : left.server.manager.timers ≡ (7, due) ∷ []
unfolding alive refresh_alive arm_timer new_manager touch_session player_id_of insert leave_command
    clear_timer erase
host_timer = refl

host_due : (id t : ℕ) → lookup id left.server.manager.timers ≡ some t → t ≡ due
unfolding lookup
host_due id t h = ground (arith, rw (host_timer) at h)

host_armed : lookup 7 left.server.manager.timers ≡ some due
unfolding lookup
host_armed = rw (host_timer) refl

armed : lookup 7 at_ten.server.manager.timers ≡ some due
unfolding lookup arm_timer new_manager insert
armed = refl

no_timers : (after left (fires 7 due)).server.manager.timers ≡ []
unfolding not_alive alive refresh_alive arm_timer new_manager touch_session player_id_of insert
    leave_command clear_timer unregister erase
no_timers = refl

abbrev fired : Clock
fired = after left (fires 7 due)

waited : (id t : ℕ) → lookup id fired.server.manager.timers ≡ some t → 150000000011 ≤ t
unfolding lookup
waited id t h = let none_left = no_timers in ground (arith, rw (no_timers) at h)

run : SilentRun 7 at_ten (after fired (waits 150000000011))
run =
    next
      (next
        (next
          (next (next here (alive_by guest 2 []) tt guest_other) (waits 40)
            (omega arith, λ id t h. omega (arith, both_due id t h)) tt)
          (leave_by guest 2 []) tt guest_other)
        (fires 7 due) (host_armed, (omega arith, λ id t h. omega (arith, host_due id t h))) tt)
      (waits 150000000011) (omega arith, waited) tt

SilentRun-Gone_example : Gone (after fired (waits 150000000011)).server 7
SilentRun-Gone_example =
    SilentRun-Gone 7 due at_ten (after fired (waits 150000000011)) at_ten-Inv armed (omega arith)
      run (omega arith)
