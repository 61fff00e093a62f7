-- ===== src/Gsc/Connectivity.antt =====
-- internal/app/connectivity/manager.go and store.go, internal/domain/session/session.go and
-- internal/transport/tconn/conn.go.
use cossacks_game_server.Base.{
  ℕ, ◌+◌, Bool, true, false, Option, none, some, [], Bytes, if◌then◌else◌, ◌==◌,
}
use cossacks_game_server.Base.Int.{ℤ}
use cossacks_game_server.Base.Maps.{lookup, insert, erase}
use cossacks_game_server.Identity.Service.{Account}
use cossacks_game_server.Rooms.{Map, Time}

-- identity.AccountInfo, whose fields are those of an account of the account server.
abbrev pub AccountInfo : Type 0
AccountInfo = Account

pub record Session : Type 0 where
  pub account : Option AccountInfo
  pub player_id : ℕ
  pub nick : Bytes
  pub window_w : ℤ
  pub window_h : ℤ
  pub dev : Bool
  pub room_id : ℕ
  pub alive_at : Time

-- `closed` where the context is cancelled.
pub record Connection : Type 0 where
  pub id : ℕ
  pub ip : Bytes
  pub port : ℤ
  pub int_ip : ℕ
  pub ctime : Time
  pub session : Option Session
  pub closed : Bool

-- A timer is the time it fires at; a connection is known by its id.
pub record Manager : Type 0 where
  pub timers : Map Time
  pub by_id : Map ℕ
  pub ttl : Time

-- `NewManager`: 150 seconds, in nanoseconds, where no positive duration is given.
unfoldable pub new_manager : Time → Manager
new_manager ttl = record { timers = []; by_id = []; ttl = if ttl == 0 then 150000000000 else ttl }

-- `ArmTimer` at the time `now`: the earlier timer is stopped.
unfoldable pub arm_timer : Manager → ℕ → Time → Manager
arm_timer m player_id now = record m { timers = insert player_id (now + m.ttl) m.timers }

unfoldable pub clear_timer : Manager → ℕ → Manager
clear_timer m player_id = record m { timers = erase player_id m.timers }

unfoldable pub register_conn : Manager → ℕ → ℕ → Manager
register_conn m player_id conn = record m { by_id = insert player_id conn m.by_id }

unfoldable pub unregister : Manager → ℕ → Manager
unregister m player_id = record m { by_id = erase player_id m.by_id }

unfoldable pub conn_of : Manager → ℕ → Option ℕ
conn_of m player_id = lookup player_id m.by_id

unfoldable pub has_timer : Manager → ℕ → Bool
has_timer m player_id = elim (lookup player_id m.timers) [ none ↦ false | some _ ↦ true ]

unfoldable pub set_ttl : Manager → Time → Manager
set_ttl m ttl = if ttl == 0 then m else record m { ttl = ttl }
