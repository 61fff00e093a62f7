-- ===== src/Match/Examples.antt =====
-- STAT samples, and the players of a started room, at concrete inputs.
use cossacks_game_server.Base.{
  ◌+◌, ◌*◌, ◌/◌, ◌%◌, ◌^◌, ◌≤◌, true, false, Option, some, List, [], ◌∷◌, Bytes, codes,
  if◌then◌else◌, ltb, length, All, ◌≡◌, refl, arith,
}
use cossacks_game_server.Base.Int.{ℤ, pos, negsuc, ◌+ℤ◌, ◌-ℤ◌}
use cossacks_game_server.Base.Strings.{trim_right}
use cossacks_game_server.Base.Maps.{lookup}
use cossacks_game_server.Rooms.{Ref, Map, new_store}
use cossacks_game_server.Match.IntArg.{int_arg, to_u32}
use cossacks_game_server.Match.Stat.{Floats, diff_u32, sub_u32}
use cossacks_game_server.Match.Rolling.{Rolling, update_rolling, update_rolling_early}
use cossacks_game_server.Match.StartedUsers.{seat_users}
use cossacks_game_server.Match.StartedUsers.Seating.{MemberOf, seat_users-members}
use cossacks_game_server.Match.UpdateStat.{
  next_cycle, unwrap, next_score_cycle, real_scores_of, casuality_change,
}
use cossacks_game_server.Match.UpdateStat.Counters.{
  unwrap-next_cycle, casuality_change_parts, next_score_cycle-real_scores_of,
}

int_arg_examples :
    (int_arg (codes "game=10") ≡ (pos 10, true))
    × (int_arg (codes "pid=-1") ≡ (negsuc 0, true))
    × (int_arg (codes "x-y") ≡ (pos 0, false))
unfolding int_arg trim_right
int_arg_examples = (refl, refl, refl)

-- Arithmetic on integers in the place of float64.
abbrev ints : Floats ℤ
ints = record {
  of_int = λ n. n;
  plus = λ a b. a +ℤ b;
  minus = λ a b. a -ℤ b;
  times = λ a b. a;
  over = λ a b. a;
}

abbrev no_history : Rolling ℤ
no_history = record { history = []; sum = pos 0 }

abbrev one_point : Rolling ℤ
one_point = record {
  history = record { change = pos 5; time = 25; interval = 25 } ∷ [];
  sum = pos 5;
}

update_rolling_late : (update_rolling ints 1500 (pos 1) 2000 25 30 10 no_history).1 ≡ pos 20
unfolding update_rolling sub_u32 diff_u32 ◌+ℤ◌ ◌-ℤ◌
update_rolling_late = refl

update_rolling_early_example :
    ((update_rolling ints 1500 (pos 1) 100 75 30 10 one_point).0.history ≡ [])
    × ((update_rolling ints 1500 (pos 1) 100 75 30 10 one_point).1 ≡ pos 0)
update_rolling_early_example =
    update_rolling_early ints 1500 (pos 1) 100 75 30 10 one_point (omega arith) (omega arith)
      (omega arith, tt)

unwrap-next_cycle_example :
    (next_cycle (70000 % 65536) 65000 (65000 / 65536) ≡ 70000 / 65536)
    × (unwrap (70000 % 65536) (next_cycle (70000 % 65536) 65000 (65000 / 65536)) ≡ 70000)
unwrap-next_cycle_example = unwrap-next_cycle 70000 65000 (omega arith) (omega arith) (omega arith)

-- The population falls by ten, and so do the casualities, by 2^32 less ten.
casuality_falls : casuality_change 100 100 50 60 ≡ negsuc 4294967285
unfolding casuality_change sub_u32 ◌-ℤ◌
casuality_falls = refl

casuality_change_parts_example :
    casuality_change 100 100 50 60 +ℤ pos (if ltb 50 60 then 2 ^ 32 else 0)
    ≡ (pos (100 + 60) -ℤ pos (100 + 50)) +ℤ pos (if ltb 100 100 then 2 ^ 32 else 0)
casuality_change_parts_example =
    casuality_change_parts 100 100 50 60 (omega arith) (omega arith) (omega arith) (omega arith)

scores_step : real_scores_of 10 (pos 1) -ℤ real_scores_of 65530 (pos 0) ≡ pos 16
unfolding real_scores_of ◌-ℤ◌ ◌+ℤ◌
scores_step = refl

next_score_cycle-real_scores_of_example : next_score_cycle 10 65530 (pos 0) ≡ pos 1
next_score_cycle-real_scores_of_example =
    next_score_cycle-real_scores_of 10 65530 (pos 0) (pos 1) (omega arith) (omega arith)
      (rw (scores_step) (omega arith)) (rw (scores_step) (omega arith))

abbrev two_members : Map (Option Ref)
two_members = (7, some 0) ∷ (8, some 1) ∷ []

abbrev tuples : List Bytes
tuples =
    codes "8"
    ∷ codes "1"
    ∷ codes "0"
    ∷ codes "3"
    ∷ codes "9"
    ∷ codes "1"
    ∷ codes "0"
    ∷ codes "4"
    ∷ []

seat_users_example : (seat_users new_store two_members 2 tuples).1 ≡ 1 ∷ []
unfolding seat_users int_arg new_store trim_right lookup to_u32
seat_users_example = refl

seat_users-members_example :
    (length (seat_users new_store two_members 2 tuples).1 ≤ 2)
    × (4 * length (seat_users new_store two_members 2 tuples).1 ≤ length tuples)
    × All (MemberOf two_members) (seat_users new_store two_members 2 tuples).1
seat_users-members_example = seat_users-members new_store two_members 2 tuples
