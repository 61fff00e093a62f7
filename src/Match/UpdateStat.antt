-- ===== src/Match/UpdateStat.antt =====
-- `UpdateStat` of internal/app/match/update_stat.go: a sample updates its player and room.
pub mod Counters
use cossacks_game_server.Base.{
  ℕ, zero, suc, ◌+◌, ◌-◌, ◌*◌, ◌%◌, ◌^◌, Bool, true, false, not, ◌&&◌, Option, none, some, List, [],
  ◌∷◌, Bytes, if◌then◌else◌, ltb, ◌==◌,
}
use cossacks_game_server.Base.Int.{ℤ, pos, negsuc, pos_part, neg_part, ◌+ℤ◌, ◌-ℤ◌, ltb_ℤ}
use cossacks_game_server.Rooms.{Player, Room}
use cossacks_game_server.Match.Stat.{
  Floats, PlayerStat, PlayerStatCycle, StatRejection, stat_applied, stat_reject_short_buffer,
  stat_reject_player_mismatch, stat_reject_tick_ahead, decode_stat, old_stat, diff_u32, sub_u32,
}
use cossacks_game_server.Match.Rolling.{Rolling, update_rolling}

-- The keys of `StatHistory` and `StatSum`; a nil map is a record of empty series.
pub record Series (F : Type 0) : Type 0 where
  pub wood : Rolling F
  pub food : Rolling F
  pub stone : Rolling F
  pub peasants : Rolling F
  pub units : Rolling F
  pub population2 : Rolling F

-- A player with the fields of player.Player that hold its STAT history.
pub record Tracked (F : Type 0) : Type 0 where
  pub player : Player
  pub zombie : Bool
  pub time_tick : ℕ
  pub stat : Option (PlayerStat F)
  pub stat_cycle : PlayerStatCycle
  pub series : Series F

-- A counter of 16 bits went round when it reads less than before; the cycles are a uint32.
unfoldable pub next_cycle : (raw old cycle : ℕ) → ℕ
unfolding sub_u32
next_cycle raw old cycle =
    if ltb raw (sub_u32 old (cycle * 2 ^ 16 % 2 ^ 32)) then (cycle + 1) % 2 ^ 32 else cycle

unfoldable pub unwrap : (raw cycle : ℕ) → ℕ
unwrap raw cycle = (raw + cycle * 2 ^ 16 % 2 ^ 32) % 2 ^ 32

-- The scores may fall: a jump by more than 0x7FFF is the counter going round. `AbsI64` is exact
-- on a difference of two uint32.
unfoldable pub next_score_cycle : (scores old : ℕ) (cycle : ℤ) → ℤ
unfolding diff_u32
next_score_cycle scores old cycle =
    let change = diff_u32 scores old in
    if ltb 32767 (pos_part change)
    then cycle -ℤ pos 1
    else if ltb 32767 (neg_part change)
    then cycle +ℤ pos 1
    else cycle

abbrev pub times_2_16 : ℤ → ℤ
times_2_16 (pos n) = pos (n * 2 ^ 16)
times_2_16 (negsuc n) = negsuc (suc n * 2 ^ 16 - 1)

unfoldable pub real_scores_of : (scores : ℕ) (cycle : ℤ) → ℤ
real_scores_of scores cycle = times_2_16 cycle +ℤ pos scores

-- `casualityChange`: each difference is a uint32 before it becomes an int64.
unfoldable pub casuality_change : (population2 old2 population old : ℕ) → ℤ
unfolding sub_u32
casuality_change population2 old2 population old =
    pos (sub_u32 population2 old2) -ℤ pos (sub_u32 population old)

-- The first started player of the same team, for the color of a zombie.
unfoldable pub team_mate : Player → List Player → Option Player
team_mate player [] = none
team_mate player (started ∷ users) =
    let later = team_mate player users in
    if not (started.id == player.id) && started.theam == player.theam then some started else later

module _ {F : Type 0} (fl : Floats F) where
  -- The first sample, of no scores and no population, makes a zombie.
  unfoldable pub inherit_color : List Player → PlayerStat F → Tracked F → Tracked F
  unfolding team_mate
  inherit_color users sample t = elim t.stat [
    | some _ ↦ t
    | none ↦
        if sample.scores == 0 && sample.population == 0
        then elim (team_mate t.player users) [
          | none ↦ t
          | some started ↦ record t {
            player = record t.player { color = started.color };
            zombie = true;
          }
        ]
        else t
  ]

  -- `(diff / interval) * 25 / 2`.
  unfoldable pub flow : (cur prev interval : ℕ) → F
  unfolding diff_u32
  flow cur prev interval =
      fl.over
        (fl.times (fl.over (fl.of_int (diff_u32 cur prev)) (fl.of_int (pos interval)))
          (fl.of_int (pos 25)))
        (fl.of_int (pos 2))

  abbrev pub half_of_25 : F
  half_of_25 = fl.over (fl.of_int (pos 25)) (fl.of_int (pos 2))

  -- The body behind the guards, on a sample whose time is not before the player's.
  unfoldable pub apply_stat : List Player → PlayerStat F → Tracked F → Tracked F
  unfolding inherit_color flow next_cycle unwrap next_score_cycle real_scores_of casuality_change
  apply_stat users sample t =
      let old = old_stat fl t.stat sample in
      let t1 = inherit_color users sample t in
      let cycle : PlayerStatCycle = record {
        peasants = next_cycle sample.peasants old.peasants t.stat_cycle.peasants;
        units = next_cycle sample.units old.units t.stat_cycle.units;
        scores = next_score_cycle sample.scores old.scores t.stat_cycle.scores;
      } in
      let peasants = unwrap sample.peasants cycle.peasants in
      let units = unwrap sample.units cycle.units in
      let population2 = (units + peasants) % 2 ^ 32 in
      let ticks = sub_u32 sample.time t.time_tick in
      let interval = if ticks == 0 then 1 else ticks in
      let roll : ℕ → F → ℕ → ℕ → Rolling F → Rolling F × F = λ window coef cur prev series.
        update_rolling fl window coef sample.time interval cur prev series in
      let (wood, change_wood) = roll 1500 (half_of_25) sample.wood old.wood t.series.wood in
      let (food, change_food) = roll 3000 (half_of_25) sample.food old.food t.series.food in
      let (stone, change_stone) = roll 1500 (half_of_25) sample.stone old.stone t.series.stone in
      let (peas, change_peas) =
        roll 600 (fl.of_int (pos 200)) peasants old.peasants t.series.peasants in
      let (unit, change_units) = roll 1000 (fl.of_int (pos 50)) units old.units t.series.units in
      let (pop2, change_pop2) =
        roll 1000 (fl.of_int (pos 50)) population2 old.population2 t.series.population2 in
      record t1 {
        time_tick = sample.time;
        stat_cycle = cycle;
        series = record {
          wood = wood;
          food = food;
          stone = stone;
          peasants = peas;
          units = unit;
          population2 = pop2;
        };
        stat = some (record sample {
          peasants = peasants;
          units = units;
          real_scores = real_scores_of sample.scores cycle.scores;
          population2 = population2;
          casuality =
              old.casuality
              +ℤ casuality_change population2 old.population2 sample.population old.population;
          change_gold = flow sample.gold old.gold interval;
          change_iron = flow sample.iron old.iron interval;
          change_coal = flow sample.coal old.coal interval;
          change_wood = change_wood;
          change_food = change_food;
          change_stone = change_stone;
          change_peas = change_peas;
          change_units = change_units;
          change_pop2 = change_pop2;
        });
      }

  -- `UpdateStat` on pointers that are not nil; `users` are the started players of the room.
  unfoldable pub update_stat :
      List Player → Tracked F → Room → Bytes → StatRejection × Tracked F × Room
  unfolding apply_stat
  update_stat users t room raw = elim (decode_stat fl raw) [
    | none ↦ (stat_reject_short_buffer, t, room)
    | some sample ↦
        let ticked =
          if ltb room.time_tick sample.time
          then record room { time_tick = sample.time }
          else room in
        if not (sample.player_id == t.player.id)
        then (stat_reject_player_mismatch, t, room)
        else if ltb sample.time t.time_tick
        then (stat_reject_tick_ahead, t, ticked)
        else (stat_applied, apply_stat users sample t, ticked)
  ]
