-- ===== src/Match/Rolling.antt =====
-- `updateRolling` of internal/app/match/update_stat.go: the rate of change over a window of ticks.
use cossacks_game_server.Base.{
  ℕ, ◌^◌, ◌<◌, ◌≤◌, List, [], ◌∷◌, ◌++◌, if◌then◌else◌, ltb, ◌==◌, All, ◌≡◌, refl, arith,
}
use cossacks_game_server.Base.Int.{pos}
use cossacks_game_server.Match.Stat.{Floats, StatHistoryPoint, diff_u32, sub_u32}

-- `StatHistory["change_" + name]` and `StatSum["sum_" + name]`; a missing sum is 0.
pub record Rolling (F : Type 0) : Type 0 where
  pub history : List (StatHistoryPoint F)
  pub sum : F

module _ {F : Type 0} (fl : Floats F) where
  -- The points before the cutoff leave the history, and the sum.
  unfoldable pub expire : ℕ → List (StatHistoryPoint F) → F → Rolling F
  expire cutoff [] sum = record { history = []; sum = sum }
  expire cutoff (point ∷ history) sum =
      let later = expire cutoff history (fl.minus sum point.change) in
      if ltb point.time cutoff then later else record { history = point ∷ history; sum = sum }

  -- The denominator is a uint32, so it is at most 0 only where it is 0.
  unfoldable pub rate : ℕ → List (StatHistoryPoint F) → (sum coef : F) → F
  unfolding sub_u32
  rate time [] sum coef = fl.of_int (pos 0)
  rate time (first ∷ _) sum coef =
      let ticks = sub_u32 time (sub_u32 first.time first.interval) in
      fl.times (fl.over sum (fl.of_int (pos (if ticks == 0 then 1 else ticks)))) coef

  -- `window` and `coef` are the entries of `intervals` and `coefs`.
  unfoldable pub update_rolling :
      (window : ℕ) (coef : F) (time interval cur prev : ℕ) → Rolling F → Rolling F × F
  unfolding expire rate sub_u32 diff_u32
  update_rolling window coef time interval cur prev rolling =
      let change = fl.of_int (diff_u32 cur prev) in
      let point : StatHistoryPoint F = record {
        change = change;
        time = time;
        interval = interval;
      } in
      let after =
        expire (sub_u32 time window) (rolling.history ++ point ∷ []) (fl.plus rolling.sum change) in
      (after, rate time after.history after.sum coef)

  abbrev NotAfter : ℕ → StatHistoryPoint F → Type 0
  NotAfter time point = point.time ≤ time

  expire_every :
      (cutoff time : ℕ) (history : List (StatHistoryPoint F)) (sum : F)
      → time < cutoff
      → All (NotAfter time) history
      → (expire cutoff history sum).history ≡ []
  unfolding expire
  expire_every cutoff time [] sum h all = refl
  expire_every cutoff time (point ∷ history) sum h (le, all) =
      ground (arith, expire_every cutoff time history (fl.minus sum point.change) h all)

  All-snoc :
      (time : ℕ) (history : List (StatHistoryPoint F)) (point : StatHistoryPoint F)
      → All (NotAfter time) history
      → point.time ≤ time
      → All (NotAfter time) (history ++ point ∷ [])
  All-snoc time [] point all le = (le, tt)
  All-snoc time (p ∷ history) point (h, all) le = (h, All-snoc time history point all le)

  sub_u32_wraps : (time window : ℕ) → time < window → window < 2 ^ 32 → time < sub_u32 time window
  unfolding sub_u32
  sub_u32_wraps time window h small = omega arith

  rate_nil :
      (time : ℕ) (history : List (StatHistoryPoint F)) (sum coef : F)
      → history ≡ []
      → rate time history sum coef ≡ fl.of_int (pos 0)
  unfolding rate
  rate_nil time [] sum coef h = refl
  rate_nil time (p ∷ history) sum coef h = cc

  -- A sample whose time, in ticks from the start of the game, is below the window of a series:
  -- the cutoff goes round below 0, so the whole history is dropped, the new point with it, and
  -- the rate is 0, whatever changed. The points of the history are not after the sample.
  pub update_rolling_early :
      (window : ℕ) (coef : F) (time interval cur prev : ℕ) (rolling : Rolling F)
      → time < window
      → window < 2 ^ 32
      → All (λ point. point.time ≤ time) rolling.history
      → ((update_rolling window coef time interval cur prev rolling).0.history ≡ [])
        × ((update_rolling window coef time interval cur prev rolling).1 ≡ fl.of_int (pos 0))
  unfolding update_rolling
  update_rolling_early window coef time interval cur prev rolling h small all =
      let point : StatHistoryPoint F = record {
        change = fl.of_int (diff_u32 cur prev);
        time = time;
        interval = interval;
      } in
      let gone =
        expire_every (sub_u32 time window) time (rolling.history ++ point ∷ [])
          (fl.plus rolling.sum point.change) (sub_u32_wraps time window h small)
          (All-snoc time rolling.history point all (omega arith)) in
      (gone, rate_nil time _ _ coef gone)
