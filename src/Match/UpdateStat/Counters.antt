-- ===== src/Match/UpdateStat/Counters.antt =====
-- The counters of `UpdateStat` in internal/app/match/update_stat.go: what the 16 bits stand for.
use cossacks_game_server.Base.{
  ℕ, ◌+◌, ◌*◌, ◌/◌, ◌%◌, ◌^◌, ◌<◌, ◌≤◌, if◌then◌else◌, ltb, ◌≡◌, refl, arith, ◌⊎◌, inl, inr,
}
use cossacks_game_server.Base.Int.{
  ℤ, pos, negsuc, pos_part, neg_part, ◌+ℤ◌, ◌-ℤ◌, +ℤ_parts, -ℤ_parts, eq_of_parts,
}
use cossacks_game_server.Match.Stat.{diff_u32, sub_u32}
use cossacks_game_server.Match.UpdateStat.{
  next_cycle, unwrap, next_score_cycle, real_scores_of, times_2_16, casuality_change,
}

-- A total that grows by less than 65536 between two samples is known again from its low 16 bits:
-- the cycle that `UpdateStat` keeps is the total's high part, and the sum of both is the total,
-- where the earlier cycle was right and the new total fits a uint32.
pub unwrap-next_cycle :
    (total old : ℕ)
    → old ≤ total
    → total < old + 65536
    → total < 2 ^ 32
    → (next_cycle (total % 65536) old (old / 65536) ≡ total / 65536)
      × (unwrap (total % 65536) (next_cycle (total % 65536) old (old / 65536)) ≡ total)
unfolding next_cycle unwrap sub_u32
unwrap-next_cycle total old h1 h2 h3 = (ground arith, ground arith)

-- The change of the casualities: it is the change of units and peasants less the change of the
-- population, plus 2^32 where the former fell and minus 2^32 where the population fell.
pub casuality_change_parts :
    (population2 old2 population old : ℕ)
    → population2 < 2 ^ 32
    → old2 < 2 ^ 32
    → population < 2 ^ 32
    → old < 2 ^ 32
    → casuality_change population2 old2 population old
        +ℤ pos (if ltb population old then 2 ^ 32 else 0)
      ≡ (pos (population2 + old) -ℤ pos (old2 + population))
        +ℤ pos (if ltb population2 old2 then 2 ^ 32 else 0)
unfolding casuality_change sub_u32 ◌+ℤ◌ ◌-ℤ◌
casuality_change_parts population2 old2 population old h1 h2 h3 h4 = ground arith

one_part : (a : ℤ) → (pos_part a ≡ 0) ⊎ (neg_part a ≡ 0)
one_part (pos n) = inr refl
one_part (negsuc n) = inl refl

times_2_16_parts :
    (c : ℤ)
    → (pos_part (times_2_16 c) ≡ pos_part c * 65536)
      × (neg_part (times_2_16 c) ≡ neg_part c * 65536)
times_2_16_parts (pos n) = (refl, refl)
times_2_16_parts (negsuc n) = (refl, omega arith)

-- The scores, which may fall: where they move by at most 32767 between two samples, the cycle
-- that `UpdateStat` keeps becomes the high part of the new total, so `RealScores` is the total.
pub next_score_cycle-real_scores_of :
    (scores old : ℕ) (cycle cycle' : ℤ)
    → scores < 65536
    → old < 65536
    → pos_part (real_scores_of scores cycle' -ℤ real_scores_of old cycle) ≤ 32767
    → neg_part (real_scores_of scores cycle' -ℤ real_scores_of old cycle) ≤ 32767
    → next_score_cycle scores old cycle ≡ cycle'
unfolding next_score_cycle diff_u32 real_scores_of
next_score_cycle-real_scores_of scores old cycle cycle' h1 h2 h3 h4 =
    let e1 = -ℤ_parts (real_scores_of scores cycle') (real_scores_of old cycle) in
    let e2 = +ℤ_parts (times_2_16 cycle) (pos old) in
    let e3 = +ℤ_parts (times_2_16 cycle') (pos scores) in
    let p1 = times_2_16_parts cycle in
    let p2 = times_2_16_parts cycle' in
    let d = -ℤ_parts (pos scores) (pos old) in
    let down = -ℤ_parts cycle (pos 1) in
    let up = +ℤ_parts cycle (pos 1) in
    let side = one_part (real_scores_of scores cycle' -ℤ real_scores_of old cycle) in
    let side' = one_part (pos scores -ℤ pos old) in eq_of_parts _ _ (ground arith)
