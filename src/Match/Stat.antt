-- ===== src/Match/Stat.antt =====
-- internal/domain/match: the STAT sample, and `DecodeStat`, `OldStat`, `DiffU32` of
-- internal/app/match/service.go. `F` stands for float64.
use Prim.Native.Nat.{◌%◌, ◌^◌}
use cossacks_game_server.Base.{
  ℕ, ◌+◌, ◌-◌, Option, none, some, Bytes, if◌then◌else◌, ltb, length, take, drop,
}
use cossacks_game_server.Base.Int.{ℤ, pos, ◌-ℤ◌}
use cossacks_game_server.Base.LittleEndian.{get_le}

pub data StatRejection : Type 0 where
  stat_applied : StatRejection
  stat_reject_short_buffer : StatRejection
  stat_reject_player_mismatch : StatRejection
  stat_reject_tick_ahead : StatRejection

-- The arithmetic of float64 that the source uses.
pub record Floats (F : Type 0) : Type 0 where
  pub of_int : ℤ → F
  pub plus : F → F → F
  pub minus : F → F → F
  pub times : F → F → F
  pub over : F → F → F

pub record PlayerStat (F : Type 0) : Type 0 where
  pub time : ℕ
  pub pc : ℕ
  pub player_id : ℕ
  pub status : ℕ
  pub scores : ℕ
  pub real_scores : ℤ
  pub population : ℕ
  pub wood : ℕ
  pub gold : ℕ
  pub stone : ℕ
  pub food : ℕ
  pub iron : ℕ
  pub coal : ℕ
  pub peasants : ℕ
  pub units : ℕ
  pub population2 : ℕ
  pub casuality : ℤ
  pub change_wood : F
  pub change_stone : F
  pub change_food : F
  pub change_gold : F
  pub change_iron : F
  pub change_coal : F
  pub change_peas : F
  pub change_units : F
  pub change_pop2 : F

pub record PlayerStatCycle : Type 0 where
  pub peasants : ℕ
  pub units : ℕ
  pub scores : ℤ

pub record StatHistoryPoint (F : Type 0) : Type 0 where
  pub change : F
  pub time : ℕ
  pub interval : ℕ

-- `binary.LittleEndian` on `raw[from:from+width]`.
unfoldable pub field : Bytes → ℕ → ℕ → ℕ
unfolding get_le
field raw from width = get_le (take width (drop from raw))

-- A fresh `PlayerStat` has zeros in the fields that are not decoded.
unfoldable pub decode_stat : {F : Type 0} → Floats F → Bytes → Option (PlayerStat F)
unfolding field
decode_stat fl raw =
    if ltb (length raw) 42
    then none
    else some (record {
      time = field raw 0 4;
      pc = field raw 4 1;
      player_id = field raw 5 4;
      status = field raw 9 1;
      scores = field raw 10 2;
      real_scores = pos 0;
      population = field raw 12 2;
      wood = field raw 14 4;
      gold = field raw 18 4;
      stone = field raw 22 4;
      food = field raw 26 4;
      iron = field raw 30 4;
      coal = field raw 34 4;
      peasants = field raw 38 2;
      units = field raw 40 2;
      population2 = 0;
      casuality = pos 0;
      change_wood = fl.of_int (pos 0);
      change_stone = fl.of_int (pos 0);
      change_food = fl.of_int (pos 0);
      change_gold = fl.of_int (pos 0);
      change_iron = fl.of_int (pos 0);
      change_coal = fl.of_int (pos 0);
      change_peas = fl.of_int (pos 0);
      change_units = fl.of_int (pos 0);
      change_pop2 = fl.of_int (pos 0);
    })

-- `OldStat`: the earlier sample, or one made from the current sample.
unfoldable pub old_stat :
    {F : Type 0} → Floats F → Option (PlayerStat F) → PlayerStat F → PlayerStat F
old_stat fl (some prev) cur = prev
old_stat fl none cur = record cur {
  time = 0;
  real_scores = pos 0;
  population2 = (cur.units + cur.peasants) % 2 ^ 32;
  casuality = pos 0;
  change_wood = fl.of_int (pos 0);
  change_stone = fl.of_int (pos 0);
  change_food = fl.of_int (pos 0);
  change_gold = fl.of_int (pos 0);
  change_iron = fl.of_int (pos 0);
  change_coal = fl.of_int (pos 0);
  change_peas = fl.of_int (pos 0);
  change_units = fl.of_int (pos 0);
  change_pop2 = fl.of_int (pos 0);
}

-- `DiffU32`: a difference of two uint32, with its sign.
unfoldable pub diff_u32 : ℕ → ℕ → ℤ
diff_u32 cur prev = pos cur -ℤ pos prev

-- `a - b` on uint32.
unfoldable pub sub_u32 : ℕ → ℕ → ℕ
sub_u32 a b = (a + (2 ^ 32 - b % 2 ^ 32)) % 2 ^ 32
