-- ===== src/Render/TimeInterval.antt =====
-- internal/render/time_interval.go, and `Format` of Go's `time` for the one layout of the views.
use Prim.Native.Nat.{◌/◌, ◌%◌}
use cossacks_game_server.Base.{
  ℕ, ◌+◌, ◌-◌, ◌*◌, ◌≤◌, ◌<◌, ◌||◌, List, [], ◌∷◌, ◌++◌, Bytes, codes, if◌then◌else◌, ltb, leb,
  ◌==◌, arith, map,
}
use cossacks_game_server.Base.Int.{ℤ, pos, negsuc}
use cossacks_game_server.Base.Format.{print_uint}
use cossacks_game_server.Base.Strings.{join}
use cossacks_game_server.Rooms.{Time}

-- An amount, and its unit.
abbrev pub Part : Type 0
Part = ℕ × ℕ

-- The parts that are appended, each where it is not 0, up to the early return that ends them.
unfoldable pub interval_parts : ℕ → List Part
interval_parts secs =
    let d = secs / 86400 in
    let h = secs % 86400 / 3600 in
    let m = secs % 86400 % 3600 / 60 in
    let s = secs % 86400 % 3600 % 60 in
    let part : ℕ → ℕ → List Part =
      λ amount unit. if ltb 0 amount then (amount, unit) ∷ [] else [] in
    if ltb 0 d
    then part d b'd' ++ part h b'h'
    else if ltb 0 h || leb 10 m
    then part h b'h' ++ part m b'm'
    else part m b'm' ++ part s b's'

unfoldable pub print_part : Part → Bytes
unfolding print_uint
print_part (amount, unit) = print_uint amount ++ unit ∷ []

abbrev pub seconds_of : ℤ → ℕ
seconds_of (pos n) = n
seconds_of (negsuc n) = 0

abbrev pub zero_or : List Part → Bytes
zero_or [] = codes "0s"
zero_or (p ∷ ps) = join b' ' (map print_part (p ∷ ps))

-- `TimeIntervalFromElapsedSec`.
unfoldable pub time_interval_from_elapsed_sec : ℤ → Bytes
unfolding interval_parts print_part join
time_interval_from_elapsed_sec secs = zero_or (interval_parts (seconds_of secs))

-- `int(time.Since(base).Seconds())` at the time `now`; before `base` it is below 0, which reads as 0.
abbrev pub elapsed_secs : Time → Time → ℤ
elapsed_secs now base = pos ((now - base) / 1000000000)

abbrev pub unit_secs : ℕ → ℕ
unit_secs unit =
    if unit == b'd' then 86400 else if unit == b'h' then 3600 else if unit == b'm' then 60 else 1

-- The seconds that the parts stand for.
abbrev pub total : List Part → ℕ
total [] = 0
total ((amount, unit) ∷ ps) = amount * unit_secs unit + total ps

-- What may be left out: less than an hour from a day on, less than a minute from ten minutes on, and
-- nothing below.
abbrev pub precision : ℕ → ℕ
precision secs = if leb 86400 secs then 3600 else if leb 600 secs then 60 else 1

-- The parts stand for no more than the interval, and for less by less than its precision.
pub total-interval_parts :
    (secs : ℕ)
    → (total (interval_parts secs) ≤ secs) × (secs < total (interval_parts secs) + precision secs)
unfolding interval_parts
total-interval_parts secs = ground arith

-- A number in two digits at least.
unfoldable pub two_digits : ℕ → Bytes
unfolding print_uint
two_digits n = if ltb n 10 then b'0' ∷ print_uint n else print_uint n

abbrev four_digits : ℕ → Bytes
four_digits n = two_digits (n / 100) ++ two_digits (n % 100)

-- The year, the month and the day of a count of days since the epoch.
unfoldable pub civil : ℕ → ℕ × ℕ × ℕ
civil days =
    let z = days + 719468 in
    let era = z / 146097 in
    let doe = z % 146097 in
    let yoe = (doe - doe / 1460 + doe / 36524 - doe / 146096) / 365 in
    let doy = doe - (365 * yoe + yoe / 4 - yoe / 100) in
    let mp = (5 * doy + 2) / 153 in
    let day = doy - (153 * mp + 2) / 5 + 1 in
    let month = if ltb mp 10 then mp + 3 else mp - 9 in
    ((if leb month 2 then yoe + era * 400 + 1 else yoe + era * 400), month, day)

-- `t.UTC().Format("2006-01-02 15:04:05 UTC")`.
unfoldable pub format_utc : Time → Bytes
unfolding two_digits civil
format_utc t =
    let secs = t / 1000000000 in
    let (year, month, day) = civil (secs / 86400) in
    let clock = secs % 86400 in
    let text =
      four_digits year
      ++ b'-' ∷ two_digits month
      ++ b'-' ∷ two_digits day
      ++ b' ' ∷ two_digits (clock / 3600)
      ++ b':' ∷ two_digits (clock % 3600 / 60)
      ++ b':' ∷ two_digits (clock % 60)
      ++ codes " UTC" in
    if t == 0 then codes "0001-01-01 00:00:00 UTC" else text
