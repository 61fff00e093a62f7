-- ===== src/Match/IntArg.antt =====
-- `IntArg` of internal/app/match/start_payload.go, and the conversions from `int` to `uint32`.
use cossacks_game_server.Base.{
  ℕ, ◌-◌, ◌%◌, ◌^◌, Bool, true, false, ◌&&◌, Option, none, some, [], ◌∷◌, Bytes, if◌then◌else◌,
  ◌==◌, leb, ltb, is_empty,
}
use cossacks_game_server.Base.Int.{ℤ, pos, negsuc}
use cossacks_game_server.Base.Strings.{trim_space, trim_right}
use cossacks_game_server.Base.Numerals.{is_digit, digits_value, negate}
use cossacks_game_server.Lobby.Sav.{span_digits}

-- The first match of `-?\d+`: whether it has the sign, and its digits.
unfoldable pub find_int : Bytes → Option (Bool × Bytes)
unfolding span_digits
find_int [] = none
find_int (c ∷ s) =
    let later = find_int s in
    let here = (span_digits (c ∷ s)).0 in
    let behind = (span_digits s).0 in
    if is_digit c
    then some (false, here)
    else if c == b'-' && (if is_empty behind then false else true)
    then some (true, behind)
    else later

-- `strconv.Atoi` of a match: out of range it is the nearest `int`, with an error.
unfoldable pub atoi_match : Bool × Bytes → ℤ × Bool
unfolding digits_value
atoi_match (true, run) =
    let n = digits_value 0 run in
    if leb n (2 ^ 63) then (negate n, true) else (negate (2 ^ 63), false)
atoi_match (false, run) =
    let n = digits_value 0 run in
    if ltb n (2 ^ 63) then (pos n, true) else (pos (2 ^ 63 - 1), false)

-- `IntArg`: the number, and whether the error is nil.
unfoldable pub int_arg : Bytes → ℤ × Bool
unfolding find_int atoi_match trim_space
int_arg s = elim (find_int (trim_right (λ c. c == 0) (trim_space s))) [
  | none ↦ (pos 0, false)
  | some m ↦ atoi_match m
]

-- `uint32(i)` and `uint32(int32(i))`: the low 32 bits.
unfoldable pub to_u32 : ℤ → ℕ
to_u32 (pos n) = n % 2 ^ 32
to_u32 (negsuc n) = 2 ^ 32 - 1 - n % 2 ^ 32
