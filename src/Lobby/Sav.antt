-- ===== src/Lobby/Sav.antt =====
-- `savRegexp` and the `strconv.Atoi` behind it: internal/app/lobby/start.go and
-- internal/app/match/start_payload.go.
use Prim.Native.Nat.{◌^◌}
use cossacks_game_server.Base.{
  Option, none, some, [], ◌∷◌, Bytes, codes, if◌then◌else◌, ltb, bytes_eq, is_empty,
}
use cossacks_game_server.Base.Int.{ℤ, pos}
use cossacks_game_server.Base.Numerals.{is_digit, digits_value}
use cossacks_game_server.Base.Strings.{strip_prefix}

-- The longest run of digits at the front, and what is behind it.
unfoldable pub span_digits : Bytes → Bytes × Bytes
span_digits [] = ([], [])
span_digits (c ∷ s) =
    let (run, rest) = span_digits s in if is_digit c then (c ∷ run, rest) else ([], c ∷ s)

-- The digits of `^sav:\[(\d+)\]$`.
unfoldable pub match_sav : Bytes → Option Bytes
unfolding span_digits strip_prefix
match_sav s = elim (strip_prefix (codes "sav:[") s) [
  | none ↦ none
  | some r ↦
      let (run, rest) = span_digits r in
      if is_empty run then none else if bytes_eq rest (codes "]") then some run else none
]

-- `SaveFrom`: 0 where the token does not match or the number does not fit an `int`.
unfoldable pub parse_sav : Bytes → ℤ
unfolding match_sav digits_value
parse_sav s = elim (match_sav s) [
  | none ↦ pos 0
  | some run ↦ let n = digits_value 0 run in if ltb n (2 ^ 63) then pos n else pos 0
]
