-- ===== src/Base/Numerals.antt =====
-- The decimal numerals that Go's `strconv` reads.
use Prim.Native.Nat.{ℕ, zero, suc, ◌+◌, ◌-◌, ◌*◌, ◌^◌}
use mathlib.Core.Bool.{Bool, true, false, ◌&&◌}
use mathlib.Core.List.{[], ◌∷◌}
use mathlib.Core.Option.{Option, none, some}
use cossacks_game_server.Base.Tests.{ltb, leb, ◌==◌, if◌then◌else◌}
use cossacks_game_server.Base.ByteStrings.{Bytes, is_empty}
use cossacks_game_server.Base.Int.{ℤ, pos, negsuc}

abbrev pub is_digit : ℕ → Bool
is_digit c = leb b'0' c && leb c b'9'

unfoldable pub digits_value : ℕ → Bytes → ℕ
digits_value n [] = n
digits_value n (c ∷ s) = digits_value (n * 10 + (c - b'0')) s

unfoldable pub all_digits : Bytes → Bool
all_digits [] = true
all_digits (c ∷ s) = let rest = all_digits s in is_digit c && rest

-- `strconv.ParseUint(s, 10, 32)`; `none` for its errors.
unfoldable pub parse_uint32 : Bytes → Option ℕ
unfolding all_digits digits_value
parse_uint32 s =
    let n = digits_value 0 s in
    if is_empty s then none else if all_digits s && ltb n (2 ^ 32) then some n else none

-- -n, as an integer.
abbrev pub negate : ℕ → ℤ
negate zero = pos 0
negate (suc n) = negsuc n

-- `strconv.Atoi` behind the sign; `none` for its errors.
unfoldable pub atoi_digits : Bool → Bytes → Option ℤ
unfolding all_digits digits_value
atoi_digits minus s =
    let n = digits_value 0 s in
    if is_empty s
    then none
    else if all_digits s
    then if minus
      then if leb n (2 ^ 63) then some (negate n) else none
      else if ltb n (2 ^ 63)
      then some (pos n)
      else none
    else none

unfoldable pub atoi : Bytes → Option ℤ
unfolding atoi_digits
atoi [] = none
atoi (c ∷ s) =
    if c == b'-'
    then atoi_digits true s
    else if c == b'+'
    then atoi_digits false s
    else atoi_digits false (c ∷ s)
