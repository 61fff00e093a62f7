-- ===== src/Base/Format.antt =====
-- The verbs `%d` and `%X` of Go's `fmt`.
use Prim.Native.Nat.{ℕ, zero, suc, ◌+◌, ◌-◌, ◌/◌, ◌%◌}
use mathlib.Core.List.{[], ◌∷◌, ◌++◌}
use cossacks_game_server.Base.Tests.{ltb, if◌then◌else◌}
use cossacks_game_server.Base.ByteStrings.{Bytes}
use cossacks_game_server.Base.Int.{ℤ, pos, negsuc}

abbrev pub digit : ℕ → ℕ
digit d = if ltb d 10 then b'0' + d else b'A' + (d - 10)

-- The digits of `n` to the base, the highest first; `fuel` bounds their number.
unfoldable pub print_base : ℕ → ℕ → ℕ → Bytes
print_base base zero n = []
print_base base (suc fuel) n =
    let more = print_base base fuel (n / base) in
    if ltb n base then digit n ∷ [] else more ++ digit (n % base) ∷ []

-- A uint64 has at most twenty decimal digits.
unfoldable pub print_uint : ℕ → Bytes
unfolding print_base
print_uint n = print_base 10 20 n

unfoldable pub print_hex : ℕ → Bytes
unfolding print_base
print_hex n = print_base 16 20 n

unfoldable pub print_int : ℤ → Bytes
unfolding print_uint
print_int (pos n) = print_uint n
print_int (negsuc n) = b'-' ∷ print_uint (suc n)
