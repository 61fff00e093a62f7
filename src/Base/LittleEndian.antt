-- ===== src/Base/LittleEndian.antt =====
-- encoding/binary, little endian: `put_le w n` writes the value modulo `256 ^ w`.
use Prim.Native.Nat.{ℕ, zero, suc, ◌+◌, ◌*◌, ◌/◌, ◌%◌, ◌^◌, ◌<◌}
use mathlib.Core.List.{[], ◌∷◌}
use mathlib.Core.Path.{◌≡◌, refl, ap}
use native.Mathlib.Omega.{arith}
use native.Mathlib.Nat.{pow-suc}
use cossacks_game_server.Base.Lists.{length, All}
use cossacks_game_server.Base.ByteStrings.{Bytes}

unfoldable pub put_le : ℕ → ℕ → Bytes
put_le zero n = []
put_le (suc w) n = (n % 256) ∷ put_le w (n / 256)

unfoldable pub get_le : Bytes → ℕ
get_le [] = 0
get_le (b ∷ bs) = b + 256 * get_le bs

pub length-put_le : (w n : ℕ) → length (put_le w n) ≡ w
unfolding put_le
length-put_le zero n = refl
length-put_le (suc w) n = ap suc (length-put_le w (n / 256))

-- What fits the width is read back.
pub get_le-put_le : (w n : ℕ) → n < 256 ^ w → get_le (put_le w n) ≡ n
unfolding get_le put_le
get_le-put_le zero n h = omega (arith)
get_le-put_le (suc w) n h = omega (arith, pow-suc 256 w, get_le-put_le w (n / 256))

abbrev pub IsByte : ℕ → Type 0
IsByte b = b < 256

-- Bytes are written back as they were read.
pub put_le-get_le : (bs : Bytes) → All IsByte bs → put_le (length bs) (get_le bs) ≡ bs
unfolding get_le put_le
put_le-get_le [] h = refl
put_le-get_le (b ∷ bs) (hb, hbs) = ground (arith, put_le-get_le bs hbs)

pub get_le-lt : (bs : Bytes) → All IsByte bs → get_le bs < 256 ^ length bs
unfolding get_le
get_le-lt [] h = omega arith
get_le-lt (b ∷ bs) (hb, hbs) = omega (arith, pow-suc 256 (length bs), get_le-lt bs hbs)
