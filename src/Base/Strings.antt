-- ===== src/Base/Strings.antt =====
-- The functions of Go's `strings` and `strconv` that the server calls, over lists of bytes.
use cossacks_game_server.Base.Tests.{leb, ◌==◌, if◌then◌else◌}
use cossacks_game_server.Base.ByteStrings.{Bytes, Lacks}
use Prim.Native.Nat.{ℕ, ◌+◌, ◌-◌}
use mathlib.Core.Bool.{Bool, ◌&&◌, ◌||◌}
use mathlib.Core.List.{List, [], ◌∷◌, ◌++◌, reverse}
use mathlib.Core.Option.{Option, none, some}
use mathlib.Core.Path.{◌≡◌, refl}
use native.Mathlib.Omega.{arith}

cons_head : ℕ → List Bytes → List Bytes
cons_head c [] = (c ∷ []) ∷ []
cons_head c (p ∷ ps) = (c ∷ p) ∷ ps

-- `strings.Split` by one byte.
unfoldable pub split : ℕ → Bytes → List Bytes
unfolding cons_head
split sep [] = [] ∷ []
split sep (c ∷ s) = let rest = split sep s in if c == sep then [] ∷ rest else cons_head c rest

-- `strings.Join` with one byte between the parts.
unfoldable pub join : ℕ → List Bytes → Bytes
join sep [] = []
join sep (p ∷ []) = p
join sep (p ∷ q ∷ ps) = p ++ sep ∷ join sep (q ∷ ps)

pub split_lacking : (sep : ℕ) (p : Bytes) → Lacks sep p → split sep p ≡ p ∷ []
unfolding split
split_lacking sep [] h = refl
split_lacking sep (c ∷ p) (hc, hp) = ground (arith, split_lacking sep p hp)

pub split-append :
    (sep : ℕ) (p s : Bytes) → Lacks sep p → split sep (p ++ sep ∷ s) ≡ p ∷ split sep s
unfolding split
split-append sep [] s h = ground arith
split-append sep (c ∷ p) s (hc, hp) = ground (arith, split-append sep p s hp)

-- `strings.TrimPrefix`; `none` where the prefix is absent.
unfoldable pub strip_prefix : Bytes → Bytes → Option Bytes
strip_prefix [] s = some s
strip_prefix (c ∷ p) [] = none
strip_prefix (c ∷ p) (d ∷ s) = if c == d then strip_prefix p s else none

pub strip_prefix-append : (p s : Bytes) → strip_prefix p (p ++ s) ≡ some s
unfolding strip_prefix
strip_prefix-append [] s = refl
strip_prefix-append (c ∷ p) s = ground (arith, strip_prefix-append p s)

unfoldable pub trim_prefix : Bytes → Bytes → Bytes
unfolding strip_prefix
trim_prefix p s = elim (strip_prefix p s) [ none ↦ s | some r ↦ r ]

-- `strings.CutSuffix`; `none` where the suffix is absent.
unfoldable pub cut_suffix : Bytes → Bytes → Option Bytes
unfolding strip_prefix
cut_suffix p s = elim (strip_prefix (reverse p) (reverse s)) [
  | none ↦ none
  | some r ↦ some (reverse r)
]

-- `strings.ToLower` of an ASCII text.
unfoldable pub to_lower : Bytes → Bytes
to_lower [] = []
to_lower (c ∷ s) = (if leb b'A' c && leb c b'Z' then c + 32 else c) ∷ to_lower s

-- `strings.TrimLeft` by a test on bytes, and `strings.TrimRight`.
unfoldable pub trim_left : (ℕ → Bool) → Bytes → Bytes
trim_left f [] = []
trim_left f (c ∷ s) = let rest = trim_left f s in if f c then rest else c ∷ s

unfoldable pub trim_right : (ℕ → Bool) → Bytes → Bytes
unfolding trim_left
trim_right f s = reverse (trim_left f (reverse s))

-- `unicode.IsSpace` of a code point that UTF-8 writes in one, two or three bytes; no white space
-- is longer.
abbrev pub is_space : ℕ → Bool
is_space a = leb 9 a && leb a 13 || a == 32

abbrev pub is_space2 : ℕ → ℕ → Bool
is_space2 a b = a == 0xC2 && (b == 0x85 || b == 0xA0)

abbrev pub is_space3 : ℕ → ℕ → ℕ → Bool
is_space3 a b c =
    a == 0xE1 && b == 0x9A && c == 0x80
    || a == 0xE2 && b == 0x80 && (leb 0x80 c && leb c 0x8A || c == 0xA8 || c == 0xA9 || c == 0xAF)
    || a == 0xE2 && b == 0x81 && c == 0x9F
    || a == 0xE3 && b == 0x80 && c == 0x80

-- White space is dropped from the front of a text, one code point after the other; the tests of two
-- and three bytes are arguments, since the text may stand in reverse.
unfoldable pub trim_front : (ℕ → ℕ → Bool) → (ℕ → ℕ → ℕ → Bool) → Bytes → Bytes
trim_front two three [] = []
trim_front two three (a ∷ []) = if is_space a then [] else a ∷ []
trim_front two three (a ∷ b ∷ []) =
    let one = trim_front two three (b ∷ []) in
    if is_space a then one else if two a b then [] else a ∷ b ∷ []
trim_front two three (a ∷ b ∷ c ∷ s) =
    let after_one = trim_front two three (b ∷ c ∷ s) in
    let after_two = trim_front two three (c ∷ s) in
    let after_three = trim_front two three s in
    if is_space a
    then after_one
    else if two a b
    then after_two
    else if three a b c
    then after_three
    else a ∷ b ∷ c ∷ s

unfoldable pub trim_back : Bytes → Bytes
unfolding trim_front
trim_back s = reverse (trim_front (λ b a. is_space2 a b) (λ c b a. is_space3 a b c) (reverse s))

-- `strings.TrimSpace`.
unfoldable pub trim_space : Bytes → Bytes
unfolding trim_back
trim_space s = trim_back (trim_front is_space2 is_space3 s)

-- The value of a hexadecimal digit.
unfoldable pub hex_digit : ℕ → Option ℕ
hex_digit c =
    if leb b'0' c && leb c b'9'
    then some (c - b'0')
    else if leb b'A' c && leb c b'F'
    then some (c - b'A' + 10)
    else if leb b'a' c && leb c b'f'
    then some (c - b'a' + 10)
    else none
