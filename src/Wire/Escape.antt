-- ===== src/Wire/Escape.antt =====
-- internal/transport/gsc/command.go, the escapes of an argument: `encodeArg` and `decodeArg`.
use mathlib.Core.List.{flat_map}
use cossacks_game_server.Base.{
  ℕ, ◌+◌, ◌*◌, Option, none, some, [], ◌∷◌, ◌++◌, ◌≡◌, ◌≢◌, refl, ap, ◌∙◌, arith, Bytes, codes,
  ◌==◌, if◌then◌else◌, All-append, Lacks,
}
use cossacks_game_server.Base.Strings.{hex_digit}

-- What `argEncoder` writes for one byte.
unfoldable pub escape_byte : ℕ → Bytes
escape_byte c =
    if c == b'\\'
    then codes "\\5C"
    else if c == b'&'
    then codes "\\26"
    else if c == b'|'
    then codes "\\7C"
    else if c == 0
    then codes "\\00"
    else c ∷ []

unfoldable pub encode_arg : Bytes → Bytes
unfolding escape_byte flat_map
encode_arg = flat_map escape_byte

-- `strconv.ParseUint` of two bytes to base 16.
unfoldable pub parse_hex : ℕ → ℕ → Option ℕ
unfolding hex_digit
parse_hex h l = elim (hex_digit h) [
  | none ↦ none
  | some a ↦ elim (hex_digit l) [ none ↦ none | some b ↦ some (16 * a + b) ]
]

-- A backslash with two hexadecimal digits behind it is one byte; all else stands for itself.
unfoldable pub decode_arg : Bytes → Bytes
unfolding parse_hex
decode_arg [] = []
decode_arg (c ∷ []) = c ∷ []
decode_arg (c ∷ d ∷ []) = c ∷ decode_arg (d ∷ [])
decode_arg (c ∷ h ∷ l ∷ s) =
    let escaped = decode_arg s in
    let plain = c ∷ decode_arg (h ∷ l ∷ s) in
    if c == b'\\' then elim (parse_hex h l) [ none ↦ plain | some n ↦ n ∷ escaped ] else plain

-- A byte that is no backslash stands for itself.
decode_arg_plain : (c : ℕ) (s : Bytes) → c ≢ b'\\' → decode_arg (c ∷ s) ≡ c ∷ decode_arg s
unfolding decode_arg
decode_arg_plain c [] h = refl
decode_arg_plain c (d ∷ []) h = refl
decode_arg_plain c (d ∷ e ∷ s) h = ground arith

-- The four escapes are read back.
decode_arg_escapes :
    (s : Bytes)
    → (decode_arg (codes "\\5C" ++ s) ≡ b'\\' ∷ decode_arg s)
      × (decode_arg (codes "\\26" ++ s) ≡ b'&' ∷ decode_arg s)
      × (decode_arg (codes "\\7C" ++ s) ≡ b'|' ∷ decode_arg s)
      × (decode_arg (codes "\\00" ++ s) ≡ 0 ∷ decode_arg s)
unfolding decode_arg
decode_arg_escapes s = (refl, refl, refl, refl)

decode_arg-escape_byte : (c : ℕ) (s : Bytes) → decode_arg (escape_byte c ++ s) ≡ c ∷ decode_arg s
unfolding escape_byte
decode_arg-escape_byte c s = ground (arith, decode_arg_escapes s, decode_arg_plain c s)

-- `decodeArg` undoes `encodeArg`, whatever the bytes of the argument.
pub decode_arg-encode_arg : (s : Bytes) → decode_arg (encode_arg s) ≡ s
unfolding encode_arg
decode_arg-encode_arg [] = unfold decode_arg in refl
decode_arg-encode_arg (c ∷ s) =
    decode_arg-escape_byte c (encode_arg s) ∙ ap (◌∷◌ c) (decode_arg-encode_arg s)

-- The separators of the protocol.
abbrev pub IsPlain : Bytes → Type 0
IsPlain s = Lacks b'&' s × Lacks b'|' s × Lacks 0 s

escape_byte-IsPlain : (c : ℕ) → IsPlain (escape_byte c)
unfolding escape_byte
escape_byte-IsPlain c = ground arith

-- An encoded argument holds no separator and no NUL.
pub encode_arg-IsPlain : (s : Bytes) → IsPlain (encode_arg s)
unfolding encode_arg
encode_arg-IsPlain [] = (tt, tt, tt)
encode_arg-IsPlain (c ∷ s) =
    let (amp, bar, nul) = escape_byte-IsPlain c in
    let (amps, bars, nuls) = encode_arg-IsPlain s in
    (
      All-append _ (escape_byte c) (encode_arg s) amp amps,
      All-append _ (escape_byte c) (encode_arg s) bar bars,
      All-append _ (escape_byte c) (encode_arg s) nul nuls,
    )
