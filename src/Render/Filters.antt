-- ===== src/Render/Filters.antt =====
-- internal/render: `CMLSafe` of cml.go, and the filters of gotemplate.go.
use cossacks_game_server.Base.{
  ℕ, Bool, false, ◌||◌, [], ◌∷◌, ◌++◌, Bytes, codes, if◌then◌else◌, ◌==◌, length, ◌≡◌, refl, arith,
}

-- `strings.ReplaceAll` of one byte.
unfoldable pub replace_byte : ℕ → Bytes → Bytes → Bytes
replace_byte c with [] = []
replace_byte c with (d ∷ s) =
    let rest = replace_byte c with s in if d == c then with ++ rest else d ∷ rest

unfoldable pub cml_safe : Bytes → Bytes
unfolding replace_byte
cml_safe v =
    replace_byte b'\r' (codes " ")
      (replace_byte b'\n' (codes " ") (replace_byte b'"' (codes "'") v))

-- `strings.NewReplacer` of single bytes is one pass over the text.
unfoldable pub cmd_filter : Bytes → Bytes
cmd_filter [] = []
cmd_filter (c ∷ s) =
    let rest = cmd_filter s in
    if c == b'&'
    then codes "\\26" ++ rest
    else if c == b'^'
    then codes "\\5e" ++ rest
    else if c == b'|'
    then codes "\\7c" ++ rest
    else if c == b'%'
    then codes "\\25" ++ rest
    else if c == 0
    then codes "\\00" ++ rest
    else c ∷ rest

unfoldable pub arg_filter : Bytes → Bytes
unfolding replace_byte
arg_filter s =
    replace_byte b'\n' (codes "\\n")
      (replace_byte b'"' (codes "\\\"") (replace_byte b'\\' (codes "\\\\") s))

-- The escapes taken back: a backslash stands for the byte behind it, and before n for a line feed.
pub unquote : Bytes → Bytes
unquote [] = []
unquote (c ∷ []) = c ∷ []
unquote (c ∷ d ∷ s) =
    let after_two = unquote s in
    let after_one = unquote (d ∷ s) in
    if c == b'\\' then (if d == b'n' then b'\n' else d) ∷ after_two else c ∷ after_one

-- One step of the filter.
quote : ℕ → Bytes
quote c =
    if c == b'\\'
    then codes "\\\\"
    else if c == b'"'
    then codes "\\\""
    else if c == b'\n'
    then codes "\\n"
    else c ∷ []

arg_filter_cons : (c : ℕ) (s : Bytes) → arg_filter (c ∷ s) ≡ quote c ++ arg_filter s
unfolding arg_filter replace_byte quote
arg_filter_cons c s = ground arith

unquote_plain : (c : ℕ) (s : Bytes) → c == b'\\' ≡ false → unquote (c ∷ s) ≡ c ∷ unquote s
unfolding unquote
unquote_plain c [] h = refl
unquote_plain c (d ∷ s) h = ground arith

-- An argument that went through argFilter reads back as it was.
pub unquote-arg_filter : (s : Bytes) → unquote (arg_filter s) ≡ s
unfolding unquote quote
unquote-arg_filter [] = unfold arg_filter in refl
unquote-arg_filter (c ∷ s) =
    rw (arg_filter_cons c s) (ground (arith, unquote-arg_filter s, unquote_plain c (arg_filter s)))

-- The bytes that end a segment of a command.
abbrev pub ends_command : ℕ → Bool
ends_command c = c == b'&' || c == b'^' || c == b'|' || c == b'%' || c == 0

abbrev pub any : (ℕ → Bool) → Bytes → Bool
any test [] = false
any test (c ∷ s) = test c || any test s

-- A text that was filtered does not end the command that it stands in.
pub cmd_filter_inside : (s : Bytes) → any ends_command (cmd_filter s) ≡ false
unfolding cmd_filter
cmd_filter_inside [] = refl
cmd_filter_inside (c ∷ s) = ground (arith, cmd_filter_inside s)

-- What ends a literal of the markup.
abbrev pub ends_literal : ℕ → Bool
ends_literal c = c == b'"' || c == b'\n' || c == b'\r'

cml_safe_cons :
    (c : ℕ) (s : Bytes)
    → cml_safe (c ∷ s)
      ≡ (if c == b'"' then b'\'' else if c == b'\n' || c == b'\r' then b' ' else c) ∷ cml_safe s
unfolding cml_safe replace_byte
cml_safe_cons c s = ground arith

-- A text that was made safe does not end the literal that it stands in, and is as long as it was.
pub cml_safe_inside :
    (s : Bytes) → (any ends_literal (cml_safe s) ≡ false) × (length (cml_safe s) ≡ length s)
cml_safe_inside [] = unfold cml_safe in (refl, refl)
cml_safe_inside (c ∷ s) = rw (cml_safe_cons c s) (ground (arith, cml_safe_inside s))
