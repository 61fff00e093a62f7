-- ===== src/Gsc/Params.antt =====
-- internal/app/gsc/commands/route_open.go: the parameters of `open` and `go`.
pub mod Parsing
use cossacks_game_server.Base.{
  ℕ, zero, suc, ◌+◌, ◌≤◌, Bool, true, false, not, ◌&&◌, ◌||◌, Option, none, some, List, [], ◌∷◌,
  ◌++◌, Bytes, codes, if◌then◌else◌, leb, ◌==◌, length, bytes_eq, is_empty, All, Lacks, ◌≡◌, refl,
  arith,
}
use cossacks_game_server.Base.Strings.{trim_space}

-- `map[string]string`.
abbrev pub Params : Type 0
Params = List (Bytes × Bytes)

-- `m[key] = value`.
unfoldable pub put_param : Bytes → Bytes → Params → Params
put_param key value [] = (key, value) ∷ []
put_param key value ((other, old) ∷ params) =
    let deeper = (other, old) ∷ put_param key value params in
    if bytes_eq other key then (key, value) ∷ params else deeper

-- `strings.Cut(s, "=")`; `none` where there is no `=`.
unfoldable pub cut_eq : Bytes → Option (Bytes × Bytes)
cut_eq [] = none
cut_eq (c ∷ s) =
    let later : Option (Bytes × Bytes) = elim (cut_eq s) [
      | none ↦ none
      | some (before, after) ↦ some (c ∷ before, after)
    ] in
    if c == b'=' then some ([], s) else later

-- The text before a suffix.
unfoldable pub strip_suffix : Bytes → Bytes → Option Bytes
strip_suffix suffix [] = if is_empty suffix then some [] else none
strip_suffix suffix (c ∷ s) =
    let later : Option Bytes = elim (strip_suffix suffix s) [
      | none ↦ none
      | some before ↦ some (c ∷ before)
    ] in
    if bytes_eq (c ∷ s) suffix then some [] else later

unfoldable pub remove_nul : Bytes → Bytes
remove_nul [] = []
remove_nul (c ∷ s) = let kept = remove_nul s in if c == 0 then kept else c ∷ kept

-- The method of `Open.Handle`.
unfoldable pub open_url : Bytes → Bytes
unfolding remove_nul strip_suffix trim_space
open_url arg =
    let raw = trim_space (remove_nul arg) in
    elim (strip_suffix (codes ".dcml") raw) [ none ↦ raw | some url ↦ url ]

-- The loop of `Go.Handle`.
unfoldable pub go_params : List Bytes → Params → Params
unfolding cut_eq put_param strip_suffix
go_params [] params = params
go_params (arg ∷ []) params = elim (cut_eq arg) [
  | none ↦ params
  | some (key, value) ↦ put_param key value params
]
go_params (arg ∷ next ∷ args) params = elim (cut_eq arg) [
  | some (key, value) ↦ go_params (next ∷ args) (put_param key value params)
  | none ↦ elim (strip_suffix (codes ":=") arg) [
    | none ↦ go_params (next ∷ args) params
    | some key ↦ go_params args (put_param key next params)
  ]
]

-- `isOpenParamKeyByte`.
abbrev pub is_open_param_key_byte : ℕ → Bool
is_open_param_key_byte b =
    leb b'A' b && leb b b'Z' || leb b'a' b && leb b b'z' || leb b'0' b && leb b b'9' || b == b'_'

-- The inner scan: key bytes, then `=`.
unfoldable pub key_follows : Bytes → Bool
key_follows [] = false
key_follows (c ∷ s) =
    let later = key_follows s in if is_open_param_key_byte c then later else c == b'='

-- The first `^` with a key behind it: the text on its two sides.
unfoldable pub next_param : Bytes → Option (Bytes × Bytes)
unfolding key_follows
next_param [] = none
next_param (c ∷ s) =
    let later : Option (Bytes × Bytes) = elim (next_param s) [
      | none ↦ none
      | some (value, rest) ↦ some (c ∷ value, rest)
    ] in
    if c == b'^' && key_follows s then some ([], s) else later

-- The loop of `ParseOpenParams`; each turn drops a byte at least.
unfoldable pub parse_params : ℕ → Bytes → Params → Params
unfolding cut_eq next_param put_param
parse_params zero params out = out
parse_params (suc fuel) params out = elim (cut_eq params) [
  | none ↦ out
  | some ([], rest) ↦ out
  | some (k ∷ key, rest) ↦ elim (next_param rest) [
    | none ↦ put_param (k ∷ key) rest out
    | some (value, more) ↦ parse_params fuel more (put_param (k ∷ key) value out)
  ]
]

-- `ParseOpenParams`.
unfoldable pub parse_open_params : Bytes → Params
unfolding parse_params
parse_open_params params = parse_params (length params) params []
