-- ===== src/Render/Functions.antt =====
-- internal/render/gotemplate.go: the functions that the templates call.
use cossacks_game_server.Base.{
  ℕ, ◌+◌, ◌-◌, ◌*◌, ◌%◌, ◌^◌, Bool, true, false, not, ◌||◌, Option, none, some, List, [], ◌∷◌, ◌++◌,
  Bytes, codes, if◌then◌else◌, ltb, ◌==◌, is_empty, bytes_eq,
}
use cossacks_game_server.Base.Int.{ℤ, pos, negsuc, pos_part, neg_part, sub_ℕ, ◌+ℤ◌, ◌-ℤ◌}
use cossacks_game_server.Base.Format.{print_int, print_uint}
use cossacks_game_server.Base.Numerals.{atoi}
use cossacks_game_server.Base.Strings.{trim_space, to_lower}
use cossacks_game_server.Gsc.Gettbl.{equal_fold}

-- A value of a template: the types that the functions tell apart, a float64 as an `F`, and any other
-- as an `O`.
pub data Any (F O : Type 0) : Type 0 where
  nil : Any F O
  bool_value : Bool → Any F O
  string_value : Bytes → Any F O
  int_value : ℤ → Any F O
  int64_value : ℤ → Any F O
  uint32_value : ℕ → Any F O
  float64_value : F → Any F O
  other_value : O → Any F O

-- What the functions use of float64, of `strconv.ParseFloat` and of `fmt.Sprint`, which is the
-- `String` of a value that has one.
pub record Printing (F O : Type 0) : Type 0 where
  pub to_int : F → ℤ
  pub is_zero : F → Bool
  pub parse_float : Bytes → Option F
  pub sprint_float : F → Bytes
  pub sprint_other : O → Bytes

-- An `int` has 64 bits, and keeps the low ones.
unfoldable pub signed : ℕ → ℤ
signed n = if ltb n (2 ^ 63) then pos n else negsuc (2 ^ 64 - 1 - n)

unfoldable pub low_bits : ℤ → ℕ
low_bits (pos n) = n % 2 ^ 64
low_bits (negsuc n) = 2 ^ 64 - 1 - n % 2 ^ 64

unfoldable pub times : ℤ → ℤ → ℤ
times a b =
    sub_ℕ (pos_part a * pos_part b + neg_part a * neg_part b)
      (pos_part a * neg_part b + neg_part a * pos_part b)

unfoldable pub is_zero_int : ℤ → Bool
is_zero_int (pos n) = n == 0
is_zero_int (negsuc n) = false

module _ {F O : Type 0} (p : Printing F O) where
  -- `anyToString`.
  unfoldable pub any_to_string : Any F O → Bytes
  unfolding print_int print_uint
  any_to_string nil = []
  any_to_string (bool_value b) = if b then codes "true" else codes "false"
  any_to_string (string_value s) = s
  any_to_string (int_value n) = print_int n
  any_to_string (int64_value n) = print_int n
  any_to_string (uint32_value n) = print_uint n
  any_to_string (float64_value f) = p.sprint_float f
  any_to_string (other_value o) = p.sprint_other o

  -- The text of a number, whole or not; 0 for any other.
  unfoldable pub coerce_text : Bytes → ℤ
  unfolding trim_space
  coerce_text t =
      let s = trim_space t in
      if is_empty s then pos 0 else elim (atoi s) [
        | some n ↦ n
        | none ↦ elim (p.parse_float s) [ some f ↦ p.to_int f | none ↦ pos 0 ]
      ]

  unfoldable pub coerce_int : Any F O → ℤ
  unfolding coerce_text
  coerce_int nil = pos 0
  coerce_int (bool_value b) = pos 0
  coerce_int (string_value t) = coerce_text t
  coerce_int (int_value n) = n
  coerce_int (int64_value n) = n
  coerce_int (uint32_value n) = pos n
  coerce_int (float64_value f) = p.to_int f
  coerce_int (other_value o) = pos 0

  unfoldable pub tpl_theam_label : Any F O → Bytes
  unfolding trim_space any_to_string
  tpl_theam_label v = trim_space (any_to_string v)

  unfoldable pub tpl_truthy : Any F O → Bool
  unfolding trim_space equal_fold is_zero_int
  tpl_truthy nil = false
  tpl_truthy (bool_value b) = b
  tpl_truthy (string_value t) =
      let s = trim_space t in
      not (is_empty s || bytes_eq s (codes "0") || equal_fold s (codes "false"))
  tpl_truthy (int_value n) = not (is_zero_int n)
  tpl_truthy (int64_value n) = not (is_zero_int n)
  tpl_truthy (uint32_value n) = not (n == 0)
  tpl_truthy (float64_value f) = not (p.is_zero f)
  tpl_truthy (other_value o) = true

  unfoldable pub tpl_level_label : Any F O → Bytes
  unfolding coerce_int
  tpl_level_label v = elim (coerce_int v) [
    | pos n ↦
        if n == 1
        then codes "Easy"
        else if n == 2
        then codes "Normal"
        else if n == 3
        then codes "Hard"
        else codes "For all"
    | negsuc n ↦ codes "For all"
  ]

  unfoldable pub tpl_level_label_lc : Any F O → Bytes
  unfolding tpl_level_label to_lower
  tpl_level_label_lc v = to_lower (tpl_level_label v)

  -- `sum += coerceInt(a)`, from the sum so far.
  unfoldable pub add_all : ℤ → List (Any F O) → ℤ
  unfolding signed low_bits coerce_int
  add_all sum [] = sum
  add_all sum (a ∷ args) = add_all (signed (low_bits (sum +ℤ coerce_int a))) args

  unfoldable pub tpl_add : List (Any F O) → ℤ
  unfolding add_all
  tpl_add args = add_all (pos 0) args

  unfoldable pub sub_all : ℤ → List (Any F O) → ℤ
  unfolding signed low_bits coerce_int
  sub_all res [] = res
  sub_all res (r ∷ rest) = sub_all (signed (low_bits (res -ℤ coerce_int r))) rest

  unfoldable pub tpl_sub : Any F O → Any F O → List (Any F O) → ℤ
  unfolding sub_all signed low_bits coerce_int
  tpl_sub a b rest = sub_all (signed (low_bits (coerce_int a -ℤ coerce_int b))) rest

  unfoldable pub mul_all : ℤ → List (Any F O) → ℤ
  unfolding signed low_bits coerce_int times
  mul_all prod [] = prod
  mul_all prod (a ∷ args) = mul_all (signed (low_bits (times prod (coerce_int a)))) args

  unfoldable pub tpl_mul : List (Any F O) → ℤ
  unfolding mul_all
  tpl_mul [] = pos 0
  tpl_mul (a ∷ args) = mul_all (pos 1) (a ∷ args)

  unfoldable pub tpl_concat : List (Any F O) → Bytes
  unfolding any_to_string
  tpl_concat [] = []
  tpl_concat (a ∷ args) = any_to_string a ++ tpl_concat args
