-- ===== src/Base/Json.antt =====
-- What Go's `encoding/json` yields for a value of any type. `F` stands for float64; the arithmetic and
-- the printing of it are those of `Numbers`.
use mathlib.Core.Bool.{Bool}
use mathlib.Core.List.{List, [], ◌∷◌}
use mathlib.Core.Option.{Option, none, some}
use cossacks_game_server.Base.Tests.{if◌then◌else◌}
use cossacks_game_server.Base.ByteStrings.{Bytes, bytes_eq, codes}
use cossacks_game_server.Base.Int.{ℤ}

mutual
  pub data Json (F : Type 0) : Type 0 where
    null : Json F
    bool : Bool → Json F
    number : F → Json F
    string : Bytes → Json F
    array : Values F → Json F
    object : Fields F → Json F

  pub data Values (F : Type 0) : Type 0 where
    no_values : Values F
    value : Json F → Values F → Values F

  pub data Fields (F : Type 0) : Type 0 where
    no_fields : Fields F
    field : Bytes → Json F → Fields F → Fields F

-- `int(f)`, `%v`, `f == math.Trunc(f)`, `f != 0` and `FormatFloat(f, 'f', -1, 64)`.
pub record Numbers (F : Type 0) : Type 0 where
  pub to_int : F → ℤ
  pub to_text : F → Bytes
  pub is_whole : F → Bool
  pub is_zero : F → Bool
  pub to_fixed : F → Bytes
  pub parse : Bytes → Option F

module _ {F : Type 0} where
  -- `m[key]`: of equal keys the decoder keeps the last; a missing one reads as nil.
  unfoldable pub get_field : Bytes → Fields F → Option (Json F)
  get_field key no_fields = none
  get_field key (field other v entries) =
      let later = get_field key entries in
      elim later [ some found ↦ some found | none ↦ if bytes_eq other key then some v else none ]

  unfoldable pub field_or_null : Bytes → Fields F → Json F
  unfolding get_field
  field_or_null key entries = elim (get_field key entries) [ none ↦ null | some v ↦ v ]

  -- `v.(map[string]any)` and `v.([]any)`.
  unfoldable pub as_object : Json F → Option (Fields F)
  as_object (object entries) = some entries
  as_object null = none
  as_object (bool b) = none
  as_object (number n) = none
  as_object (string s) = none
  as_object (array vs) = none

  unfoldable pub as_array : Json F → Option (Values F)
  as_array (array vs) = some vs
  as_array null = none
  as_array (bool b) = none
  as_array (number n) = none
  as_array (string s) = none
  as_array (object entries) = none

  -- `row, _ := v.(map[string]any)`: a nil map has no keys.
  unfoldable pub fields_of : Json F → Fields F
  unfolding as_object
  fields_of v = elim (as_object v) [ none ↦ no_fields | some entries ↦ entries ]

  abbrev pub list_values : Values F → List (Json F)
  list_values no_values = []
  list_values (value v vs) = v ∷ list_values vs

  -- `fmt.Sprintf("%v", v)`; how an array or an object prints is an argument.
  unfoldable pub print_value : Numbers F → (Json F → Bytes) → Json F → Bytes
  print_value numbers nested null = codes "<nil>"
  print_value numbers nested (bool b) = if b then codes "true" else codes "false"
  print_value numbers nested (number n) = numbers.to_text n
  print_value numbers nested (string s) = s
  print_value numbers nested (array vs) = nested (array vs)
  print_value numbers nested (object entries) = nested (object entries)
