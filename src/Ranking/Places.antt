-- ===== src/Ranking/Places.antt =====
-- internal/adapter/rankingfile/provider.go against internal/app/ranking/service.go: the places.
use cossacks_game_server.Base.{
  Option, none, some, List, [], ◌∷◌, Bytes, codes, ◌≡◌, ◌≢◌, refl, ap, sym, All, inl, inr,
  Option-cases,
}
use mathlib.Core.Option.{some-injective}
use mathlib.Core.Path.{subst}
use cossacks_game_server.Base.Int.{ℤ}
use cossacks_game_server.Base.Json.{
  Json, Numbers, null, bool, number, string, array, object, field_or_null, fields_of,
}
use cossacks_game_server.Base.{
  Bool-cases, true, false, not, ◌&&◌, is_empty, bytes_eq, bytes_eq_sound, if◌then◌else◌, arith, ◌∙◌,
}
use cossacks_game_server.Base.Int.{pos}
use cossacks_game_server.Base.TextMaps.{find, put, find-put}
use cossacks_game_server.Base.Json.{Fields, Values, print_value, list_values, as_object, as_array}
use cossacks_game_server.Ranking.{Payload, place_of_row, index_rows, place_index, total_rows}
use cossacks_game_server.Ranking.FileProvider.{provider_place_of_row, build_lcn_place_index}

module _ {F : Type 0} (numbers : Numbers F) (nested : Json F → Bytes) where
  abbrev pub place_field : Json F → Json F
  place_field row = field_or_null (codes "place") (fields_of row)

  -- The place of a row is no text.
  abbrev pub Untexted : Json F → Type 0
  Untexted row = (s : Bytes) → place_field row ≢ string s

  places_agree :
      (v : Json F)
      → ((s : Bytes) → v ≢ string s)
      → place_of_row numbers nested v ≡ provider_place_of_row numbers nested v
  unfolding place_of_row provider_place_of_row
  places_agree null h = refl
  places_agree (bool b) h = refl
  places_agree (number f) h = refl
  places_agree (string s) h = absurd (h s refl)
  places_agree (array vs) h = refl
  places_agree (object entries) h = refl

  index_rows_agree :
      (rows : List (Json F)) (index : List (Bytes × ℤ))
      → All Untexted rows
      → index_rows numbers nested (place_of_row numbers nested) rows index
        ≡ index_rows numbers nested (provider_place_of_row numbers nested) rows index
  unfolding index_rows
  index_rows_agree [] index h = refl
  index_rows_agree (row ∷ rows) index (h, hs) =
      rw (sym (places_agree (place_field row) h)) (index_rows_agree rows _ hs)

  abbrev known : Option (List (Json F)) → List (Json F)
  known none = []
  known (some rows) = rows

  -- The rows that the two indices are built from.
  abbrev pub rows_of : Payload F → List (Json F)
  rows_of payload = known (total_rows payload)

  -- The payload has an object `ranking` with an array `total` of these rows.
  abbrev pub Ranked : Payload F → List (Json F) → Type 0
  Ranked none rows = ⊥
  Ranked (some payload) rows =
      (ranking : Fields F) × (total : Values F) × (field_or_null (codes "ranking") payload
        ≡ object ranking)
      × (field_or_null (codes "total") ranking ≡ array total)
      × (list_values total ≡ rows)

  abbrev pub id_text : Json F → Bytes
  id_text row = print_value numbers nested (field_or_null (codes "id") (fields_of row))

  -- A number as an int, and 0 for any other value.
  abbrev pub number_or_zero : Json F → ℤ
  number_or_zero (number f) = numbers.to_int f
  number_or_zero null = pos 0
  number_or_zero (bool b) = pos 0
  number_or_zero (string s) = pos 0
  number_or_zero (array vs) = pos 0
  number_or_zero (object entries) = pos 0

  abbrev pub own_place : Bytes → Json F → Option ℤ
  own_place key row =
      if bytes_eq (id_text row) key && not (is_empty key)
      then some (number_or_zero (place_field row))
      else none

  abbrev pub or_else : Option ℤ → Option ℤ → Option ℤ
  or_else (some n) other = some n
  or_else none other = other

  -- The place of the last row whose id has the text of the key; the empty key has none.
  pub last_place : Bytes → List (Json F) → Option ℤ
  last_place key [] = none
  last_place key (row ∷ rows) = or_else (last_place key rows) (own_place key row)

  place_of_row_lem : (v : Json F) → place_of_row numbers nested v ≡ number_or_zero v
  unfolding place_of_row
  place_of_row_lem null = refl
  place_of_row_lem (bool b) = refl
  place_of_row_lem (number f) = refl
  place_of_row_lem (string s) = refl
  place_of_row_lem (array vs) = refl
  place_of_row_lem (object entries) = refl

  or_else_assoc : (a b c : Option ℤ) → or_else a (or_else b c) ≡ or_else (or_else a b) c
  or_else_assoc (some n) b c = refl
  or_else_assoc none b c = refl

  or_else_none : (key : Bytes) (a : Option ℤ) → or_else a (find key []) ≡ a
  unfolding find
  or_else_none key (some n) = refl
  or_else_none key none = refl

  find-put_row :
      (id key : Bytes) (n : ℤ) (index : List (Bytes × ℤ))
      → find key (if is_empty id then index else put id n index)
        ≡ or_else (if bytes_eq id key && not (is_empty key) then some n else none) (find key index)
  find-put_row id key n index = elim (Bool-cases (bytes_eq id key)) [
    | inl same ↦
        let e = bytes_eq_sound id key same in
        elim (Bool-cases (is_empty key)) [
          | inl blank ↦
              let blank' : is_empty id ≡ true = ap is_empty e ∙ blank in
              rw (same, blank, blank') refl
          | inr full ↦
              let full' : is_empty id ≡ false = ap is_empty e ∙ full in
              rw (same, full, full') (find-put id key n index ∙ rw same refl)
        ]
    | inr differ ↦ elim (Bool-cases (is_empty id)) [
      | inl blank ↦ rw (differ, blank) refl
      | inr full ↦ rw (differ, full) (find-put id key n index ∙ rw differ refl)
    ]
  ]

  find-index_rows :
      (key : Bytes) (rows : List (Json F)) (index : List (Bytes × ℤ))
      → find key (index_rows numbers nested (place_of_row numbers nested) rows index)
        ≡ or_else (last_place key rows) (find key index)
  unfolding index_rows last_place
  find-index_rows key [] index = refl
  find-index_rows key (row ∷ rows) index =
      let place = place_of_row numbers nested (place_field row) in
      find-index_rows key rows
        (if is_empty (id_text row) then index else put (id_text row) place index)
      ∙ ap (or_else (last_place key rows)) (find-put_row (id_text row) key place index)
      ∙ rw (place_of_row_lem (place_field row))
          (or_else_assoc (last_place key rows) (own_place key row) (find key index))

  Ranked-total_rows :
      (payload : Payload F) (rows : List (Json F))
      → Ranked payload rows
      → total_rows payload ≡ some rows
  unfolding total_rows as_object as_array
  Ranked-total_rows none rows h = absurd h
  Ranked-total_rows (some payload) rows (ranking, total, has, lists, same) =
      rw (has, lists, same, total_rows) refl

  as_object-some :
      (v : Json F) (entries : Fields F) → as_object v ≡ some entries → v ≡ object entries
  unfolding as_object
  as_object-some (object entries) e h = ap object (some-injective entries e h)
  as_object-some null e h = absurd (ground (arith, h))
  as_object-some (bool b) e h = absurd (ground (arith, h))
  as_object-some (number n) e h = absurd (ground (arith, h))
  as_object-some (string s) e h = absurd (ground (arith, h))
  as_object-some (array vs) e h = absurd (ground (arith, h))

  as_array-some : (v : Json F) (vs : Values F) → as_array v ≡ some vs → v ≡ array vs
  unfolding as_array
  as_array-some (array vs) e h = ap array (some-injective vs e h)
  as_array-some null e h = absurd (ground (arith, h))
  as_array-some (bool b) e h = absurd (ground (arith, h))
  as_array-some (number n) e h = absurd (ground (arith, h))
  as_array-some (string s) e h = absurd (ground (arith, h))
  as_array-some (object entries) e h = absurd (ground (arith, h))

  total_rows-Ranked :
      (payload : Payload F) (rows : List (Json F))
      → total_rows payload ≡ some rows
      → Ranked payload rows
  unfolding total_rows
  total_rows-Ranked none rows h = ground (arith, h)
  total_rows-Ranked (some payload) rows h =
      elim (Option-cases (as_object (field_or_null (codes "ranking") payload))) [
        | inl e ↦ absurd (ground (arith, rw (e, total_rows) at h))
        | inr (ranking, e) ↦
            elim (Option-cases (as_array (field_or_null (codes "total") ranking))) [
              | inl e' ↦ absurd (ground (arith, rw (e, e', total_rows) at h))
              | inr (total, e') ↦ (
                ranking,
                total,
                as_object-some (field_or_null (codes "ranking") payload) ranking e,
                as_array-some (field_or_null (codes "total") ranking) total e',
                some-injective (list_values total) rows (rw (e, e', total_rows) at h),
              )
            ]
      ]

  place_index_rows :
      (payload : Payload F) (rows : List (Json F))
      → Ranked payload rows
      → place_index numbers nested payload
        ≡ some (index_rows numbers nested (place_of_row numbers nested) rows [])
  unfolding place_index
  place_index_rows payload rows h = rw (Ranked-total_rows payload rows h, place_index) refl

  place_index-Ranked :
      (payload : Payload F) (index : List (Bytes × ℤ))
      → place_index numbers nested payload ≡ some index
      → (rows : List (Json F)) × Ranked payload rows
  unfolding place_index
  place_index-Ranked payload index h = elim (Option-cases (total_rows payload)) [
    | inl e ↦ absurd (ground (arith, rw (e, place_index) at h))
    | inr (rows, e) ↦ (rows, total_rows-Ranked payload rows e)
  ]

  provider_same :
      (payload : Payload F)
      → All Untexted (rows_of payload)
      → build_lcn_place_index numbers nested payload ≡ place_index numbers nested payload
  unfolding build_lcn_place_index place_index
  provider_same payload h = elim (Option-cases (total_rows payload)) [
    | inl e ↦ rw (e, build_lcn_place_index, place_index) refl
    | inr (rows, e) ↦
        let untexted : All Untexted rows = subst (All Untexted) (ap known e) h in
        rw (e, build_lcn_place_index, place_index, index_rows_agree rows [] untexted) refl
  ]

  -- The provider over files and the cache give the same index of places, for a ranking in which no
  -- place is a text. There is an index only where the payload has an object `ranking` with an array
  -- `total`, and there it leads each key to the place of the last row whose id prints as the key, and
  -- the empty key and those of no row to nothing; the place is the number in the row as an int, and 0
  -- where there is no number.
  pub build_lcn_place_index_lem :
      (payload : Payload F)
      → All Untexted (rows_of payload)
      → (build_lcn_place_index numbers nested payload ≡ place_index numbers nested payload)
        × ((index : List (Bytes × ℤ))
            → place_index numbers nested payload ≡ some index
            → (rows : List (Json F)) × Ranked payload rows)
        × ((rows : List (Json F))
            → Ranked payload rows
            → (index : List (Bytes × ℤ)) × (place_index numbers nested payload ≡ some index)
              × ((key : Bytes) → find key index ≡ last_place key rows))
  build_lcn_place_index_lem payload h = (
    provider_same payload h,
    place_index-Ranked payload,
    λ rows ranked. (
      index_rows numbers nested (place_of_row numbers nested) rows [],
      place_index_rows payload rows ranked,
      λ key. find-index_rows key rows [] ∙ or_else_none key (last_place key rows),
    ),
  )
