-- ===== src/Base/TextMaps.antt =====
-- Go's `map[string]V`: an association list whose keys stay distinct.
use mathlib.Core.Bool.{true}
use mathlib.Core.List.{List, [], ◌∷◌}
use mathlib.Core.Logic.{inl, inr}
use mathlib.Core.Option.{Option, none, some}
use mathlib.Core.Path.{◌≡◌, refl}
use native.Mathlib.Omega.{arith}
use cossacks_game_server.Base.Tests.{if◌then◌else◌, Bool-cases}
use cossacks_game_server.Base.ByteStrings.{Bytes, bytes_eq, bytes_eq_sound, bytes_eq_refl}

module _ {ℓ} {V : Type ℓ} where
  unfoldable pub find : Bytes → List (Bytes × V) → Option V
  find key [] = none
  find key ((other, value) ∷ entries) =
      let deeper = find key entries in if bytes_eq other key then some value else deeper

  -- `m[key] = fresh`; an entry that is there keeps its place.
  unfoldable pub put : Bytes → V → List (Bytes × V) → List (Bytes × V)
  put key fresh [] = (key, fresh) ∷ []
  put key fresh ((other, value) ∷ entries) =
      let deeper = (other, value) ∷ put key fresh entries in
      if bytes_eq other key then (key, fresh) ∷ entries else deeper

  -- `delete(m, key)`.
  unfoldable pub remove : Bytes → List (Bytes × V) → List (Bytes × V)
  remove key [] = []
  remove key ((other, value) ∷ entries) =
      let kept = remove key entries in if bytes_eq other key then kept else (other, value) ∷ kept

  pub find-put :
      (stored key : Bytes) (fresh : V) (entries : List (Bytes × V))
      → find key (put stored fresh entries)
        ≡ (if bytes_eq stored key then some fresh else find key entries)
  unfolding find put
  find-put stored key fresh [] = refl
  find-put stored key fresh ((other, value) ∷ entries) =
      let deeper = find-put stored key fresh entries in
      elim (Bool-cases (bytes_eq other stored)) [
        | inl same ↦ let e = bytes_eq_sound other stored same in ground arith
        | inr differ ↦ elim (Bool-cases (bytes_eq other key)) [
          | inr later ↦ rw (differ, later, deeper, find, put) refl
          | inl here ↦ elim (Bool-cases (bytes_eq stored key)) [
            | inr apart ↦ rw (differ, here, apart, find, put) refl
            | inl same ↦
                let e = bytes_eq_sound other key here in
                let e' = bytes_eq_sound stored key same in
                let clash : bytes_eq other stored ≡ true = rw (e, e') (bytes_eq_refl key) in
                ground arith
          ]
        ]
      ]
