-- ===== src/Base/Maps.antt =====
-- Go's `map[uint32]V`: an association list whose keys stay distinct. Iteration visits the list in
-- its order, which stands for whichever order the runtime chooses.
use Prim.Native.Nat.{ℕ}
use mathlib.Core.List.{List, [], ◌∷◌}
use mathlib.Core.Option.{Option, none, some}
use mathlib.Core.Path.{◌≡◌, refl}
use native.Mathlib.Omega.{arith}
use cossacks_game_server.Base.Tests.{◌==◌, if◌then◌else◌}

module _ {ℓ} {V : Type ℓ} where
  unfoldable pub lookup : ℕ → List (ℕ × V) → Option V
  lookup key [] = none
  lookup key ((other, value) ∷ entries) =
      let deeper = lookup key entries in if other == key then some value else deeper

  -- `delete(m, key)`.
  unfoldable pub erase : ℕ → List (ℕ × V) → List (ℕ × V)
  erase key [] = []
  erase key ((other, value) ∷ entries) =
      let kept = erase key entries in if other == key then kept else (other, value) ∷ kept

  -- `m[key] = fresh`; an entry that is there keeps its place.
  unfoldable pub insert : ℕ → V → List (ℕ × V) → List (ℕ × V)
  insert key fresh [] = (key, fresh) ∷ []
  insert key fresh ((other, value) ∷ entries) =
      let deeper = (other, value) ∷ insert key fresh entries in
      if other == key then (key, fresh) ∷ entries else deeper

  pub lookup-erase :
      (gone key : ℕ) (entries : List (ℕ × V))
      → lookup key (erase gone entries) ≡ (if gone == key then none else lookup key entries)
  unfolding lookup erase
  lookup-erase gone key [] = ground arith
  lookup-erase gone key ((other, value) ∷ entries) = ground (arith, lookup-erase gone key entries)

  pub lookup-insert :
      (put key : ℕ) (fresh : V) (entries : List (ℕ × V))
      → lookup key (insert put fresh entries)
        ≡ (if put == key then some fresh else lookup key entries)
  unfolding lookup insert
  lookup-insert put key fresh [] = refl
  lookup-insert put key fresh ((other, value) ∷ entries) =
      ground (arith, lookup-insert put key fresh entries)
