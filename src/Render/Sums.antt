-- ===== src/Render/Sums.antt =====
-- internal/render/gotemplate.go: the sum of `add`, whatever overflows on the way.
use cossacks_game_server.Base.{ℕ, ◌+◌, ◌%◌, ◌^◌, ◌<◌, List, [], ◌∷◌, ◌≡◌, arith, ap, ◌∙◌}
use cossacks_game_server.Base.Int.{ℤ, pos, negsuc, pos_part, neg_part, ◌+ℤ◌, +ℤ_parts}
use cossacks_game_server.Render.Functions.{
  Any, Printing, signed, low_bits, coerce_int, add_all, tpl_add,
}

low_bits_lem :
    (z : ℤ) → ((low_bits z + neg_part z) % 2 ^ 64 ≡ pos_part z % 2 ^ 64) × (low_bits z < 2 ^ 64)
unfolding low_bits
low_bits_lem (pos n) = omega arith
low_bits_lem (negsuc n) = omega arith

low_bits-eq :
    (a b : ℤ)
    → (pos_part a + neg_part b) % 2 ^ 64 ≡ (pos_part b + neg_part a) % 2 ^ 64
    → low_bits a ≡ low_bits b
low_bits-eq a b h = omega (arith, h, low_bits_lem a, low_bits_lem b)

signed_parts :
    (n : ℕ) → n < 2 ^ 64 → (pos_part (signed n)) % 2 ^ 64 ≡ (n + neg_part (signed n)) % 2 ^ 64
unfolding signed
signed_parts n h = ground arith

-- A sum that was cut is as good as the whole one.
low_bits-signed : (a b : ℤ) → low_bits (signed (low_bits a) +ℤ b) ≡ low_bits (a +ℤ b)
low_bits-signed a b = low_bits-eq (signed (low_bits a) +ℤ b) (a +ℤ b) (
    omega (
      arith,
      low_bits_lem a,
      signed_parts (low_bits a) (low_bits_lem a).1,
      +ℤ_parts (signed (low_bits a)) b,
      +ℤ_parts a b,
    ))

module _ {F O : Type 0} (p : Printing F O) where
  pub total : List (Any F O) → ℤ
  total [] = pos 0
  total (a ∷ args) = coerce_int p a +ℤ total args

  add_all-total :
      (s : ℤ) (args : List (Any F O))
      → add_all p (signed (low_bits s)) args ≡ signed (low_bits (s +ℤ total args))
  unfolding add_all total
  add_all-total s [] = ap signed (low_bits-eq s (s +ℤ pos 0) (omega (arith, +ℤ_parts s (pos 0))))
  add_all-total s (a ∷ args) =
      let c = coerce_int p a in
      ap (λ n. add_all p (signed n) args) (low_bits-signed s c)
      ∙ add_all-total (s +ℤ c) args
      ∙ ap signed (
          low_bits-eq (s +ℤ c +ℤ total args) (s +ℤ (c +ℤ total args)) (
            omega (
              arith,
              +ℤ_parts s c,
              +ℤ_parts (s +ℤ c) (total args),
              +ℤ_parts c (total args),
              +ℤ_parts s (c +ℤ total args),
            )))

  -- `add` is the sum of its arguments, cut to 64 bits once, whatever overflows on the way.
  pub tpl_add-total : (args : List (Any F O)) → tpl_add p args ≡ signed (low_bits (total args))
  unfolding tpl_add signed low_bits
  tpl_add-total args =
      add_all-total (pos 0) args
      ∙ ap signed (
          low_bits-eq (pos 0 +ℤ total args) (total args)
            (omega (arith, +ℤ_parts (pos 0) (total args))))
