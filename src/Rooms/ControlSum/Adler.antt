-- ===== src/Rooms/ControlSum/Adler.antt =====
-- The chunked loop in uint32 arithmetic computes the two sums of Adler-32: nothing overflows
-- between two reductions.
use Prim.Native.Nat.{bit_or}
use cossacks_game_server.Base.{
  ℕ, zero, suc, ◌+◌, ◌*◌, ◌%◌, ◌^◌, ◌<◌, ◌≤◌, [], ◌∷◌, ◌++◌, Bytes, length, take, drop, ◌≡◌, refl,
  ap, ◌∙◌, arith, All, All-take, All-drop, length-take, length-drop, take-append-drop,
}
use cossacks_game_server.Base.LittleEndian.{IsByte}
use cossacks_game_server.Rooms.ControlSum.{modulus, chunk, add_bytes, add_chunks, checksum}

-- Adler-32 without any reduction: the sum of the bytes, and the sum of the partial sums.
unfoldable pub sums : ℕ → ℕ → Bytes → ℕ × ℕ
sums a b [] = (a, b)
sums a b (c ∷ s) = sums (a + c) (b + (a + c)) s

sums-grow : (a b : ℕ) (s : Bytes) → (a ≤ (sums a b s).0) × (b ≤ (sums a b s).1)
unfolding sums
sums-grow a b [] = omega arith
sums-grow a b (c ∷ s) = omega (arith, sums-grow (a + c) (b + (a + c)) s)

-- Where the end results fit 32 bits, no step wraps.
add_bytes-sums :
    (a b : ℕ) (s : Bytes)
    → (sums a b s).0 < 2 ^ 32
    → (sums a b s).1 < 2 ^ 32
    → add_bytes a b s ≡ sums a b s
unfolding sums add_bytes
add_bytes-sums a b [] h k = refl
add_bytes-sums a b (c ∷ s) h k =
    let grown = sums-grow (a + c) (b + (a + c)) s in
    let e : (a + c) % 2 ^ 32 ≡ a + c = omega (arith, grown.0) in
    let f : (b + (a + c)) % 2 ^ 32 ≡ b + (a + c) = omega (arith, grown.1) in
    rw (e, f) (add_bytes-sums (a + c) (b + (a + c)) s h k)

sums-bound :
    (a b : ℕ) (s : Bytes)
    → All IsByte s
    → ((sums a b s).0 ≤ a + 255 * length s)
      × (2 * (sums a b s).1 ≤ 2 * b + 2 * (length s * a) + 255 * (length s * (length s + 1)))
unfolding sums
sums-bound a b [] h = omega arith
sums-bound a b (c ∷ s) (hc, hs) =
    let most : length s * c ≤ length s * 255 = grind arith in
    omega (arith, sums-bound (a + c) (b + (a + c)) s hs, most)

-- A chunk from reduced sums fits: 5552 is the longest run of bytes that does.
chunk_fits :
    (a b : ℕ) (s : Bytes)
    → All IsByte s
    → a < modulus
    → b < modulus
    → length s ≤ chunk
    → ((sums a b s).0 < 2 ^ 32) × ((sums a b s).1 < 2 ^ 32)
chunk_fits a b s h ha hb hl =
    let p : length s * a ≤ 5552 * 65520 = grind arith in
    let q : length s * (length s + 1) ≤ 5552 * 5553 = grind arith in
    omega (arith, sums-bound a b s h, p, q)

sums-append : (a b : ℕ) (s t : Bytes) → sums a b (s ++ t) ≡ sums (sums a b s).0 (sums a b s).1 t
unfolding sums
sums-append a b [] t = refl
sums-append a b (c ∷ s) t = sums-append (a + c) (b + (a + c)) s t

-- Both sums depend on their start modulo the modulus only.
sums-mod :
    (a b x y : ℕ) (s : Bytes)
    → a % modulus ≡ x % modulus
    → b % modulus ≡ y % modulus
    → ((sums a b s).0 % modulus ≡ (sums x y s).0 % modulus)
      × ((sums a b s).1 % modulus ≡ (sums x y s).1 % modulus)
unfolding sums
sums-mod a b x y [] h k = (h, k)
sums-mod a b x y (c ∷ s) h k =
    sums-mod (a + c) (b + (a + c)) (x + c) (y + (x + c)) s (omega arith) (omega arith)

-- The two sums, reduced.
unfoldable pub adler : ℕ → ℕ → Bytes → ℕ × ℕ
unfolding sums
adler a b s = ((sums a b s).0 % modulus, (sums a b s).1 % modulus)

adler-append :
    (a b : ℕ) (s t : Bytes)
    → adler ((sums a b s).0 % modulus) ((sums a b s).1 % modulus) t ≡ adler a b (s ++ t)
unfolding adler
adler-append a b s t = rw (sums-append a b s t) (
    let (p, q) =
      sums-mod ((sums a b s).0 % modulus) ((sums a b s).1 % modulus) (sums a b s).0 (sums a b s).1 t
        (omega arith) (omega arith) in
    ground arith)

-- One round of the outer loop.
add_chunks-step :
    (fuel a b c : ℕ) (s : Bytes)
    → let w = add_bytes a b (take chunk (c ∷ s)) in
      add_chunks (suc fuel) a b (c ∷ s)
      ≡ add_chunks fuel (w.0 % modulus) (w.1 % modulus) (drop chunk (c ∷ s))
unfolding add_chunks
add_chunks-step fuel a b c s = refl

add_chunks-adler :
    (fuel a b : ℕ) (s : Bytes)
    → length s ≤ fuel
    → All IsByte s
    → a < modulus
    → b < modulus
    → add_chunks fuel a b s ≡ adler a b s
add_chunks-adler zero a b [] h hs ha hb = unfold add_chunks adler in ground arith
add_chunks-adler zero a b (c ∷ s) h hs ha hb = absurd (omega arith)
add_chunks-adler (suc fuel) a b [] h hs ha hb = unfold add_chunks adler in ground arith
add_chunks-adler (suc fuel) a b (c ∷ s) h hs ha hb =
    let now = take chunk (c ∷ s) in
    let later = drop chunk (c ∷ s) in
    let fits =
      chunk_fits a b now (All-take _ chunk (c ∷ s) hs) ha hb
        (omega (arith, length-take chunk (c ∷ s))) in
    let shorter : length later ≤ fuel = omega (arith, length-drop chunk (c ∷ s)) in
    add_chunks-step fuel a b c s
    ∙ ap (λ (w : ℕ × ℕ). add_chunks fuel (w.0 % modulus) (w.1 % modulus) later)
        (add_bytes-sums a b now fits.0 fits.1)
    ∙ add_chunks-adler fuel _ _ later shorter (All-drop _ chunk (c ∷ s) hs) (omega arith)
        (omega arith)
    ∙ adler-append a b now later
    ∙ ap (adler a b) (take-append-drop chunk (c ∷ s))

adler-shift : (a b : ℕ) (s : Bytes) → (adler a b s).1 * 2 ^ 16 % 2 ^ 32 ≡ (adler a b s).1 * 2 ^ 16
unfolding adler
adler-shift a b s = omega arith

-- For every text of bytes, of any length, the chunked loop in uint32 arithmetic gives the two
-- reduced sums of Adler-32, and shifting the second into the upper half loses no bit.
pub checksum-adler :
    (s : Bytes) → All IsByte s → checksum s ≡ bit_or ((adler 1 0 s).1 * 2 ^ 16) (adler 1 0 s).0
unfolding checksum
checksum-adler s h =
    rw (add_chunks-adler (length s) 1 0 s (omega arith) h (omega arith) (omega arith))
      (ap (λ n. bit_or n (adler 1 0 s).0) (adler-shift 1 0 s))
