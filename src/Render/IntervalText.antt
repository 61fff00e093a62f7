-- ===== src/Render/IntervalText.antt =====
-- internal/render/time_interval.go: what the text of an interval says.
use cossacks_game_server.Base.{
  ℕ, zero, suc, ◌+◌, ◌-◌, ◌*◌, ◌^◌, ◌≤◌, ◌<◌, true, false, List, [], ◌∷◌, ◌++◌, Bytes,
  if◌then◌else◌, ltb, ◌==◌, ◌≡◌, refl, arith, ap, ◌∙◌, lt→ltb, ge→ltb, inl, inr, Bool-cases, All,
  map, append_assoc,
}
use Prim.Native.Nat.{◌/◌, ◌%◌}
use cossacks_game_server.Base.Int.{pos}
use cossacks_game_server.Base.Format.{print_base, print_uint}
use cossacks_game_server.Base.Numerals.{is_digit}
use cossacks_game_server.Base.Strings.{join}
use cossacks_game_server.Render.TimeInterval.{
  Part, interval_parts, print_part, time_interval_from_elapsed_sec, total, unit_secs, precision,
  total-interval_parts, zero_or,
}

abbrev letter_secs : ℕ → ℕ
letter_secs c =
    if c == b'd'
    then 86400
    else if c == b'h'
    then 3600
    else if c == b'm'
    then 60
    else if c == b's'
    then 1
    else 0

-- The seconds that a text of amounts with a letter for the unit stands for, one space between two of
-- them; what is written otherwise counts nothing. The number is what was read of the amount.
pub read_interval : ℕ → Bytes → ℕ
read_interval amount [] = 0
read_interval amount (c ∷ []) = if is_digit c then 0 else amount * letter_secs c
read_interval amount (c ∷ d ∷ s) =
    let more = read_interval (amount * 10 + (c - b'0')) (d ∷ s) in
    let behind = read_interval 0 s in
    if is_digit c then more else if d == b' ' then amount * letter_secs c + behind else 0

-- The numbers of at most so many digits.
abbrev below : ℕ → ℕ
below zero = 1
below (suc fuel) = 10 * below fuel

print_base_small : (fuel n : ℕ) → n < 10 → print_base 10 (suc fuel) n ≡ (b'0' + n) ∷ []
unfolding print_base
print_base_small fuel n h = let e = lt→ltb n 10 h in rw e refl

print_base_large :
    (fuel n : ℕ)
    → 10 ≤ n
    → print_base 10 (suc fuel) n ≡ print_base 10 fuel (n / 10) ++ (b'0' + n % 10) ∷ []
unfolding print_base
print_base_large fuel n h =
    let e = ge→ltb n 10 h in let low = lt→ltb (n % 10) 10 (omega arith) in rw (e, low) refl

read_digit :
    (amount n c : ℕ) (s : Bytes)
    → n < 10
    → read_interval amount ((b'0' + n) ∷ c ∷ s) ≡ read_interval (amount * 10 + n) (c ∷ s)
unfolding read_interval
read_digit amount n c s h =
    let digit_there : is_digit (b'0' + n) ≡ true = ground (arith, h) in
    let value : b'0' + n - b'0' ≡ n = omega arith in rw (digit_there, value) refl

read_print_small :
    (fuel n c : ℕ) (s : Bytes)
    → n < 10
    → read_interval 0 (print_base 10 (suc fuel) n ++ c ∷ s) ≡ read_interval n (c ∷ s)
read_print_small fuel n c s h =
    ap (λ p. read_interval 0 (p ++ c ∷ s)) (print_base_small fuel n h)
    ∙ read_digit 0 n c s h
    ∙ ap (λ k. read_interval k (c ∷ s)) (omega arith)

read_print_base :
    (fuel n c : ℕ) (s : Bytes)
    → n < below (suc fuel)
    → read_interval 0 (print_base 10 (suc fuel) n ++ c ∷ s) ≡ read_interval n (c ∷ s)
read_print_base zero n c s h = read_print_small zero n c s (omega (arith, h))
read_print_base (suc fuel) n c s h = elim (Bool-cases (ltb n 10)) [
  | inl small ↦ read_print_small (suc fuel) n c s (ground (arith, small))
  | inr large ↦
      ap (λ p. read_interval 0 (p ++ c ∷ s)) (print_base_large (suc fuel) n (ground (arith, large)))
      ∙ ap (read_interval 0)
          (append_assoc (print_base 10 (suc fuel) (n / 10)) ((b'0' + n % 10) ∷ []) (c ∷ s))
      ∙ read_print_base fuel (n / 10) (b'0' + n % 10) (c ∷ s) (omega (arith, h))
      ∙ read_digit (n / 10) (n % 10) c s (omega arith)
      ∙ ap (λ k. read_interval k (c ∷ s)) (omega arith)
]

-- A part that can be printed: the amount is a uint64, and the unit a letter that is read.
abbrev Printable : Part → Type 0
Printable (amount, unit) =
    (amount < below 20) × (is_digit unit ≡ false) × (letter_secs unit ≡ unit_secs unit)

read_unit :
    (n unit : ℕ) → is_digit unit ≡ false → read_interval n (unit ∷ []) ≡ n * letter_secs unit
unfolding read_interval
read_unit n unit h = rw h refl

read_unit_more :
    (n unit : ℕ) (s : Bytes)
    → is_digit unit ≡ false
    → read_interval n (unit ∷ b' ' ∷ s) ≡ n * letter_secs unit + read_interval 0 s
unfolding read_interval
read_unit_more n unit s h = rw h refl

read_part : (p : Part) → Printable p → read_interval 0 (print_part p) ≡ p.0 * unit_secs p.1
unfolding print_part print_uint
read_part (amount, unit) (h, letter, same) =
    read_print_base 19 amount unit [] h ∙ read_unit amount unit letter ∙ ap (λ k. amount * k) same

read_part_more :
    (p : Part) (s : Bytes)
    → Printable p
    → read_interval 0 (print_part p ++ b' ' ∷ s) ≡ p.0 * unit_secs p.1 + read_interval 0 s
unfolding print_part print_uint
read_part_more (amount, unit) s (h, letter, same) =
    ap (read_interval 0) (append_assoc (print_base 10 20 amount) (unit ∷ []) (b' ' ∷ s))
    ∙ read_print_base 19 amount unit (b' ' ∷ s) h
    ∙ read_unit_more amount unit s letter
    ∙ ap (λ k. amount * k + read_interval 0 s) same

read_parts :
    (p : Part) (ps : List Part)
    → All Printable (p ∷ ps)
    → read_interval 0 (join b' ' (map print_part (p ∷ ps))) ≡ total (p ∷ ps)
unfolding join
read_parts p [] (h, _) = read_part p h ∙ omega arith
read_parts p (q ∷ ps) (h, hs) =
    read_part_more p (join b' ' (map print_part (q ∷ ps))) h
    ∙ ap (λ k. p.0 * unit_secs p.1 + k) (read_parts q ps hs)

interval_parts-Printable : (secs : ℕ) → secs < 2 ^ 63 → All Printable (interval_parts secs)
unfolding interval_parts
interval_parts-Printable secs h = ground (arith, h)

read_zero_or : (ps : List Part) → All Printable ps → read_interval 0 (zero_or ps) ≡ total ps
unfolding read_interval
read_zero_or [] h = refl
read_zero_or (p ∷ ps) h = read_parts p ps h

read_text :
    (secs : ℕ)
    → secs < 2 ^ 63
    → read_interval 0 (time_interval_from_elapsed_sec (pos secs)) ≡ total (interval_parts secs)
unfolding time_interval_from_elapsed_sec
read_text secs h = read_zero_or (interval_parts secs) (interval_parts-Printable secs h)

-- The text of an interval, read back as amounts with a letter for the unit and one space between
-- two of them, stands for no more than the interval, and for less by less than its precision: an
-- hour from a day on, a minute from ten minutes on, a second below that. The interval is an int of
-- 64 bits that is not below 0.
pub read_interval-time_interval_from_elapsed_sec :
    (secs : ℕ)
    → secs < 2 ^ 63
    → let said = read_interval 0 (time_interval_from_elapsed_sec (pos secs)) in
      (said ≤ secs) × (secs < said + precision secs)
read_interval-time_interval_from_elapsed_sec secs h =
    rw (read_text secs h) (total-interval_parts secs)
