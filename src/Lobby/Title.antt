-- ===== src/Lobby/Title.antt =====
-- internal/app/lobby/title.go and level.go: the title of a room, and the label of its level.
use cossacks_game_server.Base.{
  ℕ, ◌+◌, ◌≤◌, Bool, true, false, not, ◌||◌, [], ◌∷◌, ◌++◌, Bytes, codes, if◌then◌else◌, ◌==◌, ltb,
  length, take, replicate, is_empty, ◌≡◌, refl, arith, zero, suc, ◌∙◌, ap, sym, append-nil,
}
use cossacks_game_server.Base.Int.{ℤ, pos, negsuc}
use cossacks_game_server.Base.Strings.{trim_space, trim_front, trim_back, is_space2, is_space3}

abbrev pub max_title_len : ℕ
max_title_len = 60

-- A byte of `titleControlBytes`.
abbrev pub is_control : ℕ → Bool
is_control c = ltb c 0x20 || c == 0x7F

-- `strings.ContainsAny(raw, titleControlBytes)`.
unfoldable pub has_control : Bytes → Bool
has_control [] = false
has_control (c ∷ s) = is_control c || has_control s

unfoldable pub validate_title : Bytes → Bool
unfolding has_control
validate_title raw = if is_empty (trim_space raw) then false else not (has_control raw)

unfoldable pub normalize_title : Bytes → Bytes
normalize_title raw =
    trim_space (if ltb max_title_len (length raw) then take max_title_len raw else raw)

-- `LevelLabel`.
unfoldable pub level_label : ℤ → Bytes
level_label (negsuc n) = codes "For all"
level_label (pos n) =
    if n == 1
    then codes "Easy"
    else if n == 2
    then codes "Normal"
    else if n == 3
    then codes "Hard"
    else codes "For all"

trim_front_space :
    (two : ℕ → ℕ → Bool) (three : ℕ → ℕ → ℕ → Bool) (s : Bytes)
    → trim_front two three (32 ∷ s) ≡ trim_front two three s
unfolding trim_front
trim_front_space two three [] = refl
trim_front_space two three (a ∷ []) = refl
trim_front_space two three (a ∷ b ∷ s) = refl

trim_front_spaces :
    (two : ℕ → ℕ → Bool) (three : ℕ → ℕ → ℕ → Bool) (n : ℕ) (s : Bytes)
    → trim_front two three (replicate n 32 ++ s) ≡ trim_front two three s
trim_front_spaces two three zero s = refl
trim_front_spaces two three (suc n) s =
    trim_front_space two three (replicate n 32 ++ s) ∙ trim_front_spaces two three n s

trim_space_spaces : (n : ℕ) (s : Bytes) → trim_space (replicate n 32 ++ s) ≡ trim_space s
unfolding trim_space
trim_space_spaces n s = ap trim_back (trim_front_spaces is_space2 is_space3 n s)

has_control_spaces : (n : ℕ) (s : Bytes) → has_control (replicate n 32 ++ s) ≡ has_control s
unfolding has_control
has_control_spaces zero s = refl
has_control_spaces (suc n) s = has_control_spaces n s

take_spaces : (k n : ℕ) (s : Bytes) → k ≤ n → take k (replicate n 32 ++ s) ≡ replicate k 32
take_spaces zero n s h = refl
take_spaces (suc k) zero s h = absurd (omega arith)
take_spaces (suc k) (suc n) s h = ap (◌∷◌ 32) (take_spaces k n s (omega arith))

trim_space_blank : (n : ℕ) → trim_space (replicate n 32) ≡ []
trim_space_blank n =
    ap trim_space (sym (append-nil (replicate n 32)))
    ∙ trim_space_spaces n []
    ∙ unfold trim_space in refl

length-padded : (n : ℕ) (s : Bytes) → length (replicate n 32 ++ s) ≡ n + length s
length-padded zero s = omega arith
length-padded (suc n) s = omega (arith, length-padded n s)

normalize_title-blank :
    (n c : ℕ) (s : Bytes) → 60 ≤ n → normalize_title (replicate n 32 ++ c ∷ s) ≡ []
unfolding normalize_title
normalize_title-blank n c s pad =
    let long : ltb 60 (length (replicate n 32 ++ c ∷ s)) ≡ true =
      ground (arith, length-padded n (c ∷ s)) in
    rw (long, take_spaces 60 n (c ∷ s) pad) (trim_space_blank 60)

-- Sixty spaces or more before a valid title: `ValidateTitle` accepts the text, and
-- `NormalizeTitle`, which cuts before it trims, leaves the empty title of it.
pub normalize_title_padded :
    (n : ℕ) (s : Bytes)
    → validate_title s ≡ true
    → 60 ≤ n
    → (validate_title (replicate n 32 ++ s) ≡ true) × (normalize_title (replicate n 32 ++ s) ≡ [])
normalize_title_padded n [] valid pad =
    let refused : validate_title [] ≡ false = unfold validate_title trim_space in refl in cc
normalize_title_padded n (c ∷ s) valid pad = (
  unfold validate_title in rw (trim_space_spaces n (c ∷ s), has_control_spaces n (c ∷ s)) valid,
  normalize_title-blank n c s pad,
)
