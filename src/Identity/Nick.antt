-- ===== src/Identity/Nick.antt =====
-- internal/app/identity/nick.go: the rules for a nick.
use cossacks_game_server.Base.{
  ℕ, ◌≤◌, Bool, true, false, ◌&&◌, ◌||◌, [], ◌∷◌, Bytes, codes, if◌then◌else◌, ◌==◌, leb, ltb,
  length, length-take, take, ◌≡◌, refl, arith, zero, suc,
}

pub data NickError : Type 0 where
  nick_ok empty bad_character starts_with_digit starts_with_dash : NickError

-- `NickError.Message`.
unfoldable pub message : NickError → Bytes
message nick_ok = []
message empty = codes "Enter nick"
message bad_character = codes "Bad character in nick. Nick can contain only a-z,A-Z,0-9,[]_-"
message starts_with_digit = codes "Bad character in nick. Nick can't start with numerical digit"
message starts_with_dash = codes "Bad character in nick. Nick can't start with -"

abbrev pub max_nick_len : ℕ
max_nick_len = 25

abbrev pub is_digit : ℕ → Bool
is_digit c = leb b'0' c && leb c b'9'

-- A byte of `[\[\]_\w-]`; a code point outside ASCII has no such byte.
unfoldable pub is_allowed : ℕ → Bool
is_allowed c =
    c == b'['
    || c == b']'
    || c == b'_'
    || c == b'-'
    || is_digit c
    || leb b'a' c && leb c b'z'
    || leb b'A' c && leb c b'Z'

-- `nickAllowedPattern` over the bytes behind the first.
unfoldable pub all_allowed : Bytes → Bool
all_allowed [] = true
all_allowed (c ∷ s) = is_allowed c && all_allowed s

unfoldable pub validate_nick : Bytes → NickError
unfolding all_allowed
validate_nick [] = empty
validate_nick (c ∷ s) =
    if all_allowed (c ∷ s)
    then if c == b'-' then starts_with_dash else if is_digit c then starts_with_digit else nick_ok
    else bad_character

unfoldable pub truncate_nick : Bytes → Bytes
truncate_nick nick = if ltb max_nick_len (length nick) then take max_nick_len nick else nick

-- The loop that drops what is not allowed.
unfoldable pub keep_allowed : Bytes → Bytes
keep_allowed [] = []
keep_allowed (c ∷ s) = let rest = keep_allowed s in if is_allowed c then c ∷ rest else rest

repair : Bytes → Bytes
repair [] = codes "player"
repair (c ∷ s) = if is_digit c then b'_' ∷ c ∷ s else c ∷ s

unfoldable pub sanitize_account_nick : Bytes → Bytes
unfolding keep_allowed repair
sanitize_account_nick nick = repair (keep_allowed nick)

all_allowed-keep_allowed : (s : Bytes) → all_allowed (keep_allowed s) ≡ true
unfolding keep_allowed all_allowed
all_allowed-keep_allowed [] = refl
all_allowed-keep_allowed (c ∷ s) = ground (arith, all_allowed-keep_allowed s)

abbrev pub starts_with : ℕ → Bytes → Bool
starts_with b [] = false
starts_with b (c ∷ s) = c == b

underscore_allowed : is_allowed b'_' ≡ true
unfolding is_allowed
underscore_allowed = refl

validate_nick-repair :
    (s : Bytes)
    → all_allowed s ≡ true
    → validate_nick (repair s) ≡ (if starts_with b'-' s then starts_with_dash else nick_ok)
unfolding repair validate_nick
validate_nick-repair [] h = unfold is_allowed in refl
validate_nick-repair (c ∷ s) h = ground (arith, underscore_allowed)

-- What `ValidateNick` says of a sanitised login: it passes, unless the first byte that is kept is a
-- dash, which `SanitizeAccountNick` does not repair.
pub validate_nick-sanitize_account_nick :
    (login : Bytes)
    → validate_nick (sanitize_account_nick login)
      ≡ (if starts_with b'-' (keep_allowed login) then starts_with_dash else nick_ok)
unfolding sanitize_account_nick
validate_nick-sanitize_account_nick login =
    validate_nick-repair (keep_allowed login) (all_allowed-keep_allowed login)

all_allowed-take : (n : ℕ) (s : Bytes) → all_allowed s ≡ true → all_allowed (take n s) ≡ true
unfolding all_allowed
all_allowed-take zero s h = refl
all_allowed-take (suc n) [] h = refl
all_allowed-take (suc n) (c ∷ s) h = ground (arith, all_allowed-take n s)

-- The first byte of a nick decides whether it passes, once all its bytes are allowed.
validate_nick-take :
    (n : ℕ) (nick : Bytes)
    → validate_nick nick ≡ nick_ok
    → validate_nick (take (suc n) nick) ≡ nick_ok
unfolding validate_nick
validate_nick-take n [] h = h
validate_nick-take n (c ∷ s) h = ground (arith, all_allowed-take n s)

-- Cutting a valid nick leaves a valid nick of at most 25 bytes.
pub validate_nick-truncate_nick :
    (nick : Bytes)
    → validate_nick nick ≡ nick_ok
    → (validate_nick (truncate_nick nick) ≡ nick_ok) × (length (truncate_nick nick) ≤ 25)
unfolding truncate_nick
validate_nick-truncate_nick nick h =
    ground (arith, validate_nick-take 24 nick h, length-take 25 nick)
