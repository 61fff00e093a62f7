-- ===== src/Gsc/Params/Parsing.antt =====
-- `ParseOpenParams` and the loop of `Go.Handle` in internal/app/gsc/commands/route_open.go, on
-- what a client writes.
use cossacks_game_server.Base.{
  ℕ, zero, suc, ◌≤◌, true, none, some, List, [], ◌∷◌, ◌++◌, Bytes, codes, length, length-append,
  All, Lacks, ◌≡◌, refl, arith, append_assoc, ap, ◌∙◌,
}
use cossacks_game_server.Gsc.Params.{
  Params, put_param, cut_eq, go_params, is_open_param_key_byte, key_follows, next_param,
  parse_params, parse_open_params,
}

abbrev pub KeyByte : ℕ → Type 0
KeyByte b = is_open_param_key_byte b ≡ true

-- A key of at least one byte, and a value in which no `^` has a key behind it.
pub record Written : Type 0 where
  pub first : ℕ
  pub key : Bytes
  pub value : Bytes

abbrev pub Readable : Written → Type 0
Readable w = All KeyByte (w.first ∷ w.key) × (next_param w.value ≡ none)

abbrev pub write_param : Written → Bytes
write_param w = w.first ∷ w.key ++ b'=' ∷ w.value

-- What a client sends.
unfoldable pub write_params : List Written → Bytes
write_params [] = []
write_params (w ∷ []) = write_param w
write_params (w ∷ v ∷ ws) = write_param w ++ b'^' ∷ write_params (v ∷ ws)

unfoldable pub put_all : List Written → Params → Params
put_all [] params = params
put_all (w ∷ ws) params = put_all ws (put_param (w.first ∷ w.key) w.value params)

cut_eq_key : (key rest : Bytes) → All KeyByte key → cut_eq (key ++ b'=' ∷ rest) ≡ some (key, rest)
unfolding cut_eq
cut_eq_key [] rest h = refl
cut_eq_key (k ∷ key) rest (hk, h) = ground (arith, cut_eq_key key rest h)

key_follows_key : (key rest : Bytes) → All KeyByte key → key_follows (key ++ b'=' ∷ rest) ≡ true
unfolding key_follows
key_follows_key [] rest h = refl
key_follows_key (k ∷ key) rest (hk, h) = ground (arith, key_follows_key key rest h)

key_follows_caret : (s rest : Bytes) → key_follows (s ++ b'^' ∷ rest) ≡ key_follows s
unfolding key_follows
key_follows_caret [] rest = refl
key_follows_caret (c ∷ s) rest = ground (arith, key_follows_caret s rest)

-- A value ends at the first `^` that a key follows.
next_param_value :
    (value rest : Bytes)
    → next_param value ≡ none
    → key_follows rest ≡ true
    → next_param (value ++ b'^' ∷ rest) ≡ some (value, rest)
unfolding next_param
next_param_value [] rest h k = ground arith
next_param_value (c ∷ value) rest h k =
    ground (arith, next_param_value value rest, key_follows_caret value rest)

write_cons :
    (w : Written) (rest : Bytes)
    → write_param w ++ b'^' ∷ rest ≡ (w.first ∷ w.key) ++ b'=' ∷ (w.value ++ b'^' ∷ rest)
write_cons w rest = append_assoc (w.first ∷ w.key) (b'=' ∷ w.value) (b'^' ∷ rest)

key_follows-write_params :
    (w : Written) (ws : List Written) → Readable w → key_follows (write_params (w ∷ ws)) ≡ true
unfolding write_params
key_follows-write_params w [] (keys, h) = key_follows_key (w.first ∷ w.key) w.value keys
key_follows-write_params w (v ∷ ws) (keys, h) =
    rw (write_cons w (write_params (v ∷ ws)))
      (key_follows_key (w.first ∷ w.key) (w.value ++ b'^' ∷ write_params (v ∷ ws)) keys)

parse_one :
    (fuel : ℕ) (w : Written) (out : Params)
    → Readable w
    → parse_params (suc fuel) (write_param w) out ≡ put_param (w.first ∷ w.key) w.value out
unfolding parse_params
parse_one fuel w out (keys, h) =
    rw (cut_eq_key (w.first ∷ w.key) w.value keys, h, parse_params) refl

parse_keyed :
    (fuel first : ℕ) (key value rest : Bytes) (out : Params)
    → All KeyByte (first ∷ key)
    → next_param value ≡ none
    → key_follows rest ≡ true
    → parse_params (suc fuel) ((first ∷ key) ++ b'=' ∷ (value ++ b'^' ∷ rest)) out
      ≡ parse_params fuel rest (put_param (first ∷ key) value out)
unfolding parse_params
parse_keyed fuel first key value rest out keys h follows =
    rw
      (
        cut_eq_key (first ∷ key) (value ++ b'^' ∷ rest) keys,
        next_param_value value rest h follows,
        parse_params,
      )
      refl

parse_more :
    (fuel : ℕ) (w : Written) (rest : Bytes) (out : Params)
    → Readable w
    → key_follows rest ≡ true
    → parse_params (suc fuel) (write_param w ++ b'^' ∷ rest) out
      ≡ parse_params fuel rest (put_param (w.first ∷ w.key) w.value out)
unfolding parse_params
parse_more fuel w rest out (keys, h) follows =
    ap (λ params. parse_params (suc fuel) params out) (write_cons w rest)
    ∙ parse_keyed fuel (w.first) w.key w.value rest out keys h follows

parse_nil : (fuel : ℕ) (out : Params) → parse_params fuel [] out ≡ out
unfolding parse_params cut_eq
parse_nil zero out = refl
parse_nil (suc fuel) out = refl

parse_params-write_params :
    (fuel : ℕ) (ws : List Written) (out : Params)
    → All Readable ws
    → length ws ≤ fuel
    → parse_params fuel (write_params ws) out ≡ put_all ws out
unfolding put_all write_params
parse_params-write_params zero [] out h le = parse_nil zero out
parse_params-write_params (suc fuel) [] out h le = parse_nil (suc fuel) out
parse_params-write_params zero (w ∷ ws) out h le = ground arith
parse_params-write_params (suc fuel) (w ∷ []) out (hw, h) le = parse_one fuel w out hw
parse_params-write_params (suc fuel) (w ∷ v ∷ ws) out (hw, (hv, h)) le =
    rw (parse_more fuel w (write_params (v ∷ ws)) out hw (key_follows-write_params v ws hv)) (
      parse_params-write_params fuel (v ∷ ws) (put_param (w.first ∷ w.key) w.value out) (hv, h)
        (omega arith))

count_le : (ws : List Written) → length ws ≤ length (write_params ws)
unfolding write_params
count_le [] = omega arith
count_le (w ∷ []) = omega arith
count_le (w ∷ v ∷ ws) =
    omega (arith, count_le (v ∷ ws), length-append (write_param w) (b'^' ∷ write_params (v ∷ ws)))

-- `ParseOpenParams` reads back what a client writes: keys of at least one letter, digit or
-- underscore, and values of any bytes, `^` and `=` included, in which no `^` has key bytes and a
-- `=` behind it. A key that is written twice has its last value.
pub parse_open_params-write_params :
    (ws : List Written) → All Readable ws → parse_open_params (write_params ws) ≡ put_all ws []
unfolding parse_open_params
parse_open_params-write_params ws h =
    parse_params-write_params (length (write_params ws)) ws [] h (count_le ws)

cut_eq_colon :
    (key : Bytes) → Lacks b'=' key → cut_eq (key ++ codes ":=") ≡ some (key ++ codes ":", [])
unfolding cut_eq
cut_eq_colon [] h = refl
cut_eq_colon (c ∷ key) (hc, h) = ground (arith, cut_eq_colon key h)

-- The form `key := value` of `go` is never read as such: an argument that ends in `:=` is stored
-- as an empty value under the key with its colon, and the argument behind it is read by itself.
-- The key holds no `=`.
pub go_params_indirect :
    (key : Bytes) (args : List Bytes) (params : Params)
    → Lacks b'=' key
    → go_params ((key ++ codes ":=") ∷ args) params
      ≡ go_params args (put_param (key ++ codes ":") [] params)
unfolding go_params
go_params_indirect key [] params h = rw (cut_eq_colon key h, go_params) refl
go_params_indirect key (next ∷ args) params h = rw (cut_eq_colon key h, go_params) refl
