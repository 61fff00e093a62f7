-- ===== src/Rooms/ControlSum.antt =====
-- internal/adapter/rooms/state.go, `RoomControlSum`, and its copy `controlSum` in
-- internal/app/lobby/leave.go: the checksum of a room's row, in uint32 arithmetic.
pub mod Adler
use Prim.Native.Nat.{bit_or}
use mathlib.Core.List.{flatten}
use cossacks_game_server.Base.{
  ℕ, zero, suc, ◌+◌, ◌*◌, ◌%◌, ◌^◌, List, [], ◌∷◌, Bytes, is_empty, if◌then◌else◌, length, take,
  drop,
}

abbrev pub modulus : ℕ
modulus = 0xFFF1

abbrev pub chunk : ℕ
chunk = 5552

-- The inner loop: `v1 += s[j]; v2 += v1`.
unfoldable pub add_bytes : ℕ → ℕ → Bytes → ℕ × ℕ
add_bytes v1 v2 [] = (v1, v2)
add_bytes v1 v2 (c ∷ s) = let w1 = (v1 + c) % 2 ^ 32 in add_bytes w1 ((v2 + w1) % 2 ^ 32) s

-- The outer loop, one chunk a round. Its rounds are at most the bytes that are left.
unfoldable pub add_chunks : ℕ → ℕ → ℕ → Bytes → ℕ × ℕ
unfolding add_bytes
add_chunks zero v1 v2 s = (v1, v2)
add_chunks (suc fuel) v1 v2 s =
    let (w1, w2) = add_bytes v1 v2 (take chunk s) in
    let rest = add_chunks fuel (w1 % modulus) (w2 % modulus) (drop chunk s) in
    if is_empty s then (v1, v2) else rest

unfoldable pub checksum : Bytes → ℕ
unfolding add_chunks
checksum s = let (v1, v2) = add_chunks (length s) 1 0 s in bit_or (v2 * 2 ^ 16 % 2 ^ 32) v1

-- `strings.Join(row, "")` is the concatenation of the columns.
unfoldable pub control_sum : List Bytes → ℕ
unfolding checksum flatten
control_sum row = checksum (flatten row)
