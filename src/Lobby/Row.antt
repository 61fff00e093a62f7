-- ===== src/Lobby/Row.antt =====
-- The row of a room in the rooms table: `RegisterNew` in internal/app/lobby/create.go,
-- `setPlayersColumn` in leave.go and the marks of `MarkStarted` in start.go.
use Prim.Native.Nat.{◌-◌}
use cossacks_game_server.Base.{
  ℕ, Bool, true, false, List, [], ◌∷◌, ◌++◌, Bytes, codes, if◌then◌else◌, ltb, length, set, ◌≡◌,
  refl,
}
use cossacks_game_server.Base.Int.{ℤ}
use cossacks_game_server.Base.Format.{print_int, print_uint, print_hex}

-- The columns that `RegisterNewParams` gives.
pub record RowParams : Type 0 where
  pub host_addr_int : ℕ
  pub ver : ℕ
  pub title : Bytes
  pub max_players : ℤ
  pub level_label : Bytes
  pub lock_mark : Bytes
  pub nick_str : Bytes
  pub ve_type : Bytes
  pub is_ac : Bool

-- `fmt.Sprintf("%d/%d", playersCount, maxPlayers)`.
unfoldable pub players_column : ℤ → ℤ → Bytes
players_column count most = print_int count ++ b'/' ∷ print_int most

-- The columns behind the optional type.
abbrev row_tail : RowParams → ℕ → ℤ → List Bytes
row_tail p id count =
    p.level_label
    ∷ players_column count p.max_players
    ∷ print_uint p.ver
    ∷ print_uint p.host_addr_int
    ∷ (b'0' ∷ print_hex (0xFFFFFFFF - id))
    ∷ []

-- The row that `RegisterNew` builds, for any count of players.
unfoldable pub new_row : RowParams → ℕ → ℤ → List Bytes
new_row p id count =
    print_uint id
    ∷ p.lock_mark
    ∷ p.title
    ∷ p.nick_str
    ∷ (if p.is_ac then p.ve_type ∷ row_tail p id count else row_tail p id count)

-- The index of the players column: the fourth from the end, or the last of a shorter row.
unfoldable pub players_index : List Bytes → ℕ
players_index row = if ltb (length row) 4 then length row - 1 else length row - 4

-- `setPlayersColumn`; a write into the empty row changes nothing.
unfoldable pub set_players_column : List Bytes → ℤ → ℤ → List Bytes
unfolding players_index
set_players_column row count most = set row (players_index row) (players_column count most)

-- `last[0] = '1'`.
mark_last : Bytes → Bytes
mark_last [] = []
mark_last (c ∷ s) = b'1' ∷ s

mark_final : List Bytes → List Bytes
unfolding mark_last
mark_final [] = []
mark_final (c ∷ []) = mark_last c ∷ []
mark_final (c ∷ d ∷ row) = c ∷ mark_final (d ∷ row)

-- The marks of a started room: the second column, and the first byte of the last.
unfoldable pub start_row : List Bytes → List Bytes
unfolding mark_final
start_row row = mark_final (set row 1 (0x7F ∷ codes "0018"))

-- The same over any columns: the fourth from the end is replaced.
set_fourth :
    (b : Bool) (w x y z type level old new ver addr key : Bytes)
    → let tail = λ (count : Bytes). level ∷ count ∷ ver ∷ addr ∷ key ∷ [] in
      let row = λ (count : Bytes). w ∷ x ∷ y ∷ z ∷ (if b then type ∷ tail count else tail count) in
      set (row old) (players_index (row old)) new ≡ row new
unfolding players_index
set_fourth true w x y z type level old new ver addr key = refl
set_fourth false w x y z type level old new ver addr key = refl

-- Rewriting the column of a registered row, with or without the type column, gives the row of the
-- new count: no other column changes.
pub set_players_column-new_row :
    (p : RowParams) (id : ℕ) (old new : ℤ)
    → set_players_column (new_row p id old) new p.max_players ≡ new_row p id new
unfolding set_players_column new_row
set_players_column-new_row p id old new =
    set_fourth p.is_ac _ _ _ _ _ _ (players_column old p.max_players)
      (players_column new p.max_players) _ _ _
