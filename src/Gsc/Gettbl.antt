-- ===== src/Gsc/Gettbl.antt =====
-- internal/app/gsc/commands/gettbl.go: the changes of the room table since a client's last view.
pub mod View
use cossacks_game_server.Base.{
  ℕ, zero, suc, ◌+◌, ◌<◌, ◌^◌, Bool, true, false, not, ◌&&◌, ◌||◌, Option, none, some, List, [],
  ◌∷◌, ◌++◌, Bytes, codes, if◌then◌else◌, leb, ◌==◌, length, bytes_eq, All, ◌≡◌, refl, arith,
}
use cossacks_game_server.Base.Strings.{trim_left, trim_right}
use cossacks_game_server.Base.Format.{print_uint}
use cossacks_game_server.Base.LittleEndian.{put_le, get_le}
use cossacks_game_server.Rooms.{Ref, Map, Room, Store, get_room_by_sum, load_room}
use cossacks_game_server.Wire.Command.{Command, CommandSet}

-- `unpackU32LE` and `packU32LE`: whole words only.
unfoldable pub unpack_u32 : Bytes → List ℕ
unfolding get_le
unpack_u32 (a ∷ b ∷ c ∷ d ∷ s) = get_le (a ∷ b ∷ c ∷ d ∷ []) ∷ unpack_u32 s
unpack_u32 _ = []

unfoldable pub pack_u32 : List ℕ → Bytes
unfolding put_le
pack_u32 [] = []
pack_u32 (n ∷ ns) = put_le 4 n ++ pack_u32 ns

-- `strings.EqualFold` with a text of ASCII characters and no `k`: the long s folds to `s` as well.
unfoldable pub fold_case : Bytes → Bytes
fold_case [] = []
fold_case (c ∷ []) = (if leb b'A' c && leb c b'Z' then c + 32 else c) ∷ []
fold_case (c ∷ d ∷ s) =
    let after_one = fold_case (d ∷ s) in
    let after_two = fold_case s in
    if c == 0xC5 && d == 0xBF
    then b's' ∷ after_two
    else (if leb b'A' c && leb c b'Z' then c + 32 else c) ∷ after_one

unfoldable pub equal_fold : Bytes → Bytes → Bool
unfolding fold_case
equal_fold s t = bytes_eq (fold_case s) (fold_case t)

unfoldable pub contains : ℕ → List ℕ → Bool
contains sum [] = false
contains sum (other ∷ sums) = other == sum || contains sum sums

-- Whether the client may see the room of a pointer.
unfoldable pub shown : Store → (hide_started : Bool) → Option Ref → Bool
shown s hide none = false
shown s hide (some r) = elim (load_room s r) [
  | none ↦ false
  | some room ↦ if hide && room.started then false else true
]

-- `dtbl`: the requested sums of which no room is shown.
unfoldable pub deleted_sums : Store → Bool → List ℕ → List ℕ
unfolding shown
deleted_sums s hide [] = []
deleted_sums s hide (sum ∷ sums) =
    let rest = deleted_sums s hide sums in
    if shown s hide (get_room_by_sum s sum) then rest else sum ∷ rest

-- `tblRows`: the rooms of `AllRooms` that are shown and whose sum was not requested.
unfoldable pub added_rows :
    Store → (hide_started matches : Bool) → List ℕ → Map Ref → List (List Bytes)
unfolding contains
added_rows s hide matches requested [] = []
added_rows s hide matches requested ((id, r) ∷ rooms) =
    let rest = added_rows s hide matches requested rooms in
    elim (load_room s r) [
      | none ↦ rest
      | some room ↦
          if hide && room.started
          then rest
          else if matches && not (contains room.ctl_sum requested)
          then room.row ∷ rest
          else rest
    ]

unfoldable pub concat_rows : List (List Bytes) → List Bytes
concat_rows [] = []
concat_rows (row ∷ rows) = row ++ concat_rows rows

-- The answer of `GETTBL.Handle`; `none` where arguments are missing.
unfoldable pub gettbl :
    Store → (dev show_started_rooms : Bool) → (ver : ℕ) → List Bytes → Option CommandSet
unfolding unpack_u32 pack_u32 equal_fold deleted_sums added_rows concat_rows trim_left trim_right
    print_uint
gettbl s dev show ver (arg ∷ _ ∷ sums ∷ _) =
    let name = trim_right (λ c. c == 0) (trim_left (λ c. c == 0) arg) in
    let requested = unpack_u32 sums in
    let hide = not dev && not show in
    let rows =
      added_rows s hide (equal_fold name (codes "ROOMS_V" ++ print_uint ver)) requested
        s.rooms_by_id in
    some (
      record {
        name = codes "LW_dtbl";
        args = (name ++ 0 ∷ []) ∷ pack_u32 (deleted_sums s hide requested) ∷ [];
      }
      ∷ record {
        name = codes "LW_tbl";
        args = (name ++ 0 ∷ []) ∷ print_uint (length rows) ∷ concat_rows rows;
      }
      ∷ [])
gettbl s dev show ver _ = none
