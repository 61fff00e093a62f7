-- ===== src/Gsc/Gettbl/View.antt =====
-- internal/app/gsc/commands/gettbl.go: the client's table after the changes.
use cossacks_game_server.Base.{
  Option-cases, ℕ, ◌<◌, ◌^◌, Bool, true, false, not, ◌&&◌, some, List, [], ◌∷◌, ◌++◌, Bytes, All,
  ◌≡◌, refl, arith, ap, ◌⊎◌, inl, inr, Bool-cases, ◌∙◌,
}
use cossacks_game_server.Base.LittleEndian.{put_le, get_le, get_le-put_le}
use cossacks_game_server.Base.{none, Option, codes, length, ◌==◌}
use cossacks_game_server.Base.Format.{print_uint}
use cossacks_game_server.Base.Strings.{trim_left, trim_right}
use cossacks_game_server.Wire.Command.{CommandSet}
use cossacks_game_server.Rooms.{Ref, Map, Room, Store, get_room_by_sum, load_room}
use cossacks_game_server.Gsc.Gettbl.{
  unpack_u32, pack_u32, contains, shown, deleted_sums, added_rows, equal_fold, concat_rows, gettbl,
}

abbrev Word : ℕ → Type 0
Word n = n < 2 ^ 32

unpack_u32_cons :
    (n : ℕ) (s : Bytes) → unpack_u32 (put_le 4 n ++ s) ≡ get_le (put_le 4 n) ∷ unpack_u32 s
unfolding unpack_u32 put_le
unpack_u32_cons n s = refl

unpack_u32_nil : unpack_u32 [] ≡ []
unfolding unpack_u32
unpack_u32_nil = refl

-- The sums that the server packs are the sums that are unpacked from its bytes.
pub unpack_u32-pack_u32 : (ns : List ℕ) → All Word ns → unpack_u32 (pack_u32 ns) ≡ ns
unfolding pack_u32
unpack_u32-pack_u32 [] h = unpack_u32_nil
unpack_u32-pack_u32 (n ∷ ns) (hn, h) =
    rw (unpack_u32_cons n (pack_u32 ns), get_le-put_le 4 n (omega arith), unpack_u32-pack_u32 ns h)
      refl

contains-deleted_sums :
    (s : Store) (hide : Bool) (requested : List ℕ) (sum : ℕ)
    → contains sum (deleted_sums s hide requested)
      ≡ (contains sum requested && not (shown s hide (get_room_by_sum s sum)))
unfolding contains deleted_sums
contains-deleted_sums s hide [] sum = refl
contains-deleted_sums s hide (other ∷ requested) sum =
    ground (arith, contains-deleted_sums s hide requested sum)

abbrev pub Among : List Bytes → List (List Bytes) → Type 0
Among row [] = ⊥
Among row (other ∷ rows) = (other ≡ row) ⊎ Among row rows

-- The entry is in the map.
abbrev pub Listed : ℕ → Ref → Map Ref → Type 0
Listed id r [] = ⊥
Listed id r ((other, r') ∷ rooms) = ((other ≡ id) × (r' ≡ r)) ⊎ Listed id r rooms

added_rows-Among :
    (s : Store) (hide : Bool) (requested : List ℕ) (rooms : Map Ref) (id : ℕ) (r : Ref)
    (room : Room)
    → Listed id r rooms
    → load_room s r ≡ some room
    → (hide && room.started) ≡ false
    → contains room.ctl_sum requested ≡ false
    → Among room.row (added_rows s hide true requested rooms)
unfolding added_rows
added_rows-Among s hide requested [] id r room x l v c = elim x [ ]
added_rows-Among s hide requested ((other, r') ∷ rooms) id r room (inl (e, e')) l v c =
    rw (e', l, v, c, added_rows) (inl refl)
added_rows-Among s hide requested ((other, r') ∷ rooms) id r room (inr later) l v c =
    let rest = added_rows-Among s hide requested rooms id r room later l v c in
    elim (Option-cases (load_room s r')) [
      | inl e ↦ rw (e, added_rows) rest
      | inr (room', e) ↦ elim (Bool-cases (hide && room'.started)) [
        | inl h ↦ rw (e, h, added_rows) rest
        | inr h ↦ elim (Bool-cases (contains room'.ctl_sum requested)) [
          | inl k ↦ rw (e, h, k, added_rows) rest
          | inr k ↦ rw (e, h, k, added_rows) (inr rest)
        ]
      ]
    ]

-- A room of the list that the client may see and that it did not ask for, with the row.
abbrev pub Sent : Store → Bool → List ℕ → Map Ref → List Bytes → Type 0
Sent s hide requested rooms row =
    (id : ℕ) × (r : Ref) × (room : Room) × Listed id r rooms
    × (load_room s r ≡ some room)
    × ((hide && room.started) ≡ false)
    × (contains room.ctl_sum requested ≡ false)
    × (room.row ≡ row)

Sent-later :
    (s : Store) (hide : Bool) (requested : List ℕ) (entry : ℕ × Ref) (rooms : Map Ref)
    (row : List Bytes)
    → Sent s hide requested rooms row
    → Sent s hide requested (entry ∷ rooms) row
Sent-later s hide requested (other, r') rooms row (id, r, room, listed, l, v, c, same) =
    (id, r, room, inr listed, l, v, c, same)

added_rows-Sent :
    (s : Store) (hide : Bool) (requested : List ℕ) (rooms : Map Ref) (row : List Bytes)
    → Among row (added_rows s hide true requested rooms)
    → Sent s hide requested rooms row
unfolding added_rows
added_rows-Sent s hide requested [] row x = elim x [ ]
added_rows-Sent s hide requested ((id, r) ∷ rooms) row x =
    let later : Among row (added_rows s hide true requested rooms)
        → Sent s hide requested ((id, r) ∷ rooms) row =
      λ y.
        Sent-later s hide requested (id, r) rooms row
          (added_rows-Sent s hide requested rooms row y) in
    elim (Option-cases (load_room s r)) [
      | inl e ↦ later (rw (e, added_rows) at x)
      | inr (room, e) ↦ elim (Bool-cases (hide && room.started)) [
        | inl h ↦ later (rw (e, h, added_rows) at x)
        | inr h ↦ elim (Bool-cases (contains room.ctl_sum requested)) [
          | inl k ↦ later (rw (e, h, k, added_rows) at x)
          | inr k ↦
              let here : (room.row ≡ row) ⊎ Among row (added_rows s hide true requested rooms) =
                rw (e, h, k, added_rows) at x in
              elim here [
                | inl same ↦ (id, r, room, inl (refl, refl), e, h, k, same)
                | inr y ↦ later y
              ]
        ]
      ]
    ]

added_rows-nil :
    (s : Store) (hide : Bool) (requested : List ℕ) (rooms : Map Ref)
    → added_rows s hide false requested rooms ≡ []
unfolding added_rows
added_rows-nil s hide requested [] = refl
added_rows-nil s hide requested ((id, r) ∷ rooms) =
    ground (arith, added_rows-nil s hide requested rooms)

shown_loaded :
    (s : Store) (hide : Bool) (r : Ref) (room : Room)
    → load_room s r ≡ some room
    → (hide && room.started) ≡ false
    → shown s hide (some r) ≡ true
unfolding shown
shown_loaded s hide r room l v = rw (l, v, shown) refl

goes_only :
    (s : Store) (hide : Bool) (requested : List ℕ) (sum : ℕ)
    → contains sum (deleted_sums s hide requested) ≡ true
    → contains sum requested ≡ true
goes_only s hide requested sum h =
    let e = contains-deleted_sums s hide requested sum in ground arith

goes_hidden :
    (s : Store) (hide : Bool) (requested : List ℕ) (sum : ℕ) (r : Ref) (room : Room)
    → contains sum (deleted_sums s hide requested) ≡ true
    → get_room_by_sum s sum ≡ some r
    → load_room s r ≡ some room
    → (hide && room.started) ≡ true
goes_hidden s hide requested sum r room h indexed l = elim (Bool-cases (hide && room.started)) [
  | inl e ↦ e
  | inr e ↦
      let seen : shown s hide (get_room_by_sum s sum) ≡ true =
        ap (shown s hide) indexed ∙ shown_loaded s hide r room l e in
      let e' = contains-deleted_sums s hide requested sum in ground (arith, h, seen, e')
]

shown_cases :
    (s : Store) (hide : Bool) (o : Option Ref)
    → shown s hide o ≡ true
    → (r : Ref) × (room : Room) × (o ≡ some r)
      × (load_room s r ≡ some room)
      × ((hide && room.started) ≡ false)
unfolding shown
shown_cases s hide none h = absurd (ground (arith, h))
shown_cases s hide (some r) h = elim (Option-cases (load_room s r)) [
  | inl e ↦
      let unseen : shown s hide (some r) ≡ false = rw (e, shown) refl in
      absurd (ground (arith, h, unseen))
  | inr (room, e) ↦ elim (Bool-cases (hide && room.started)) [
    | inl v ↦
        let unseen : shown s hide (some r) ≡ false = rw (e, v, shown) refl in
        absurd (ground (arith, h, unseen))
    | inr v ↦ (r, room, refl, e, v)
  ]
]

stays_shown :
    (s : Store) (hide : Bool) (requested : List ℕ) (sum : ℕ)
    → contains sum requested ≡ true
    → contains sum (deleted_sums s hide requested) ≡ false
    → (r : Ref) × (room : Room) × (get_room_by_sum s sum ≡ some r)
      × (load_room s r ≡ some room)
      × ((hide && room.started) ≡ false)
stays_shown s hide requested sum asked kept =
    let e = contains-deleted_sums s hide requested sum in
    shown_cases s hide (get_room_by_sum s sum) (ground (arith, e, asked, kept))

-- What the client is told, by the sums that are to go and the rows that are sent.
pub record Told (s : Store) (hide matches : Bool) (requested gone : List ℕ)
    (rows : List (List Bytes)) : Type 0 where
  pub goes_only : (sum : ℕ) → contains sum gone ≡ true → contains sum requested ≡ true
  pub goes :
      (sum : ℕ) (r : Ref) (room : Room)
      → contains sum gone ≡ true
      → get_room_by_sum s sum ≡ some r
      → load_room s r ≡ some room
      → (hide && room.started) ≡ true
  pub stays :
      (sum : ℕ)
      → contains sum requested ≡ true
      → contains sum gone ≡ false
      → (r : Ref) × (room : Room) × (get_room_by_sum s sum ≡ some r)
        × (load_room s r ≡ some room)
        × ((hide && room.started) ≡ false)
  pub sent : (row : List Bytes) → Among row rows → Sent s hide requested s.rooms_by_id row
  pub nothing_else : matches ≡ false → rows ≡ []
  pub complete :
      (id : ℕ) (r : Ref) (room : Room)
      → matches ≡ true
      → Listed id r s.rooms_by_id
      → load_room s r ≡ some room
      → (hide && room.started) ≡ false
      → get_room_by_sum s room.ctl_sum ≡ some r
      → ((contains room.ctl_sum requested ≡ true) × (contains room.ctl_sum gone ≡ false))
        ⊎ Among room.row rows

-- The answer in bytes: the table's name, the packed sums that go, the count of the rows and the rows.
abbrev pub table_answer : Bytes → List ℕ → List (List Bytes) → CommandSet
table_answer name gone rows =
    record { name = codes "LW_dtbl"; args = (name ++ 0 ∷ []) ∷ pack_u32 gone ∷ [] }
    ∷ record {
      name = codes "LW_tbl";
      args = (name ++ 0 ∷ []) ∷ print_uint (length rows) ∷ concat_rows rows;
    }
    ∷ []

-- The name of the table without its zero bytes, and the one that the rooms of a version have.
abbrev pub table_name : Bytes → Bytes
table_name arg = trim_right (λ c. c == 0) (trim_left (λ c. c == 0) arg)

abbrev pub is_room_table : ℕ → Bytes → Bool
is_room_table ver arg = equal_fold (table_name arg) (codes "ROOMS_V" ++ print_uint ver)

kept-not_gone : (a b : Bool) → a ≡ true → b ≡ true → (a && not b) ≡ false
kept-not_gone a b h k = ground arith

added_rows-Told :
    (s : Store) (hide matches : Bool) (requested : List ℕ)
    → Told s hide matches requested
        (deleted_sums s hide requested)
        (added_rows s hide matches requested s.rooms_by_id)
added_rows-Told s hide false requested = record {
  goes_only = goes_only s hide requested;
  goes = goes_hidden s hide requested;
  stays = stays_shown s hide requested;
  sent = λ row x. elim (rw (added_rows-nil s hide requested s.rooms_by_id) at x) [ ];
  nothing_else = λ _. added_rows-nil s hide requested s.rooms_by_id;
  complete = λ id r room h. absurd (ground (arith, h));
}
added_rows-Told s hide true requested = record {
  goes_only = goes_only s hide requested;
  goes = goes_hidden s hide requested;
  stays = stays_shown s hide requested;
  sent = added_rows-Sent s hide requested s.rooms_by_id;
  nothing_else = λ h. absurd (ground (arith, h));
  complete = λ id r room h listed l v indexed. elim (Bool-cases (contains room.ctl_sum requested)) [
    | inl c ↦ inl (
      c,
      contains-deleted_sums s hide requested room.ctl_sum
          ∙ kept-not_gone (contains room.ctl_sum requested)
              (shown s hide (get_room_by_sum s room.ctl_sum)) c
              (ap (shown s hide) indexed ∙ shown_loaded s hide r room l v),
    )
    | inr c ↦ inr (added_rows-Among s hide requested s.rooms_by_id id r room listed l v c)
  ];
}

-- The answer to a GETTBL request with three arguments or more, with the sums that the client has
-- rows for in the third: it tells which of these sums go and sends rows. Only
-- requested sums go: those that stay are led by the sum index to a room that the client may see, and
-- those that go are not; a started room is hidden from a client that is no developer, unless the
-- settings show it. A row is sent only of a room of the
-- list that the client may see and whose sum was not requested, and no row where the name is not
-- that of the version's table, up to case; and of each room in the list that the client may see and
-- that the sum index knows, the client keeps the row or is sent it.
pub gettbl_view :
    (s : Store) (dev show : Bool) (ver : ℕ) (arg mask sums : Bytes) (more : List Bytes)
    → let hide = not dev && not show in
      (gone : List ℕ) × (rows : List (List Bytes)) × (gettbl s dev show ver
          (arg ∷ mask ∷ sums ∷ more)
        ≡ some (table_answer (table_name arg) gone rows))
      × Told s hide (is_room_table ver arg) (unpack_u32 sums) gone rows
unfolding gettbl
gettbl_view s dev show ver arg mask sums more =
    let hide = not dev && not show in
    let requested = unpack_u32 sums in
    let matches = is_room_table ver arg in
    (
      deleted_sums s hide requested,
      added_rows s hide matches requested s.rooms_by_id,
      refl,
      added_rows-Told s hide matches requested,
    )
