-- ===== src/Match/StartedUsers.antt =====
-- internal/app/match/started_users.go: the players of a started room, from the tail of `start`.
pub mod Seating
use cossacks_game_server.Base.{
  ℕ, zero, suc, ◌+◌, ◌-◌, Bool, true, false, ◌&&◌, Option, none, some, List, [], ◌∷◌, ◌++◌, Bytes,
  if◌then◌else◌, ltb, length,
}
use cossacks_game_server.Base.Int.{pos_part}
use cossacks_game_server.Base.Maps.{lookup}
use cossacks_game_server.Rooms.{
  Ref, Map, Player, Room, Store, load_room, store_room, load_player, store_player,
}
use cossacks_game_server.Match.IntArg.{int_arg, to_u32}

-- A tuple of `player_id`, `nation`, `theam` and `color`.
pub record Seat : Type 0 where
  pub pid : ℕ
  pub nation : ℕ
  pub theam : ℕ
  pub color : ℕ

-- `none` where one of the four does not parse.
unfoldable pub parse_seat : Bytes → Bytes → Bytes → Bytes → Option Seat
parse_seat a b c d =
    let (pid, ok1) = int_arg a in
    let (nation, ok2) = int_arg b in
    let (theam, ok3) = int_arg c in
    let (color, ok4) = int_arg d in
    if ok1 && ok2 && ok3 && ok4
    then some (record {
      pid = to_u32 pid;
      nation = to_u32 nation;
      theam = to_u32 theam;
      color = to_u32 color;
    })
    else none

-- The pointer that a room holds for the player of a seat.
unfoldable pub seated : Map (Option Ref) → Option Seat → Option (Ref × Seat)
seated players none = none
seated players (some seat) = elim (lookup seat.pid players) [
  | none ↦ none
  | some none ↦ none
  | some (some p) ↦ some (p, seat)
]

-- The writes into the player's object.
unfoldable pub take_seat : Store → Ref → Seat → Store
take_seat s p seat = elim (load_player s p) [
  | none ↦ s
  | some player ↦
      store_player s p
        (record player { nation = seat.nation; theam = seat.theam; color = seat.color })
]

-- The loop: at most `left` more players, four arguments at a time.
unfoldable pub seat_users : Store → Map (Option Ref) → ℕ → List Bytes → Store × List Ref
unfolding seated take_seat parse_seat
seat_users s players zero list = (s, [])
seat_users s players (suc left) (a ∷ b ∷ c ∷ d ∷ list) =
    elim (seated players (parse_seat a b c d)) [
      | none ↦ seat_users s players (suc left) list
      | some (p, seat) ↦
          let (s', users) = seat_users (take_seat s p seat) players left list in (s', p ∷ users)
    ]
seat_users s players (suc left) _ = (s, [])

-- `ApplyStartedUsers` on a room pointer.
unfoldable pub apply_started_users : Store → Ref → List Bytes → Store
unfolding seat_users
apply_started_users s r (sav ∷ map_name ∷ count ∷ list) = elim (load_room s r) [
  | none ↦ s
  | some room ↦
      let (n, parsed) = int_arg count in
      let (s', users) = seat_users s room.players (pos_part n) list in
      if parsed && ltb 0 (pos_part n)
      then store_room s' r (record room { started_users = users })
      else s
]
apply_started_users s r _ = s
