-- ===== src/Match/StartedUsers/Seating.antt =====
-- internal/app/match/started_users.go: who is among the started users of a room.
use cossacks_game_server.Base.{
  ℕ, zero, suc, ◌*◌, ◌≤◌, Option, none, some, List, [], ◌∷◌, Bytes, length, All, ◌≡◌, arith, inl,
  inr, Option-cases,
}
use cossacks_game_server.Base.Maps.{lookup}
use cossacks_game_server.Rooms.{Ref, Map, Store}
use cossacks_game_server.Match.StartedUsers.{Seat, parse_seat, seated, take_seat, seat_users}

-- The map leads an id to the pointer.
abbrev pub MemberOf : Map (Option Ref) → Ref → Type 0
MemberOf players p = (id : ℕ) × (lookup id players ≡ some (some p))

seated-MemberOf :
    (players : Map (Option Ref)) (seat : Option Seat) (p : Ref) (got : Seat)
    → seated players seat ≡ some (p, got)
    → MemberOf players p
unfolding seated
seated-MemberOf players none p got h = ground arith
seated-MemberOf players (some seat) p got h = (seat.pid, ground arith)

-- The players whom `ApplyStartedUsers` seats: no more than the count that the host declared, no
-- more than a quarter of the arguments, and each of them in the room.
pub seat_users-members :
    (s : Store) (players : Map (Option Ref)) (count : ℕ) (list : List Bytes)
    → (length (seat_users s players count list).1 ≤ count)
      × (4 * length (seat_users s players count list).1 ≤ length list)
      × All (MemberOf players) (seat_users s players count list).1
unfolding seat_users
seat_users-members s players zero list = (omega arith, omega arith, tt)
seat_users-members s players (suc left) [] = (omega arith, omega arith, tt)
seat_users-members s players (suc left) (a ∷ []) = (omega arith, omega arith, tt)
seat_users-members s players (suc left) (a ∷ b ∷ []) = (omega arith, omega arith, tt)
seat_users-members s players (suc left) (a ∷ b ∷ c ∷ []) = (omega arith, omega arith, tt)
seat_users-members s players (suc left) (a ∷ b ∷ c ∷ d ∷ list) =
    elim (Option-cases (seated players (parse_seat a b c d))) [
      | inl e ↦
          let (few, tuples, members) = seat_users-members s players (suc left) list in
          rw (e, seat_users) (few, omega arith, members)
      | inr ((p, seat), e) ↦
          let (few, tuples, members) = seat_users-members (take_seat s p seat) players left list in
          rw (e, seat_users)
            (
              omega arith,
              omega arith,
              (seated-MemberOf players (parse_seat a b c d) p seat e, members),
            )
    ]
