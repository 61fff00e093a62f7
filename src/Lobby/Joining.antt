-- ===== src/Lobby/Joining.antt =====
-- What `Join` does to the indexes, and the row of a room through joins and leaves.
use cossacks_game_server.Base.{
  ℕ, false, none, some, List, [], ◌∷◌, if◌then◌else◌, ◌==◌, ◌≡◌, refl, sym, ap, ◌∙◌, arith, ==_refl,
}
use cossacks_game_server.Base.Int.{ℤ, pos, ◌+ℤ◌, ◌-ℤ◌}
use cossacks_game_server.Base.Maps.{erase, lookup-insert, lookup-erase}
use cossacks_game_server.Rooms.{
  Ref, Room, Player, Store, Time, load_room, load_player, store_room, get_room, get_room_by_host,
  get_room_by_sum, index_room_by_sum, index_room_by_host, unindex_room_by_sum, next_room_id,
  new_room, index_room_by_id,
}
use cossacks_game_server.Lobby.{
  admit, join, dismiss, build_room, host_id_of, create_params, register_new, RegisterNewParams,
}
use cossacks_game_server.Lobby.Row.{
  RowParams, new_row, set_players_column-new_row, set_players_column,
}

join-admit :
    (s : Store) (r p : Ref) (room : Room) (player : Player) (now : Time)
    → load_room s r ≡ some room
    → load_player s p ≡ some player
    → join s r (some p) now
      ≡ index_room_by_sum
          (index_room_by_host
            (store_room (unindex_room_by_sum s room.ctl_sum) r (admit room player.id p now))
            player.id
            r)
          (admit room player.id p now).ctl_sum
          r
unfolding join
join-admit s r p room player now h k = rw (h, k, join)

-- A call of `Join` with a room and a player. The room admits the player; the player's host entry
-- leads to it and all others stay; every id entry stays; and the sum index leads to the room under
-- its new sum, under its old sum to nothing unless the two are equal, and else where it led.
pub join_lem :
    (s : Store) (r p : Ref) (room : Room) (player : Player) (now : Time)
    → load_room s r ≡ some room
    → load_player s p ≡ some player
    → let room' = admit room player.id p now in
      let s' = join s r (some p) now in
      (load_room s' r ≡ some room')
      × ((q : ℕ)
          → get_room_by_host s' q ≡ (if player.id == q then some r else get_room_by_host s q))
      × ((k : ℕ) → get_room s' k ≡ get_room s k)
      × ((k : ℕ)
          → get_room_by_sum s' k ≡ (
              if room'.ctl_sum == k
              then some r
              else if room.ctl_sum == k
              then none
              else get_room_by_sum s k))
unfolding get_room get_room_by_host get_room_by_sum index_room_by_sum index_room_by_host
    unindex_room_by_sum store_room
join_lem s r p room player now h k =
    let room' = admit room player.id p now in
    rw (join-admit s r p room player now h k) (
      unfold load_room in rw (lookup-insert r r room' s.room_heap, ==_refl r),
      λ q. lookup-insert player.id q r s.rooms_by_pid,
      λ q. refl,
      λ q.
          lookup-insert room'.ctl_sum q r (erase room.ctl_sum s.rooms_by_sum)
          ∙ ap (λ t. if room'.ctl_sum == q then some r else t)
              (lookup-erase room.ctl_sum q s.rooms_by_sum),
    )

-- A visit: a player joins or leaves a room that has not started.
pub data Visit : Type 0 where
  arrives : ℕ → Ref → Time → Visit
  departs : ℕ → Visit

visit : Room → Visit → Room
visit room (arrives pid p now) = admit room pid p now
visit room (departs pid) = dismiss room pid

pub visits : Room → List Visit → Room
unfolding visit
visits room [] = room
visits room (v ∷ vs) = visits (visit room v) vs

-- The room shows the columns that it was registered with, and its own count of players.
abbrev pub Shows : RowParams → ℕ → Room → Type 0
Shows p id room =
    (room.row ≡ new_row p id room.players_count)
    × (room.max_players ≡ p.max_players)
    × (room.started ≡ false)

admit-Shows :
    (p : RowParams) (id : ℕ) (room : Room) (pid : ℕ) (q : Ref) (now : Time)
    → Shows p id room
    → Shows p id (admit room pid q now)
unfolding admit
admit-Shows p id room pid q now (row, most, waiting) = (
  rw (row, most) (set_players_column-new_row p id room.players_count (room.players_count +ℤ pos 1)),
  most,
  waiting,
)

dismiss-waiting :
    (room : Room) (pid : ℕ)
    → room.started ≡ false
    → let count = room.players_count -ℤ pos 1 in
      ((dismiss room pid).row ≡ set_players_column room.row count room.max_players)
      × ((dismiss room pid).players_count ≡ count)
      × ((dismiss room pid).max_players ≡ room.max_players)
      × ((dismiss room pid).started ≡ false)
unfolding dismiss
dismiss-waiting room pid h = ground arith

dismiss-Shows :
    (p : RowParams) (id : ℕ) (room : Room) (pid : ℕ)
    → Shows p id room
    → Shows p id (dismiss room pid)
dismiss-Shows p id room pid (row, most, waiting) =
    let (row', count', most', waiting') = dismiss-waiting room pid waiting in
    (
      row'
          ∙ rw (row, most)
              (set_players_column-new_row p id room.players_count (room.players_count -ℤ pos 1))
          ∙ ap (new_row p id) (sym count'),
      most' ∙ most,
      waiting',
    )

-- The count of players after some visits.
abbrev pub count_after : ℤ → List Visit → ℤ
count_after n [] = n
count_after n (arrives _ _ _ ∷ vs) = count_after (n +ℤ pos 1) vs
count_after n (departs _ ∷ vs) = count_after (n -ℤ pos 1) vs

visits-Shows :
    (p : RowParams) (id : ℕ) (room : Room) (vs : List Visit)
    → Shows p id room
    → Shows p id (visits room vs)
      × ((visits room vs).players_count ≡ count_after room.players_count vs)
unfolding visits
visits-Shows p id room [] h = (h, refl)
visits-Shows p id room (arrives pid q now ∷ vs) h =
    let (shown, count) =
      visits-Shows p id (admit room pid q now) vs (admit-Shows p id room pid q now h) in
    (shown, count ∙ unfold admit in refl)
visits-Shows p id room (departs pid ∷ vs) h =
    let (shown, count) = visits-Shows p id (dismiss room pid) vs (dismiss-Shows p id room pid h) in
    (shown, count ∙ ap (λ n. count_after n vs) ((dismiss-waiting room pid h.2).1))

-- The room behind the pointer that `RegisterNew` returns.
abbrev pub registered : Store → RegisterNewParams → Time → Room
registered s p now =
    let id = (next_room_id s).1 in build_room id (host_id_of s p.host) (create_params p id) now

pub register_new-registered :
    (s : Store) (p : RegisterNewParams) (now : Time)
    → load_room (register_new s p now).0 (register_new s p now).1 ≡ some (registered s p now)
unfolding register_new next_room_id load_room new_room index_room_by_id index_room_by_host
    index_room_by_sum
register_new-registered s p now =
    let r = s.next_ref in lookup-insert r r (registered s p now) s.room_heap ∙ rw (==_refl r)

registered-Shows :
    (s : Store) (p : RegisterNewParams) (now : Time)
    → Shows p.columns (registered s p now).id (registered s p now)
unfolding build_room create_params
registered-Shows s p now = (refl, refl, refl)

-- A room that `RegisterNew` made, after any joins and leaves before its start: its row is the row
-- of a fresh registration with the current count of players in the players column, and that count
-- is one plus the joins less the leaves.
pub visits-registered :
    (s : Store) (p : RegisterNewParams) (now : Time) (vs : List Visit)
    → (room : Room) × (load_room (register_new s p now).0 (register_new s p now).1 ≡ some room)
      × ((visits room vs).row ≡ new_row p.columns room.id (visits room vs).players_count)
      × ((visits room vs).players_count ≡ count_after (pos 1) vs)
visits-registered s p now vs =
    let (shown, count) =
      visits-Shows p.columns (registered s p now).id (registered s p now) vs
        (registered-Shows s p now) in
    (
      registered s p now,
      register_new-registered s p now,
      shown.0,
      count ∙ unfold build_room in refl,
    )
