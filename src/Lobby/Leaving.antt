-- ===== src/Lobby/Leaving.antt =====
-- What `Leave` does to the indexes, on every branch, and the guests whom a host leaves behind.
use cossacks_game_server.Base.{
  ℕ, ◌+◌, ◌&&◌, true, false, Option, none, some, if◌then◌else◌, ◌==◌, ◌≡◌, ◌≢◌, refl, arith, inl,
  inr, Bool-cases,
}
use cossacks_game_server.Base.{not, ◌||◌, ==_refl, ◌∙◌}
use cossacks_game_server.Base.Int.{pos, ◌-ℤ◌, leb_ℤ}
use cossacks_game_server.Lobby.Row.{set_players_column}
use cossacks_game_server.Rooms.ControlSum.{control_sum}
use cossacks_game_server.Base.Maps.{lookup, erase, lookup-insert, lookup-erase}
use cossacks_game_server.Rooms.{load_player, Player}
use cossacks_game_server.Rooms.{
  Ref, Room, Store, Time, load_room, store_room, get_room, get_room_by_host, get_room_by_sum,
  index_room_by_sum, unindex_room_by_id, unindex_room_by_host, unindex_room_by_sum, store_player,
}
use cossacks_game_server.Lobby.{
  dismiss, should_delete, leave_room, leave, mark_exited, Player, load_player,
}

mark_exited-indexes :
    (s : Store) (o : Option (Option Ref)) (now : Time)
    → ((mark_exited s o now).rooms_by_id ≡ s.rooms_by_id)
      × ((mark_exited s o now).rooms_by_pid ≡ s.rooms_by_pid)
      × ((mark_exited s o now).rooms_by_sum ≡ s.rooms_by_sum)
unfolding mark_exited store_player
mark_exited-indexes s none now = (refl, refl, refl)
mark_exited-indexes s (some none) now = (refl, refl, refl)
mark_exited-indexes s (some (some p)) now = ground arith

mark_exited-room_heap :
    (s : Store) (o : Option (Option Ref)) (now : Time)
    → (mark_exited s o now).room_heap ≡ s.room_heap
unfolding mark_exited store_player
mark_exited-room_heap s none now = refl
mark_exited-room_heap s (some none) now = refl
mark_exited-room_heap s (some (some p)) now = ground arith

mark_exited-load_player :
    (s : Store) (p : Ref) (player : Player) (now : Time)
    → load_player s p ≡ some player
    → load_player (mark_exited s (some (some p)) now) p ≡ some (record player { exited_at = now })
unfolding mark_exited store_player
mark_exited-load_player s p player now known =
    rw (known, mark_exited)
      (unfold load_player in
        rw (lookup-insert p p (record player { exited_at = now }) s.player_heap, ==_refl p) refl)

-- The room without the player: the count goes down by one. Before the start the player and its time
-- of joining go and the others stay, and the column of the row is that of the count; a started room
-- keeps its players, their times and its row. The sum is that of the row, and the rest stays.
pub record Dismissed (room : Room) (pid : ℕ) (room' : Room) : Type 0 where
  pub count : room'.players_count ≡ room.players_count -ℤ pos 1
  pub players :
      (q : ℕ)
      → lookup q room'.players
        ≡ (if not room.started && pid == q then none else lookup q room.players)
  pub times :
      (q : ℕ)
      → lookup q room'.players_time
        ≡ (if not room.started && pid == q then none else lookup q room.players_time)
  pub row : room'.row ≡ (
      if room.started
      then room.row
      else set_players_column room.row (room.players_count -ℤ pos 1) room.max_players)
  pub sum : room'.ctl_sum ≡ control_sum room'.row
  pub rest :
      record room' {
        players_count = room.players_count;
        players = room.players;
        players_time = room.players_time;
        row = room.row;
        ctl_sum = room.ctl_sum;
      }
      ≡ room

dismiss-Dismissed : (room : Room) (pid : ℕ) → Dismissed room pid (dismiss room pid)
unfolding dismiss
dismiss-Dismissed room pid = elim (Bool-cases room.started) [
  | inl e ↦
      rw (e, dismiss)
        (record {
          count = refl;
          players = λ q. ground (arith, e);
          times = λ q. ground (arith, e);
          row = ground (arith, e);
          sum = refl;
          rest = refl;
        })
  | inr e ↦
      rw (e, dismiss)
        (record {
          count = refl;
          players = λ q. ground (arith, e, lookup-erase pid q room.players);
          times = λ q. ground (arith, e, lookup-erase pid q room.players_time);
          row = ground (arith, e);
          sum = refl;
          rest = refl;
        })
]

-- Whether the room goes: with its last player, or with the host before the start.
should_delete-dismiss :
    (room : Room) (pid : ℕ)
    → should_delete (dismiss room pid) pid
      ≡ (leb_ℤ (room.players_count -ℤ pos 1) (pos 0) || (not room.started && room.host_id == pid))
unfolding should_delete dismiss
should_delete-dismiss room pid = ground arith

-- What a call does to the store where it finds a room.
pub record Left (s : Store) (pid : ℕ) (r : Ref) (room : Room) (now : Time) (s' : Store)
    : Type 0 where
  pub room_changed : load_room s' r ≡ some (dismiss room pid)
  pub dismissed : Dismissed room pid (dismiss room pid)
  pub other_rooms : (q : Ref) → q ≢ r → load_room s' q ≡ load_room s q
  pub exited :
      (p : Ref) (player : Player)
      → room.started ≡ true
      → lookup pid room.players ≡ some (some p)
      → load_player s p ≡ some player
      → load_player s' p ≡ some (record player { exited_at = now })
  pub no_exit : room.started ≡ false → (p : Ref) → load_player s' p ≡ load_player s p
  pub host_entry :
      (q : ℕ) → get_room_by_host s' q ≡ (if pid == q then none else get_room_by_host s q)
  pub id_entry :
      (k : ℕ)
      → get_room s' k
        ≡ (if should_delete (dismiss room pid) pid && room.id == k then none else get_room s k)
  pub sum_entries :
      (k : ℕ)
      → get_room_by_sum s' k ≡ (
          if (dismiss room pid).ctl_sum == k
          then if should_delete (dismiss room pid) pid then none else some r
          else if room.ctl_sum == k
          then none
          else get_room_by_sum s k)

pub Left-sum_entry :
    (s : Store) (pid : ℕ) (r : Ref) (room : Room) (now : Time) (s' : Store)
    → Left s pid r room now s'
    → get_room_by_sum s' (dismiss room pid).ctl_sum
      ≡ (if should_delete (dismiss room pid) pid then none else some r)
Left-sum_entry s pid r room now s' left =
    left.sum_entries (dismiss room pid).ctl_sum ∙ rw (==_refl (dismiss room pid).ctl_sum) refl

leave_room-Left :
    (s : Store) (pid : ℕ) (r : Ref) (room : Room) (now : Time)
    → Left s pid r room now (leave_room s pid r room now).0
unfolding leave_room load_room load_player get_room get_room_by_host get_room_by_sum store_room
    index_room_by_sum unindex_room_by_id unindex_room_by_host unindex_room_by_sum
leave_room-Left s pid r room now =
    let s1 = unindex_room_by_host s pid in
    let room' = dismiss room pid in
    let marked = mark_exited-indexes s1 (lookup pid room.players) now in
    let heap = mark_exited-room_heap s1 (lookup pid room.players) now in
    let s2 = if room.started then mark_exited s1 (lookup pid room.players) now else s1 in
    record {
      room_changed = ground (arith, lookup-insert r r room' s2.room_heap);
      dismissed = dismiss-Dismissed room pid;
      other_rooms = λ q h. ground (arith, h, heap, lookup-insert r q room' s2.room_heap);
      exited = λ p player started member known.
          ground (arith, started, mark_exited-load_player s1 p player now known, member);
      no_exit = λ waiting p. ground (arith, waiting);
      host_entry = λ q. ground (arith, marked, lookup-erase pid q s.rooms_by_pid);
      id_entry = λ k. ground (arith, marked, lookup-erase room.id k s.rooms_by_id);
      sum_entries = λ k. ground (
        arith,
        marked,
        lookup-insert room'.ctl_sum k r (erase room.ctl_sum s.rooms_by_sum),
        lookup-erase room'.ctl_sum k (erase room.ctl_sum s.rooms_by_sum),
        lookup-erase room.ctl_sum k s.rooms_by_sum,
      );
    }

leave-leave_room :
    (s : Store) (pid : ℕ) (r : Ref) (room : Room) (now : Time)
    → get_room_by_host s pid ≡ some r
    → load_room s r ≡ some room
    → leave s pid now ≡ ((leave_room s pid r room now).0, some r, (leave_room s pid r room now).1)
unfolding leave
leave-leave_room s pid r room now h l = rw (h, l, leave)

leave_room_flag :
    (s : Store) (pid : ℕ) (r : Ref) (room : Room) (now : Time)
    → (leave_room s pid r room now).1 ≡ should_delete (dismiss room pid) pid
unfolding leave_room
leave_room_flag s pid r room now = elim (Bool-cases (should_delete (dismiss room pid) pid)) [
  | inl e ↦ rw (e, leave_room)
  | inr e ↦ rw (e, leave_room)
]

-- A call of `Leave` by a player who is in a room, every branch of it. The count of the room goes down
-- by one, and the sum becomes that of the row; before the start the room loses the player, and the
-- row shows the count; a started room keeps its players and its row, and its player, where there is
-- one, is marked as exited. The entry of the player goes from the host index and the others' stay;
-- the id entry of the room goes with its last player, or with the host before the start, and all
-- others stay; the old sum leaves the sum index and the new one leads to the room, unless the room
-- goes, and all others stay. The call returns the room and whether it goes.
pub leave-Left :
    (s : Store) (pid : ℕ) (r : Ref) (room : Room) (now : Time)
    → get_room_by_host s pid ≡ some r
    → load_room s r ≡ some room
    → Left s pid r room now (leave s pid now).0
      × ((leave s pid now).1 ≡ some r)
      × ((leave s pid now).2 ≡ should_delete (dismiss room pid) pid)
      × (should_delete (dismiss room pid) pid ≡ (
          leb_ℤ (room.players_count -ℤ pos 1) (pos 0) || (not room.started && room.host_id == pid)))
leave-Left s pid r room now h l = rw (leave-leave_room s pid r room now h l) (
  leave_room-Left s pid r room now,
  refl,
  leave_room_flag s pid r room now,
  should_delete-dismiss room pid,
)

-- The guests of a host. When the host of a room that has not started leaves, and two guests or
-- more are in it, the room is deleted, yet the host index still leads the guests to it; and when
-- one of them leaves later, the deleted room comes back under its sum.
pub guest-leave-ghost :
    (s : Store) (host guest : ℕ) (r : Ref) (room : Room) (n : ℕ) (now later : Time)
    → get_room_by_host s host ≡ some r
    → get_room_by_host s guest ≡ some r
    → load_room s r ≡ some room
    → room.started ≡ false
    → room.host_id ≡ host
    → room.players_count ≡ pos (3 + n)
    → guest ≢ host
    → let s1 = (leave s host now).0 in
      let s2 = (leave s1 guest later).0 in
      (get_room s1 room.id ≡ none)
      × (get_room_by_host s1 guest ≡ some r)
      × (get_room s2 room.id ≡ none)
      × (get_room_by_sum s2 (dismiss (dismiss room host) guest).ctl_sum ≡ some r)
guest-leave-ghost s host guest r room n now later hh hg l waiting owner count other =
    let (first, _, _, _) = leave-Left s host r room now hh l in
    let s1 = (leave s host now).0 in
    let s2 = (leave s1 guest later).0 in
    let still : get_room_by_host s1 guest ≡ some r = ground (arith, first.host_entry guest) in
    let (second, _, _, _) =
      leave-Left s1 guest r (dismiss room host) later still first.room_changed in
    let gone : should_delete (dismiss room host) host ≡ true =
      unfold should_delete dismiss in ground arith in
    let kept : should_delete (dismiss (dismiss room host) guest) guest ≡ false =
      unfold should_delete dismiss ◌-ℤ◌ in ground arith in
    (
      ground (arith, first.id_entry room.id, gone),
      still,
      ground (arith, second.id_entry room.id, first.id_entry room.id, gone, kept),
      ground (arith, Left-sum_entry s1 guest r (dismiss room host) later s2 second, kept),
    )
