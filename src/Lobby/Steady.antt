-- ===== src/Lobby/Steady.antt =====
-- internal/app/lobby/leave.go: what `Leave` keeps of the store.
use cossacks_game_server.Base.{
  ℕ, Option, none, some, if◌then◌else◌, ◌≡◌, refl, ◌∙◌, arith, inl, inr, Bool-cases, Option-cases,
}
use cossacks_game_server.Base.Maps.{lookup, lookup-insert}
use cossacks_game_server.Rooms.{
  Ref, Room, Store, Time, load_room, load_player, store_room, store_player, get_room_by_host,
  index_room_by_sum, unindex_room_by_id, unindex_room_by_host, unindex_room_by_sum,
}
use cossacks_game_server.Lobby.{host_id_of, dismiss, should_delete, leave_room, leave, mark_exited}

mark_exited-host_id_of :
    (s : Store) (o : Option (Option Ref)) (now : Time) (h : Option Ref)
    → host_id_of (mark_exited s o now) h ≡ host_id_of s h
unfolding mark_exited store_player load_player host_id_of
mark_exited-host_id_of s o now none = refl
mark_exited-host_id_of s none now (some q) = refl
mark_exited-host_id_of s (some none) now (some q) = refl
mark_exited-host_id_of s (some (some p)) now (some q) = elim (Option-cases (load_player s p)) [
  | inl e ↦ rw (e, mark_exited) refl
  | inr (player, e) ↦
      ground (arith, e, lookup-insert p q (record player { exited_at = now }) s.player_heap)
]

mark_exited-rest :
    (s : Store) (o : Option (Option Ref)) (now : Time)
    → ((mark_exited s o now).last_room_id ≡ s.last_room_id)
      × ((mark_exited s o now).next_ref ≡ s.next_ref)
      × ((mark_exited s o now).players ≡ s.players)
unfolding mark_exited store_player
mark_exited-rest s none now = (refl, refl, refl)
mark_exited-rest s (some none) now = (refl, refl, refl)
mark_exited-rest s (some (some p)) now = ground arith

-- What a call keeps of the store: the counters, the players and their ids.
pub record Steady (s s' : Store) : Type 0 where
  pub last_room_id : s'.last_room_id ≡ s.last_room_id
  pub next_ref : s'.next_ref ≡ s.next_ref
  pub players : s'.players ≡ s.players
  pub host_id : (h : Option Ref) → host_id_of s' h ≡ host_id_of s h

Steady-refl : (s : Store) → Steady s s
Steady-refl s = record { last_room_id = refl; next_ref = refl; players = refl; host_id = λ h. refl }

mark_exited-Steady :
    (s : Store) (o : Option (Option Ref)) (now : Time) → Steady s (mark_exited s o now)
mark_exited-Steady s o now =
    let (rooms, refs, players) = mark_exited-rest s o now in
    record {
      last_room_id = rooms;
      next_ref = refs;
      players = players;
      host_id = mark_exited-host_id_of s o now;
    }

-- A change of the room heap and of the indexes is none of these.
same-Steady :
    (s s' : Store)
    → s'.last_room_id ≡ s.last_room_id
    → s'.next_ref ≡ s.next_ref
    → s'.players ≡ s.players
    → s'.player_heap ≡ s.player_heap
    → Steady s s'
unfolding host_id_of load_player
same-Steady s s' a b c heap = record {
  last_room_id = a;
  next_ref = b;
  players = c;
  host_id = λ h. same h;
}
  where
    same : (h : Option Ref) → host_id_of s' h ≡ host_id_of s h
    same none = refl
    same (some p) = rw heap refl

Steady-trans : (s t u : Store) → Steady s t → Steady t u → Steady s u
Steady-trans s t u a b = record {
  last_room_id = b.last_room_id ∙ a.last_room_id;
  next_ref = b.next_ref ∙ a.next_ref;
  players = b.players ∙ a.players;
  host_id = λ h. b.host_id h ∙ a.host_id h;
}

leave_room-Steady :
    (s : Store) (pid : ℕ) (r : Ref) (room : Room) (now : Time)
    → Steady s (leave_room s pid r room now).0
unfolding leave_room store_room index_room_by_sum unindex_room_by_id unindex_room_by_host
    unindex_room_by_sum
leave_room-Steady s pid r room now =
    let s1 = unindex_room_by_host s pid in
    let s2 = if room.started then mark_exited s1 (lookup pid room.players) now else s1 in
    let first : Steady s s1 = same-Steady s s1 refl refl refl refl in
    let second : Steady s1 s2 = elim (Bool-cases room.started) [
      | inl e ↦ rw e (mark_exited-Steady s1 (lookup pid room.players) now)
      | inr e ↦ rw e (Steady-refl s1)
    ] in
    let s3 = (leave_room s pid r room now).0 in
    let third : Steady s2 s3 = elim (Bool-cases (should_delete (dismiss room pid) pid)) [
      | inl e ↦ rw (e, leave_room) (same-Steady s2 _ refl refl refl refl)
      | inr e ↦ rw (e, leave_room) (same-Steady s2 _ refl refl refl refl)
    ] in
    Steady-trans s s2 s3 (Steady-trans s s1 s2 first second) third

-- A call of `Leave` changes no counter, no id of a player and not which players there are.
pub leave-Steady : (s : Store) (pid : ℕ) (now : Time) → Steady s (leave s pid now).0
unfolding leave
leave-Steady s pid now = elim (Option-cases (get_room_by_host s pid)) [
  | inl e ↦ rw (e, leave) (Steady-refl s)
  | inr (r, e) ↦ elim (Option-cases (load_room s r)) [
    | inl e' ↦ rw (e, e', leave) (Steady-refl s)
    | inr (room, e') ↦ rw (e, e', leave) (leave_room-Steady s pid r room now)
  ]
]
