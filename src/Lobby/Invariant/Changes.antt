-- ===== src/Lobby/Invariant/Changes.antt =====
-- The steps of the lobby service that change a room keep the invariant of the store.
use cossacks_game_server.Base.{
  ℕ, Option, none, some, Bytes, if◌then◌else◌, ◌≡◌, refl, ◌∙◌, arith, inl, inr, Bool-cases,
  Option-cases,
}
use cossacks_game_server.Base.Maps.{lookup}
use cossacks_game_server.Rooms.{
  Ref, Room, Store, Time, new_store, load_room, store_room, store_player, load_player,
  index_room_by_host, index_room_by_sum, unindex_room_by_id, unindex_room_by_host,
  unindex_room_by_sum, get_room_by_host,
}
use cossacks_game_server.Rooms.ControlSum.{control_sum}
use cossacks_game_server.Lobby.{
  admit, join, mark_exited, dismiss, should_delete, leave_room, leave, launch, mark_started,
}
use cossacks_game_server.Lobby.Invariant.{
  Inv, unindex_room_by_id-Inv, unindex_room_by_host-Inv, unindex_room_by_sum-Inv,
  index_room_by_host-Inv, index_room_by_sum-Inv, replace_room-Inv, store_player-Inv,
  store_room_points,
}

pub new_store-Inv : Inv new_store
unfolding new_store lookup
new_store-Inv = record {
  by_id = λ k r h. cc;
  by_host = λ k r h. cc;
  by_sum = λ k r h. cc;
  summed = λ r room h. cc;
  fresh = λ r h. refl;
}

mark_exited-Inv :
    (s : Store) (o : Option (Option Ref)) (now : Time) → Inv s → Inv (mark_exited s o now)
unfolding mark_exited
mark_exited-Inv s none now v = v
mark_exited-Inv s (some none) now v = v
mark_exited-Inv s (some (some p)) now v = elim (Option-cases (load_player s p)) [
  | inl e ↦ rw (e, mark_exited) v
  | inr (player, e) ↦
      rw (e, mark_exited) (store_player-Inv s p (record player { exited_at = now }) v)
]

-- The end of a call that changed the room: the entry under its new sum.
reindexed-Inv :
    (s : Store) (r : Ref) (room room' : Room)
    → load_room s r ≡ some room
    → room'.id ≡ room.id
    → room'.ctl_sum ≡ control_sum room'.row
    → Inv s
    → Inv (
        index_room_by_sum (store_room (unindex_room_by_sum s room.ctl_sum) r room') room'.ctl_sum r)
unfolding load_room
reindexed-Inv s r room room' h same sum v =
    index_room_by_sum-Inv _ room'.ctl_sum r
      (store_room_points (unindex_room_by_sum s room.ctl_sum) r room'
        (λ x. x.ctl_sum ≡ room'.ctl_sum) refl)
      (replace_room-Inv s r room room' h same sum v)

pub mark_started-Inv :
    (s : Store) (r : Ref) (sav map_name : Bytes) (now : Time)
    → Inv s
    → Inv (mark_started s r sav map_name now)
unfolding mark_started
mark_started-Inv s r sav map_name now v = elim (Option-cases (load_room s r)) [
  | inl e ↦ rw (e, mark_started) v
  | inr (room, e) ↦
      rw (e, mark_started)
        (reindexed-Inv s r room (launch room sav map_name now) e (unfold launch in refl)
          (unfold launch in refl) v)
]

join_room-Inv :
    (s : Store) (r p : Ref) (room : Room) (pid : ℕ) (now : Time)
    → load_room s r ≡ some room
    → Inv s
    → let room' = admit room pid p now in
      let s1 = store_room (unindex_room_by_sum s room.ctl_sum) r room' in
      Inv (index_room_by_sum (index_room_by_host s1 pid r) room'.ctl_sum r)
unfolding load_room
join_room-Inv s r p room pid now h v =
    let room' = admit room pid p now in
    let s1 = store_room (unindex_room_by_sum s room.ctl_sum) r room' in
    index_room_by_sum-Inv (index_room_by_host s1 pid r) room'.ctl_sum r
      (unfold index_room_by_host in
        store_room_points (unindex_room_by_sum s room.ctl_sum) r room'
          (λ x. x.ctl_sum ≡ room'.ctl_sum) refl)
      (index_room_by_host-Inv s1 pid r
        (store_room_points (unindex_room_by_sum s room.ctl_sum) r room' (λ _. Unit {0}) tt)
        (replace_room-Inv s r room room' h (unfold admit in refl) (unfold admit in refl) v))

pub join-Inv : (s : Store) (r : Ref) (p : Option Ref) (now : Time) → Inv s → Inv (join s r p now)
unfolding join
join-Inv s r none now v = v
join-Inv s r (some p) now v = elim (Option-cases (load_room s r)) [
  | inl e ↦ rw (e, join) v
  | inr (room, e) ↦ elim (Option-cases (load_player s p)) [
    | inl e' ↦ rw (e, e', join) v
    | inr (player, e') ↦ rw (e, e', join) (join_room-Inv s r p room player.id now e v)
  ]
]

dismiss-id : (room : Room) (pid : ℕ) → (dismiss room pid).id ≡ room.id
unfolding dismiss
dismiss-id room pid = ground arith

dismiss-control_sum :
    (room : Room) (pid : ℕ) → (dismiss room pid).ctl_sum ≡ control_sum (dismiss room pid).row
unfolding dismiss
dismiss-control_sum room pid = ground arith

-- Marking a player leaves the rooms alone.
mark_exited-load_room :
    (s : Store) (o : Option (Option Ref)) (now : Time) (r : Ref)
    → load_room (mark_exited s o now) r ≡ load_room s r
unfolding mark_exited load_room store_player
mark_exited-load_room s none now r = refl
mark_exited-load_room s (some none) now r = refl
mark_exited-load_room s (some (some p)) now r = ground arith

-- The store of `leave_room` before the sum index is touched.
abbrev left : Store → ℕ → Room → Time → Store
left s pid room now =
    let s1 = unindex_room_by_host s pid in
    if room.started then mark_exited s1 (lookup pid room.players) now else s1

left-Inv : (s : Store) (pid : ℕ) (room : Room) (now : Time) → Inv s → Inv (left s pid room now)
left-Inv s pid room now v =
    let w = unindex_room_by_host-Inv s pid v in
    elim (Bool-cases room.started) [
      | inl e ↦ rw e (mark_exited-Inv _ (lookup pid room.players) now w)
      | inr e ↦ rw e w
    ]

left-load_room :
    (s : Store) (pid : ℕ) (room : Room) (now : Time) (r : Ref)
    → load_room (left s pid room now) r ≡ load_room s r
left-load_room s pid room now r =
    let shut : load_room (unindex_room_by_host s pid) r ≡ load_room s r =
      unfold unindex_room_by_host load_room in refl in
    elim (Bool-cases room.started) [
      | inl e ↦ rw e (
          mark_exited-load_room (unindex_room_by_host s pid) (lookup pid room.players) now r ∙ shut)
      | inr e ↦ rw e shut
    ]

leave_room-Inv :
    (s : Store) (pid : ℕ) (r : Ref) (room : Room) (now : Time)
    → load_room s r ≡ some room
    → Inv s
    → Inv (leave_room s pid r room now).0
unfolding leave_room
leave_room-Inv s pid r room now h v =
    let s2 = left s pid room now in
    let room' = dismiss room pid in
    let s3 = store_room (unindex_room_by_sum s2 room.ctl_sum) r room' in
    let here : load_room s2 r ≡ some room = left-load_room s pid room now r ∙ h in
    let kept =
      replace_room-Inv s2 r room room' (unfold load_room in here) (dismiss-id room pid)
        (dismiss-control_sum room pid) (left-Inv s pid room now v) in
    let indexed =
      reindexed-Inv s2 r room room' here (dismiss-id room pid) (dismiss-control_sum room pid)
        (left-Inv s pid room now v) in
    elim (Bool-cases (should_delete room' pid)) [
      | inl e ↦
          rw (e, leave_room)
            (unindex_room_by_sum-Inv (unindex_room_by_id s3 room.id) room'.ctl_sum
              (unindex_room_by_id-Inv s3 room.id kept))
      | inr e ↦ rw (e, leave_room) indexed
    ]

pub leave-Inv : (s : Store) (pid : ℕ) (now : Time) → Inv s → Inv (leave s pid now).0
unfolding leave
leave-Inv s pid now v = elim (Option-cases (get_room_by_host s pid)) [
  | inl e ↦ rw (e, leave) v
  | inr (r, e) ↦ elim (Option-cases (load_room s r)) [
    | inl e' ↦ rw (e, e', leave) v
    | inr (room, e') ↦ rw (e, e', leave) (leave_room-Inv s pid r room now e' v)
  ]
]
