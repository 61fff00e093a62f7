-- ===== src/Lobby/Invariant/Steps.antt =====
-- Every call of the lobby service, and every player who enters, keeps the invariant of the store.
use cossacks_game_server.Base.{ℕ, Option, Bytes, ◌≡◌, refl, arith}
use cossacks_game_server.Rooms.{
  Player, upsert_player, set_player, Ref, Room, Store, Time, new_store, next_room_id, new_room,
  index_room_by_id, index_room_by_host, index_room_by_sum,
}
use cossacks_game_server.Rooms.ControlSum.{control_sum}
use cossacks_game_server.Lobby.{
  CreateParams, RegisterNewParams, build_room, host_id_of, create, register_new, join, leave,
  mark_started,
}
use cossacks_game_server.Lobby.Invariant.{
  Inv, index_room_by_id-Inv, index_room_by_host-Inv, index_room_by_sum-Inv, new_room-Inv,
  new_room_points,
}
use cossacks_game_server.Lobby.Invariant.Changes.{
  join-Inv, leave-Inv, mark_started-Inv, new_store-Inv,
}

next_room_id-Inv : (s : Store) → Inv s → Inv (next_room_id s).0
unfolding next_room_id
next_room_id-Inv s v = record {
  by_id = v.by_id;
  by_host = v.by_host;
  by_sum = v.by_sum;
  summed = v.summed;
  fresh = v.fresh;
}

-- A new room with its three entries.
entered-Inv :
    (s : Store) (room : Room) (host_id : ℕ)
    → room.ctl_sum ≡ control_sum room.row
    → Inv s
    → let (s2, r) = new_room s room in
      Inv (
        index_room_by_sum
          (index_room_by_host (index_room_by_id s2 room.id r) host_id r)
          room.ctl_sum
          r)
entered-Inv s room host_id sum v =
    let s2 = (new_room s room).0 in
    let r = (new_room s room).1 in
    let s3 = index_room_by_id s2 room.id r in
    index_room_by_sum-Inv (index_room_by_host s3 host_id r) room.ctl_sum r
      (unfold index_room_by_id index_room_by_host in
        new_room_points s room (λ x. x.ctl_sum ≡ room.ctl_sum) refl)
      (index_room_by_host-Inv s3 host_id r
        (unfold index_room_by_id in new_room_points s room (λ _. Unit {0}) tt)
        (index_room_by_id-Inv s2 room.id r (new_room_points s room (λ x. x.id ≡ room.id) refl)
          (new_room-Inv s room sum v)))

create-Inv : (s : Store) (p : CreateParams) (now : Time) → Inv s → Inv (create s p now).0
unfolding create
create-Inv s p now v =
    entered-Inv (next_room_id s).0 (build_room (next_room_id s).1 (host_id_of s p.host) p now)
      (host_id_of s p.host) refl (next_room_id-Inv s v)

register_new-Inv :
    (s : Store) (p : RegisterNewParams) (now : Time) → Inv s → Inv (register_new s p now).0
unfolding register_new
register_new-Inv s p now v = create-Inv s _ now v

enters-Inv : (s : Store) (player : Player) → Inv s → Inv (upsert_player s player)
unfolding upsert_player set_player
enters-Inv s player v = record {
  by_id = v.by_id;
  by_host = v.by_host;
  by_sum = v.by_sum;
  summed = v.summed;
  fresh = λ r h. v.fresh r (omega (arith, h));
}

-- The calls of the service, and the object of a player who enters, which is new behind the next
-- pointer. The pointers of a call may be any.
pub data Call : Type 0 where
  enters : Player → Call
  creates : CreateParams → Call
  registers : RegisterNewParams → Call
  joins : Ref → Option Ref → Call
  leaves : ℕ → Call
  starts : Ref → Bytes → Bytes → Call

abbrev pub step : Store → Time × Call → Store
step s (now, enters player) = upsert_player s player
step s (now, creates p) = (create s p now).0
step s (now, registers p) = (register_new s p now).0
step s (now, joins r p) = join s r p now
step s (now, leaves pid) = (leave s pid now).0
step s (now, starts r sav map_name) = mark_started s r sav map_name now

-- The stores that calls lead to.
pub data Reach (s : Store) : Store → Type 0 where
  here : Reach s s
  next : {t : Store} → Reach s t → (c : Time × Call) → Reach s (step t c)

pub step-Inv : (s : Store) (c : Time × Call) → Inv s → Inv (step s c)
step-Inv s (now, enters player) v = enters-Inv s player v
step-Inv s (now, creates p) v = create-Inv s p now v
step-Inv s (now, registers p) v = register_new-Inv s p now v
step-Inv s (now, joins r p) v = join-Inv s r p now v
step-Inv s (now, leaves pid) v = leave-Inv s pid now v
step-Inv s (now, starts r sav map_name) v = mark_started-Inv s r sav map_name now v

Reach-Inv : {s t : Store} → Inv s → Reach s t → Inv t
Reach-Inv v here = v
Reach-Inv v (next {t = t} reached c) = step-Inv t c (Reach-Inv v reached)

-- After any calls of the lobby service and any players who enter, from the empty store, in any order
-- and with any arguments:
-- each entry of the three indexes leads to a room, the id and sum entries under the id and the sum
-- which that room carries, and the sum of every room is the checksum of its row.
pub Reach-new_store-Inv : {s : Store} → Reach new_store s → Inv s
Reach-new_store-Inv reached = Reach-Inv new_store-Inv reached
