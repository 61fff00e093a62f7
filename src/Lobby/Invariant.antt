-- ===== src/Lobby/Invariant.antt =====
-- What holds of the store after any calls of the lobby service.
pub mod Changes
pub mod Steps
use cossacks_game_server.Base.{
  ℕ, suc, ◌+◌, ◌<◌, ◌≤◌, ◌%◌, ◌^◌, Bool, true, false, Option, none, some, List, [], ◌∷◌, Bytes,
  if◌then◌else◌, ◌==◌, ◌≡◌, ◌≢◌, refl, sym, ap, ◌∙◌, arith, ◌⊎◌, inl, inr, Bool-cases, Option-cases,
  ==_iff, ==_refl,
}
use cossacks_game_server.Base.Maps.{lookup, insert, erase, lookup-insert, lookup-erase}
use cossacks_game_server.Rooms.{
  Ref, Room, Store, new_room, load_room, store_room, store_player, Player, index_room_by_id,
  index_room_by_host, index_room_by_sum, unindex_room_by_id, unindex_room_by_host,
  unindex_room_by_sum,
}
use cossacks_game_server.Rooms.ControlSum.{control_sum}

-- A room with what is said of it stands behind the pointer.
abbrev pub Holds : (Room → Type 0) → Option Room → Type 0
Holds P none = ⊥
Holds P (some room) = P room

abbrev pub Points : Store → Ref → (Room → Type 0) → Type 0
Points s r P = Holds P (lookup r s.room_heap)

-- Every index leads to a room, under the key that the room itself carries; the checksum of a room
-- is that of its row; and the next pointer is fresh.
pub record Inv (s : Store) : Type 0 where
  pub by_id : (k : ℕ) (r : Ref) → lookup k s.rooms_by_id ≡ some r → Points s r λ room. room.id ≡ k
  pub by_host : (k : ℕ) (r : Ref) → lookup k s.rooms_by_pid ≡ some r → Points s r λ _. Unit {0}
  pub by_sum :
      (k : ℕ) (r : Ref) → lookup k s.rooms_by_sum ≡ some r → Points s r λ room. room.ctl_sum ≡ k
  pub summed :
      (r : Ref) (room : Room)
      → lookup r s.room_heap ≡ some room
      → room.ctl_sum ≡ control_sum room.row
  pub fresh : (r : Ref) → s.next_ref ≤ r → lookup r s.room_heap ≡ none

pub unindex_room_by_id-Inv : (s : Store) (id : ℕ) → Inv s → Inv (unindex_room_by_id s id)
unfolding unindex_room_by_id
unindex_room_by_id-Inv s id v = record {
  by_id = λ k r h. v.by_id k r (ground (arith, lookup-erase id k s.rooms_by_id));
  by_host = v.by_host;
  by_sum = v.by_sum;
  summed = v.summed;
  fresh = v.fresh;
}

pub unindex_room_by_host-Inv : (s : Store) (pid : ℕ) → Inv s → Inv (unindex_room_by_host s pid)
unfolding unindex_room_by_host
unindex_room_by_host-Inv s pid v = record {
  by_id = v.by_id;
  by_host = λ k r h. v.by_host k r (ground (arith, lookup-erase pid k s.rooms_by_pid));
  by_sum = v.by_sum;
  summed = v.summed;
  fresh = v.fresh;
}

pub unindex_room_by_sum-Inv : (s : Store) (sum : ℕ) → Inv s → Inv (unindex_room_by_sum s sum)
unfolding unindex_room_by_sum
unindex_room_by_sum-Inv s sum v = record {
  by_id = v.by_id;
  by_host = v.by_host;
  by_sum = λ k r h. v.by_sum k r (ground (arith, lookup-erase sum k s.rooms_by_sum));
  summed = v.summed;
  fresh = v.fresh;
}

-- A new entry of an index leads to a room with the right key.
pub index_room_by_id-Inv :
    (s : Store) (id : ℕ) (r : Ref)
    → Points s r (λ room. room.id ≡ id)
    → Inv s
    → Inv (index_room_by_id s id r)
unfolding index_room_by_id
index_room_by_id-Inv s id r p v = record {
  by_id = λ k q h. ground (arith, lookup-insert id k r s.rooms_by_id, p, v.by_id k q);
  by_host = v.by_host;
  by_sum = v.by_sum;
  summed = v.summed;
  fresh = v.fresh;
}

pub index_room_by_host-Inv :
    (s : Store) (pid : ℕ) (r : Ref)
    → Points s r (λ _. Unit {0})
    → Inv s
    → Inv (index_room_by_host s pid r)
unfolding index_room_by_host
index_room_by_host-Inv s pid r p v = record {
  by_id = v.by_id;
  by_host = λ k q h. ground (arith, lookup-insert pid k r s.rooms_by_pid, p, v.by_host k q);
  by_sum = v.by_sum;
  summed = v.summed;
  fresh = v.fresh;
}

pub index_room_by_sum-Inv :
    (s : Store) (sum : ℕ) (r : Ref)
    → Points s r (λ room. room.ctl_sum ≡ sum)
    → Inv s
    → Inv (index_room_by_sum s sum r)
unfolding index_room_by_sum
index_room_by_sum-Inv s sum r p v = record {
  by_id = v.by_id;
  by_host = v.by_host;
  by_sum = λ k q h. ground (arith, lookup-insert sum k r s.rooms_by_sum, p, v.by_sum k q);
  summed = v.summed;
  fresh = v.fresh;
}

-- A room is changed in place between the removal of its old sum and the entry of the new one.
pub replace_room-Inv :
    (s : Store) (r : Ref) (room room' : Room)
    → lookup r s.room_heap ≡ some room
    → room'.id ≡ room.id
    → room'.ctl_sum ≡ control_sum room'.row
    → Inv s
    → Inv (store_room (unindex_room_by_sum s room.ctl_sum) r room')
unfolding store_room unindex_room_by_sum
replace_room-Inv s r room room' h same sum v = record {
  by_id = λ k q e. ground (arith, lookup-insert r q room' s.room_heap, v.by_id k q e);
  by_host = λ k q e. ground (arith, lookup-insert r q room' s.room_heap, v.by_host k q e);
  by_sum = λ k q e. ground (
    arith,
    lookup-insert r q room' s.room_heap,
    lookup-erase room.ctl_sum k s.rooms_by_sum,
    v.by_sum k q,
  );
  summed = λ q x e. ground (arith, lookup-insert r q room' s.room_heap, v.summed q x);
  fresh = λ q e. ground (arith, lookup-insert r q room' s.room_heap, v.fresh q, v.fresh r, h);
}

-- A new object takes the fresh pointer.
pub new_room-Inv :
    (s : Store) (room : Room)
    → room.ctl_sum ≡ control_sum room.row
    → Inv s
    → Inv (new_room s room).0
unfolding new_room
new_room-Inv s room sum v = record {
  by_id = λ k q e.
      ground (arith, lookup-insert s.next_ref q room s.room_heap, v.by_id k q e, v.fresh q);
  by_host = λ k q e.
      ground (arith, lookup-insert s.next_ref q room s.room_heap, v.by_host k q e, v.fresh q);
  by_sum = λ k q e.
      ground (arith, lookup-insert s.next_ref q room s.room_heap, v.by_sum k q e, v.fresh q);
  summed = λ q x e. ground (arith, lookup-insert s.next_ref q room s.room_heap, v.summed q x);
  fresh = λ q e. ground (arith, lookup-insert s.next_ref q room s.room_heap, v.fresh q);
}

pub new_room_points :
    (s : Store) (room : Room) (P : Room → Type 0)
    → P room
    → Points (new_room s room).0 (new_room s room).1 P
unfolding new_room
new_room_points s room P p =
    rw (lookup-insert s.next_ref s.next_ref room s.room_heap, ==_refl s.next_ref) p

pub store_player-Inv :
    (s : Store) (p : Ref) (player : Player) → Inv s → Inv (store_player s p player)
unfolding store_player
store_player-Inv s p player v = record {
  by_id = v.by_id;
  by_host = v.by_host;
  by_sum = v.by_sum;
  summed = v.summed;
  fresh = v.fresh;
}

pub store_room_points :
    (s : Store) (r : Ref) (room : Room) (P : Room → Type 0)
    → P room
    → Points (store_room s r room) r P
unfolding store_room
store_room_points s r room P p = rw (lookup-insert r r room s.room_heap, ==_refl r) p
