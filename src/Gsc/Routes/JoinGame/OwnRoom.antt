-- ===== src/Gsc/Routes/JoinGame/OwnRoom.antt =====
-- internal/app/gsc/routes/join_game.go: a host who joins the room of its own.
use cossacks_game_server.Base.{
  ℕ, true, false, ◌&&◌, Option, none, some, Bytes, if◌then◌else◌, ◌==◌, ◌≡◌, refl, ◌∙◌, ap, arith,
  ==_refl,
}
use cossacks_game_server.Base.Maps.{lookup}
use cossacks_game_server.Base.Int.{ℤ}
use cossacks_game_server.Base.Result.{ok}
use cossacks_game_server.Lobby.{join, leave, leave_room, dismiss, should_delete}
use cossacks_game_server.Lobby.Leaving.{leave-Left}
use cossacks_game_server.Lobby.Joining.{join_lem}
use cossacks_game_server.Rooms.{
  Ref, Room, Player, Store, Time, get_room, get_room_by_host, get_player, load_room, load_player,
  store_room, index_room_by_sum, unindex_room_by_id, unindex_room_by_host, unindex_room_by_sum,
}
use cossacks_game_server.Gsc.Commands.{Server, player_id_of}
use cossacks_game_server.Gsc.Connectivity.{Connection}
use cossacks_game_server.Gsc.Params.{Params}
use cossacks_game_server.Render.{View}
use cossacks_game_server.Gsc.Routes.{leave_by_player}
use cossacks_game_server.Gsc.Routes.JoinGame.{admission, join_game}
use cossacks_game_server.Gsc.Routes.JoinGame.Admitting.{admission_ok}

leave_room-players :
    (s : Store) (pid : ℕ) (r : Ref) (room : Room) (now : Time)
    → room.started ≡ false
    → ((leave_room s pid r room now).0.players ≡ s.players)
      × ((leave_room s pid r room now).0.player_heap ≡ s.player_heap)
unfolding leave_room store_room index_room_by_sum unindex_room_by_id unindex_room_by_host
    unindex_room_by_sum
leave_room-players s pid r room now h = ground arith

leave-players :
    (s : Store) (pid : ℕ) (r : Ref) (room : Room) (now : Time)
    → get_room_by_host s pid ≡ some r
    → load_room s r ≡ some room
    → room.started ≡ false
    → ((leave s pid now).0.players ≡ s.players) × ((leave s pid now).0.player_heap ≡ s.player_heap)
unfolding leave
leave-players s pid r room now h l n = rw (h, l, leave) (leave_room-players s pid r room now n)

get_player_same : (s t : Store) (id : ℕ) → s.players ≡ t.players → get_player s id ≡ get_player t id
unfolding get_player
get_player_same s t id h = ap (lookup id) h

load_player_same :
    (s t : Store) (p : Ref) → s.player_heap ≡ t.player_heap → load_player s p ≡ load_player t p
unfolding load_player
load_player_same s t p h = ap (lookup p) h

module _ (render : ℕ → (template : Bytes) → View → Bytes) where
  join_game-admission :
      (endpoint : ℕ → Option (Bytes × ℤ)) (now : Time) (w : Server) (conn : Connection) (ver : ℕ)
      (params : Params) (r : Ref) (room : Room)
      → admission render w conn ver params ≡ ok (r, room)
      → (join_game render endpoint now w conn ver params).0.store
        ≡ join
            (leave w.store (player_id_of conn) now).0
            r
            (get_player (leave w.store (player_id_of conn) now).0 (player_id_of conn))
            now
  unfolding join_game leave_by_player
  join_game-admission endpoint now w conn ver params r room admitted = rw (admitted, join_game) refl

  -- A host who asks to join the room of its own, and is admitted. The room goes with the host who
  -- leaves it, so its id leads nowhere; yet the host index leads the host to it.
  pub join_game_own :
      (endpoint : ℕ → Option (Bytes × ℤ)) (now : Time) (w : Server) (conn : Connection) (ver : ℕ)
      (params : Params) (r p : Ref) (room : Room) (player : Player)
      → admission render w conn ver params ≡ ok (r, room)
      → get_room_by_host w.store (player_id_of conn) ≡ some r
      → should_delete (dismiss room (player_id_of conn)) (player_id_of conn) ≡ true
      → get_player w.store (player_id_of conn) ≡ some p
      → load_player w.store p ≡ some player
      → player.id ≡ player_id_of conn
      → (get_room (join_game render endpoint now w conn ver params).0.store room.id ≡ none)
        × (get_room_by_host
              (join_game render endpoint now w conn ver params).0.store
              (player_id_of conn)
            ≡ some r)
  join_game_own endpoint now w conn ver params r p room player admitted hosts goes known loads own =
      let pid = player_id_of conn in
      let (id, session, indexed, loaded, passes) =
        admission_ok render w conn ver params r room admitted in
      let left = (leave-Left w.store pid r room now hosts loaded).0 in
      let (same, same') = leave-players w.store pid r room now hosts loaded passes.not_started in
      let s1 = (leave w.store pid now).0 in
      let known' = get_player_same s1 w.store pid same ∙ known in
      let loads' = load_player_same s1 w.store p same' ∙ loads in
      let joined =
        join_game-admission endpoint now w conn ver params r room admitted
        ∙ ap (λ q. join s1 r q now) known' in
      let (now_loaded, host_entry, id_entry, sum_entry) =
        join_lem s1 r p (dismiss room pid) player now left.room_changed loads' in
      let erased : (if should_delete (dismiss room pid) pid && room.id == room.id
            then none
            else get_room w.store room.id)
          ≡ none =
        rw (goes, ==_refl room.id) refl in
      let entered : (if player.id == pid then some r else get_room_by_host s1 pid) ≡ some r =
        rw (own, ==_refl pid) refl in
      (
        ap (λ s. get_room s room.id) joined ∙ id_entry room.id ∙ left.id_entry room.id ∙ erased,
        ap (λ s. get_room_by_host s pid) joined ∙ host_entry pid ∙ entered,
      )
