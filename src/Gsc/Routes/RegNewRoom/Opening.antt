-- ===== src/Gsc/Routes/RegNewRoom/Opening.antt =====
-- internal/app/gsc/routes/reg_new_room.go: the state behind a registration.
use cossacks_game_server.Base.{
  ℕ, ◌+◌, true, false, none, some, Bytes, codes, ◌≡◌, ◌≢◌, refl, arith, ◌∙◌, ◌⊎◌, inl, inr, ==_refl,
}
use cossacks_game_server.Base.Int.{pos}
use cossacks_game_server.Base.Maps.{lookup, insert, lookup-insert}
use cossacks_game_server.Base.Result.{ok, result_cases}
use cossacks_game_server.Base.{[], ◌∷◌, ◌%◌, ◌^◌, ap, Option-cases}
use cossacks_game_server.Lobby.{leave}
use cossacks_game_server.Lobby.Steady.{leave-Steady}
use cossacks_game_server.Rooms.{Player, load_player}
use cossacks_game_server.Config.{GameConfig, ServerConfig}
use cossacks_game_server.Lobby.{
  RegisterNewParams, register_new, build_room, create_params, host_id_of,
}
use cossacks_game_server.Lobby.Joining.{registered, register_new-registered}
use cossacks_game_server.Lobby.Title.{validate_title, normalize_title}
use cossacks_game_server.Render.{View}
use cossacks_game_server.Rooms.{
  Ref, Room, Store, Time, get_player, get_room, get_room_by_host, load_room, next_room_id, new_room,
  index_room_by_id, index_room_by_host, index_room_by_sum,
}
use cossacks_game_server.Gsc.Commands.{Server, player_id_of, room_at, player_at}
use cossacks_game_server.Gsc.Connectivity.{Connection, Manager, arm_timer, has_timer}
use cossacks_game_server.Gsc.Params.{Params}
use cossacks_game_server.Gsc.Routes.{param, leave_by_player}
use cossacks_game_server.Gsc.Routes.RoomPages.{find_by_host}
use cossacks_game_server.Gsc.Routes.RegNewRoom.{
  new_room_params, check_new_room, open_room, reg_new_room,
}

register_new_by_id :
    (s : Store) (p : RegisterNewParams) (now : Time)
    → get_room (register_new s p now).0 (registered s p now).id ≡ some (register_new s p now).1
unfolding register_new next_room_id get_room new_room index_room_by_id index_room_by_host
    index_room_by_sum build_room
register_new_by_id s p now =
    let id = (next_room_id s).1 in
    lookup-insert id id s.next_ref s.rooms_by_id ∙ rw (==_refl id) refl

register_new_by_host :
    (s : Store) (p : RegisterNewParams) (now : Time)
    → get_room_by_host (register_new s p now).0 (registered s p now).host_id
      ≡ some (register_new s p now).1
unfolding register_new next_room_id get_room_by_host new_room index_room_by_id index_room_by_host
    index_room_by_sum build_room
register_new_by_host s p now =
    let id = host_id_of s p.host in
    lookup-insert id id s.next_ref s.rooms_by_pid ∙ rw (==_refl id) refl

register_new_others :
    (s : Store) (p : RegisterNewParams) (now : Time) (k : ℕ)
    → k ≢ (registered s p now).id
    → get_room (register_new s p now).0 k ≡ get_room s k
unfolding register_new next_room_id get_room new_room index_room_by_id index_room_by_host
    index_room_by_sum build_room
register_new_others s p now k h =
    ground (arith, h, lookup-insert (next_room_id s).1 k s.next_ref s.rooms_by_id)

register_new_ref :
    (s : Store) (p : RegisterNewParams) (now : Time) → (register_new s p now).1 ≡ s.next_ref
unfolding register_new next_room_id new_room
register_new_ref s p now = refl

-- The player whom the store has under an id is the host.
host_id_of-player_at :
    (s : Store) (id : ℕ) (player : Player)
    → player_at s id ≡ some player
    → host_id_of s (get_player s id) ≡ player.id
unfolding player_at host_id_of
host_id_of-player_at s id player h = elim (Option-cases (get_player s id)) [
  | inl e ↦ absurd (ground (arith, rw (e, player_at) at h))
  | inr (p, e) ↦
      let loaded : load_player s p ≡ some player = rw (e, player_at) at h in
      rw e (rw (loaded, host_id_of) refl)
]

has_timer-arm_timer : (m : Manager) (id : ℕ) (now : Time) → has_timer (arm_timer m id now) id ≡ true
unfolding has_timer arm_timer
has_timer-arm_timer m id now =
    let armed : lookup id (insert id (now + m.ttl) m.timers) ≡ some (now + m.ttl) =
      rw (lookup-insert id id (now + m.ttl) m.timers, ==_refl id) refl in
    rw (armed, has_timer) refl

room_at_of :
    (s : Store) (id : ℕ) (r : Ref) (room : Room)
    → get_room s id ≡ some r
    → load_room s r ≡ some room
    → room_at s id ≡ some room
unfolding room_at
room_at_of s id r room h e = rw (h, room_at) e

find_by_host_of :
    (s : Store) (id : ℕ) (r : Ref) (room : Room)
    → get_room_by_host s id ≡ some r
    → load_room s r ≡ some room
    → find_by_host s id ≡ some room
unfolding find_by_host
find_by_host_of s id r room h e = rw (h, find_by_host) e

module _ (render : ℕ → (template : Bytes) → View → Bytes) (game : GameConfig)
    (server : ServerConfig) (now : Time) (w : Server) (conn : Connection) (ver : ℕ)
    (params : Params) where
  check_new_room-ok :
      (id : ℕ)
      → check_new_room render game server conn ver params ≡ ok id
      → (player_id_of conn ≡ id)
        × (id ≢ 0)
        × (validate_title (param (codes "VE_TITLE") params) ≡ true)
  unfolding check_new_room
  check_new_room-ok id h = ground arith

  -- The room that was opened: it has the next number and stands behind the next pointer, under that
  -- number and under its host, who is the player of the id; the other numbers lead where they led
  -- when the player had left its room.
  pub record Opened (w' : Server) (id : ℕ) (room : Room) : Type 0 where
    pub number : room.id ≡ (w.store.last_room_id + 1) % 2 ^ 32
    pub pointer : get_room w'.store room.id ≡ some w.store.next_ref
    pub by_id : room_at w'.store room.id ≡ some room
    pub by_host : find_by_host w'.store room.host_id ≡ some room
    pub host : (player : Player) → player_at w.store id ≡ some player → room.host_id ≡ player.id
    pub inside : room.players ≡ (room.host_id, get_player w.store id) ∷ []
    pub others : (k : ℕ) → k ≢ room.id → get_room w'.store k ≡ get_room (leave w.store id now).0 k
    pub address : room.host_addr ≡ conn.ip
    pub password : room.password ≡ param (codes "VE_PASSWD") params
    pub title : room.title ≡ normalize_title (param (codes "VE_TITLE") params)
    pub count : room.players_count ≡ pos 1
    pub waiting : room.started ≡ false
    pub timed : has_timer w'.manager id ≡ true

  open_room-Opened :
      (id : ℕ)
      → let s = (leave_by_player now w id).store in
        Opened
          (open_room render game server now w conn ver params id).0
          id
          (registered s (new_room_params conn ver params (get_player s id)) now)
  unfolding open_room leave_by_player
  open_room-Opened id =
      let w1 = leave_by_player now w id in
      let p = new_room_params conn ver params (get_player w1.store id) in
      let s = (register_new w1.store p now).0 in
      let r = (register_new w1.store p now).1 in
      let room = registered w1.store p now in
      let loads = register_new-registered w1.store p now in
      let steady = leave-Steady w.store id now in
      let same : get_player w1.store id ≡ get_player w.store id =
        unfold get_player in ap (lookup id) steady.players in
      let others = register_new_others w1.store p now in
      record {
        number = unfold next_room_id build_room in ap (λ n. (n + 1) % 2 ^ 32) steady.last_room_id;
        pointer =
            register_new_by_id w1.store p now
            ∙ ap some (register_new_ref w1.store p now ∙ steady.next_ref);
        host = λ player known.
            unfold build_room create_params new_room_params in
            ap (host_id_of w1.store) same
            ∙ steady.host_id (get_player w.store id)
            ∙ host_id_of-player_at w.store id player known;
        inside =
            unfold build_room create_params new_room_params in
            ap (λ p. (host_id_of w1.store (get_player w1.store id), p) ∷ []) same;
        others = others;
        address = unfold build_room create_params new_room_params in refl;
        password = unfold build_room create_params new_room_params in refl;
        by_id = room_at_of s room.id r room (register_new_by_id w1.store p now) loads;
        by_host = find_by_host_of s room.host_id r room (register_new_by_host w1.store p now) loads;
        title = unfold build_room create_params new_room_params in refl;
        count = unfold build_room in refl;
        waiting = unfold build_room in refl;
        timed = has_timer-arm_timer w1.manager id now;
      }

  -- A request to open a room, every branch of it: it is refused with an error and the server is as
  -- it was; or the player has an id and the title is valid, the player has left the room that it was
  -- in, and there is a new room, under the next number and behind the next pointer. It has one player, not started, with the normalised title, the password and the address
  -- of the client; its host is the player whom the store has under the id, and the host index leads
  -- there. The other numbers lead where they led, and the alive timer of the player runs.
  pub reg_new_room_lem :
      let (w', page, e) = reg_new_room render game server now w conn ver params in
      ((e ≢ none) × (w' ≡ w))
      ⊎ ((e ≡ none)
          × (player_id_of conn ≢ 0)
          × (validate_title (param (codes "VE_TITLE") params) ≡ true)
          × ((room : Room) × Opened w' (player_id_of conn) room))
  unfolding reg_new_room
  reg_new_room_lem = elim (result_cases (check_new_room render game server conn ver params)) [
    | inl ((page, e), refused) ↦ rw (refused, reg_new_room) (inl (λ h. ground arith, refl))
    | inr (id, passed) ↦
        let (known, real, title) = check_new_room-ok id passed in
        rw (passed, reg_new_room, known)
          (inr (
            refl,
            real,
            title,
            (
              registered (leave_by_player now w id).store
                  (new_room_params conn ver params (get_player (leave_by_player now w id).store id))
                  now,
              open_room-Opened id,
            ),
          ))
  ]
