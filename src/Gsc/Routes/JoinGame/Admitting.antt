-- ===== src/Gsc/Routes/JoinGame/Admitting.antt =====
-- internal/app/gsc/routes/join_game.go: who is admitted.
use cossacks_game_server.Base.{
  ℕ, Bool, true, false, not, ◌&&◌, Option, none, some, Bytes, codes, if◌then◌else◌, is_empty, ◌||◌,
  ◌==◌, bytes_eq, ◌≡◌, ◌≢◌, refl, sym, ◌∙◌, ap, arith, ◌⊎◌, inl, inr,
}
use cossacks_game_server.Base.Int.{ℤ, leb_ℤ}
use cossacks_game_server.Base.Result.{Result, ok, err, ◌>>=◌, bind_ok, result_cases, ok-injective}
use cossacks_game_server.Base.Numerals.{parse_uint32}
use cossacks_game_server.Base.Strings.{trim_space}
use cossacks_game_server.Lobby.{join, leave}
use cossacks_game_server.Rooms.{Ref, Room, Time, get_room, get_player, load_room}
use cossacks_game_server.Wire.Command.{CommandSet}
use cossacks_game_server.Gsc.Commands.{Server, player_id_of}
use cossacks_game_server.Gsc.Connectivity.{Connection}
use cossacks_game_server.Gsc.Params.{Params}
use cossacks_game_server.Render.{View}
use cossacks_game_server.Gsc.Routes.{param, leave_by_player}
use cossacks_game_server.Gsc.Routes.JoinGame.{
  JoinGameError, nick_of_session, check_session, check_room, find_room, admission, join_game,
}

-- The room lets a player in: it has not started, it is not full, and the password is right.
pub record Open (room : Room) (params : Params) : Type 0 where
  pub not_started : room.started ≡ false
  pub not_full : leb_ℤ room.max_players room.players_count ≡ false
  pub password_right :
      (is_empty room.password ≡ true)
      ⊎ (bytes_eq (param (codes "VE_PASSWD") params) room.password ≡ true)

-- A request that asks for the room of the number `id`: the number is that of `VE_RID`, the client says
-- that it is in no room, and its session has a player with a nick.
pub record Asked (conn : Connection) (params : Params) (id : ℕ) : Type 0 where
  pub room_number : parse_uint32 (trim_space (param (codes "VE_RID") params)) ≡ some id
  pub says : is_empty (param (codes "ASTATE") params) ≡ false
  pub in_no_room : bytes_eq (param (codes "ASTATE") params) (codes "0") ≡ false
  pub known : player_id_of conn ≢ 0
  pub named : is_empty (trim_space (nick_of_session conn)) ≡ false

guards_ok :
    {E A : Type 0} (b c d : Bool) (e1 e2 e3 : E) (x y : A)
    → (if b then err e1 else if c then err e2 else if d then err e3 else ok x) ≡ ok y
    → (b ≡ false) × (c ≡ false) × (d ≡ false) × (y ≡ x)
guards_ok true c d e1 e2 e3 x y h = ground arith
guards_ok false true d e1 e2 e3 x y h = ground arith
guards_ok false false true e1 e2 e3 x y h = ground arith
guards_ok false false false e1 e2 e3 x y h = (refl, refl, refl, sym (ok-injective h))

session_guards :
    {E : Type 0} (b1 b2 b3 b4 : Bool) (e1 e2 e3 : E) (o : Option ℕ) (id : ℕ)
    → (if b1 || b2
        then err e1
        else if b3 || b4
        then err e2
        else elim o [ none ↦ err e3 | some n ↦ ok n ])
      ≡ ok id
    → (b1 ≡ false) × (b2 ≡ false) × (b3 ≡ false) × (b4 ≡ false) × (o ≡ some id)
session_guards true b2 b3 b4 e1 e2 e3 o id h = ground arith
session_guards false true b3 b4 e1 e2 e3 o id h = ground arith
session_guards false false true b4 e1 e2 e3 o id h = ground arith
session_guards false false false true e1 e2 e3 o id h = ground arith
session_guards false false false false e1 e2 e3 none id h = ground arith
session_guards false false false false e1 e2 e3 (some n) id h =
    (refl, refl, refl, refl, ap some (ok-injective h))

not_both : (a b : Bool) → (not a && not b) ≡ false → (a ≡ true) ⊎ (b ≡ true)
not_both true b h = inl refl
not_both false true h = inr refl
not_both false false h = ground arith

module _ (render : ℕ → (template : Bytes) → View → Bytes) where
  check_room-Open :
      (room room' : Room) (params : Params)
      → check_room render room params ≡ ok room'
      → (room' ≡ room) × Open room params
  unfolding check_room
  check_room-Open room room' params h =
      let right : Bool = bytes_eq (param (codes "VE_PASSWD") params) room.password in
      let (started, full, password, same) =
        guards_ok room.started (leb_ℤ room.max_players room.players_count)
          (not (is_empty room.password) && not right) _ _ _ room room' h in
      (
        same,
        record {
          not_started = started;
          not_full = full;
          password_right = not_both (is_empty room.password) right password;
        },
      )

  check_session-Asked :
      (conn : Connection) (ver id : ℕ) (params : Params)
      → check_session render conn ver params ≡ ok id
      → Asked conn params id
  unfolding check_session
  check_session-Asked conn ver id params h =
      let astate = param (codes "ASTATE") params in
      let (says, free, has_id, has_nick, number) =
        session_guards (is_empty astate) (bytes_eq astate (codes "0")) (player_id_of conn == 0)
          (is_empty (trim_space (nick_of_session conn))) _ _ _
          (parse_uint32 (trim_space (param (codes "VE_RID") params))) id h in
      record {
        room_number = number;
        says = says;
        in_no_room = free;
        known = λ e. ground (arith, e, has_id);
        named = has_nick;
      }

  find_room_ok :
      (w : Server) (ver id : ℕ) (r : Ref) (room : Room)
      → find_room render w ver id ≡ ok (r, room)
      → (get_room w.store id ≡ some r) × (load_room w.store r ≡ some room)
  unfolding find_room
  find_room_ok w ver id r room h = ground arith

  -- What `admission` has found: the room, under the number of `VE_RID`.
  pub admission_ok :
      (w : Server) (conn : Connection) (ver : ℕ) (params : Params) (r : Ref) (room : Room)
      → admission render w conn ver params ≡ ok (r, room)
      → (id : ℕ) × (check_session render conn ver params ≡ ok id)
        × (get_room w.store id ≡ some r)
        × (load_room w.store r ≡ some room)
        × Open room params
  unfolding admission
  admission_ok w conn ver params r room h =
      let check : Ref × Room → Result (CommandSet × JoinGameError) (Ref × Room) =
        λ x. check_room render x.1 params >>= λ checked. ok (x.0, checked) in
      let (id, e, h1) =
        bind_ok (check_session render conn ver params) (λ id. find_room render w ver id >>= check)
          (r, room) h in
      let (x, found, h2) = bind_ok (find_room render w ver id) check (r, room) h1 in
      let (c, checked, h3) =
        bind_ok (check_room render x.1 params) (λ checked. ok (x.0, checked)) (r, room) h2 in
      let (same, passes) = check_room-Open x.1 c params checked in
      let (indexed, loaded) = find_room_ok w ver id x.0 x.1 found in
      let r_eq : x.0 ≡ r = ap (λ p. p.0) (ok-injective h3) in
      let room_eq : x.1 ≡ room = sym same ∙ ap (λ p. p.1) (ok-injective h3) in
      (
        id,
        e,
        indexed ∙ ap some r_eq,
        ap (load_room w.store) (sym r_eq) ∙ loaded ∙ ap some room_eq,
        rw (sym room_eq) passes,
      )

  -- A request to join, every branch of it. It is refused with an error, and the server is as it
  -- was; or the client says that it is in no room, its session has a player with a nick, the room
  -- under the number that `VE_RID` is read as is there, has not started, is not full and has no
  -- other password, and the player has left the room that it was in, and joins this one.
  pub join_game_lem :
      (endpoint : ℕ → Option (Bytes × ℤ)) (now : Time) (w : Server) (conn : Connection) (ver : ℕ)
      (params : Params)
      → let (w', page, error) = join_game render endpoint now w conn ver params in
        ((w' ≡ w) × (error ≢ none))
        ⊎ ((id : ℕ) × (r : Ref) × (room : Room) × Asked conn params id
            × (get_room w.store id ≡ some r)
            × (load_room w.store r ≡ some room)
            × Open room params
            × (error ≡ none)
            × (w'.store
                ≡ join
                    (leave w.store (player_id_of conn) now).0
                    r
                    (get_player (leave w.store (player_id_of conn) now).0 (player_id_of conn))
                    now))
  unfolding join_game leave_by_player
  join_game_lem endpoint now w conn ver params =
      elim (result_cases (admission render w conn ver params)) [
        | inl ((page, e), refused) ↦
            inl (rw (refused, join_game) refl, rw (refused, join_game) (λ h. ground arith))
        | inr ((r, room), admitted) ↦
            let (id, session, indexed, loaded, passes) =
              admission_ok w conn ver params r room admitted in
            inr (
              id,
              r,
              room,
              check_session-Asked conn ver id params session,
              indexed,
              loaded,
              passes,
              rw (admitted, join_game) refl,
              rw (admitted, join_game) refl,
            )
      ]
