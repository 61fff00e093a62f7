-- ===== src/Match/Endgame.antt =====
-- internal/app/match/endgame.go and `EndgameResult` of service.go.
use cossacks_game_server.Base.{
  ℕ, ◌&&◌, not, Option, none, some, List, [], ◌∷◌, ◌++◌, Bytes, codes, if◌then◌else◌, ◌==◌,
}
use cossacks_game_server.Base.Int.{ℤ, pos, negsuc}
use cossacks_game_server.Base.Format.{print_int}
use cossacks_game_server.Rooms.{Player, Room}
use cossacks_game_server.Match.IntArg.{int_arg, to_u32}

pub record EndgameEvent : Type 0 where
  pub game_id : ℤ
  pub player_id : ℕ
  pub result : Bytes
  pub nick : Bytes
  pub own : Bytes
  pub title : Bytes

unknown_result : ℤ → Bytes
unknown_result code = b'?' ∷ print_int code ++ b'?' ∷ []

-- `EndgameResult`.
unfoldable pub endgame_result : ℤ → Bytes
unfolding unknown_result
endgame_result (negsuc n) = unknown_result (negsuc n)
endgame_result (pos n) =
    if n == 1
    then codes "loose"
    else if n == 2
    then codes "win"
    else if n == 5
    then codes "disconnect"
    else unknown_result (pos n)

-- `own`: the host ends his own game.
unfoldable pub own_tag : Option Room → ℕ → Bytes
own_tag none connected = []
own_tag (some room) connected =
    if not (connected == 0) && room.host_id == connected then codes "his " else []

unfoldable pub title_tag : Option Room → Bytes
title_tag none = []
title_tag (some room) = b' ' ∷ room.title

unfoldable pub nick_of : Option Player → Bytes
nick_of none = codes "."
nick_of (some player) = player.nick

-- `ParseEndgame`; the lookups are arguments, as in the source. The errors of `IntArg` are ignored.
unfoldable pub parse_endgame :
    List Bytes → ℕ → (ℕ → Option Player) → (ℕ → Option Room) → Option EndgameEvent
unfolding own_tag title_tag nick_of
parse_endgame (game ∷ player ∷ result ∷ _) connected get_player get_room =
    let game_id = (int_arg game).0 in
    let player_id = to_u32 (int_arg player).0 in
    let room = get_room (to_u32 game_id) in
    some (record {
      game_id = game_id;
      player_id = player_id;
      result = endgame_result (int_arg result).0;
      nick = nick_of (get_player player_id);
      own = own_tag room connected;
      title = title_tag room;
    })
parse_endgame _ connected get_player get_room = none
