-- ===== src/Match/StartPayload.antt =====
-- `BuildStartAccountPayload` of internal/app/match/start_payload.go: what the account service is
-- told when a game starts. The maps of the payload are records; a key that may be missing is an
-- option.
use cossacks_game_server.Base.{
  ℕ, zero, suc, ◌^◌, ◌&&◌, Option, none, some, List, [], ◌∷◌, Bytes, if◌then◌else◌, ltb, is_empty,
}
use cossacks_game_server.Base.Int.{ℤ, pos_part}
use cossacks_game_server.Base.Numerals.{digits_value}
use cossacks_game_server.Lobby.Sav.{match_sav}
use cossacks_game_server.Rooms.{Player, Room, Time}
use cossacks_game_server.Match.IntArg.{int_arg, to_u32}

pub record AccountRef : Type 0 where
  pub type : Bytes
  pub profile : Option Bytes
  pub id : Option Bytes

-- The keys of a player that the server still knows; `Unix` is applied to the time.
pub record Known : Type 0 where
  pub nick : Bytes
  pub connected_at : Time
  pub account : Option AccountRef

-- `none` for a player with the key `lost`.
pub record PostPlayer : Type 0 where
  pub id : ℕ
  pub nation : ℤ
  pub theam : ℤ
  pub color : ℤ
  pub known : Option Known

pub record StartPayload : Type 0 where
  pub id : ℕ
  pub title : Bytes
  pub max_players : ℤ
  pub players_count : ℤ
  pub level : ℤ
  pub ctime : Time
  pub map_name : Bytes
  pub save_from : Option ℕ
  pub players : List PostPlayer

-- What is known of a player; empty texts of the account have no key.
unfoldable pub known_of : Player → Known
known_of player = record {
  nick = player.nick;
  connected_at = player.connected_at;
  account =
      if is_empty player.account_type
      then none
      else some (record {
        type = player.account_type;
        profile = if is_empty player.account_profile then none else some player.account_profile;
        id = if is_empty player.account_id then none else some player.account_id;
      });
}

-- One tuple of four arguments; `none` where one of them does not parse.
unfoldable pub post_player : (ℕ → Option Player) → (a b c d : Bytes) → Option PostPlayer
unfolding known_of
post_player get_player a b c d =
    let (player_id, ok1) = int_arg a in
    let (nation, ok2) = int_arg b in
    let (theam, ok3) = int_arg c in
    let (color, ok4) = int_arg d in
    if ok1 && ok2 && ok3 && ok4
    then some (record {
      id = to_u32 player_id;
      nation = nation;
      theam = theam;
      color = color;
      known = elim (get_player (to_u32 player_id)) [
        | none ↦ none
        | some player ↦ some (known_of player)
      ];
    })
    else none

-- The loop: at most `left` more players.
unfoldable pub post_players : (ℕ → Option Player) → ℕ → List Bytes → List PostPlayer
unfolding post_player
post_players get_player zero raw = []
post_players get_player (suc left) (a ∷ b ∷ c ∷ d ∷ raw) = elim (post_player get_player a b c d) [
  | none ↦ post_players get_player (suc left) raw
  | some player ↦ player ∷ post_players get_player left raw
]
post_players get_player (suc left) _ = []

-- The key `save_from` is missing where the number is out of range.
unfoldable pub save_from_of : Bytes → Option ℕ
unfolding match_sav digits_value
save_from_of sav = elim (match_sav sav) [
  | none ↦ none
  | some run ↦ let n = digits_value 0 run in if ltb n (2 ^ 63) then some n else none
]

-- `BuildStartAccountPayload`; `none` for its nil.
unfoldable pub build_start_account_payload :
    Room → List Bytes → (sav map_name : Bytes) → (ℕ → Option Player) → Option StartPayload
unfolding post_players save_from_of
build_start_account_payload room (_ ∷ _ ∷ count ∷ raw) sav map_name get_player =
    let (n, parsed) = int_arg count in
    if parsed && ltb 0 (pos_part n)
    then some (record {
      id = room.id;
      title = room.title;
      max_players = room.max_players;
      players_count = room.players_count;
      level = room.level;
      ctime = room.ctime;
      map_name = map_name;
      save_from = save_from_of sav;
      players = post_players get_player (pos_part n) raw;
    })
    else none
build_start_account_payload room _ sav map_name get_player = none
