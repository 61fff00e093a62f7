-- ===== src/Gsc/Routes.antt =====
-- internal/app/gsc/routes: what the routes share.
pub mod JoinGame
pub mod Enter
pub mod TryEnter
pub mod RoomPages
pub mod RegNewRoom
pub mod Pages
pub mod Endpoint
mod Examples
mod EntryExamples
use cossacks_game_server.Base.{
  ℕ, ◌+◌, ◌^◌, Bool, true, false, ◌&&◌, Option, none, some, List, [], ◌∷◌, Bytes, codes,
  if◌then◌else◌, ltb, is_empty, bytes_eq,
}
use cossacks_game_server.Base.Int.{ℤ, pos}
use cossacks_game_server.Lobby.{leave}
use cossacks_game_server.Rooms.{Time}
use cossacks_game_server.Gsc.Connectivity.{clear_timer, arm_timer}
use cossacks_game_server.Gsc.Commands.{Server, render_show}
use cossacks_game_server.Render.{View, no_view}
use cossacks_game_server.Wire.Command.{CommandSet}
use cossacks_game_server.Gsc.Params.{Params}

-- `p[key]`: a missing key reads as the empty text.
unfoldable pub param : Bytes → Params → Bytes
param key [] = []
param key ((other, value) ∷ params) =
    let later = param key params in if bytes_eq other key then value else later

-- `renderAlert`.
unfoldable pub render_alert : (ℕ → Bytes → View → Bytes) → ℕ → (header text : Bytes) → CommandSet
unfolding render_show
render_alert render ver header text =
    render_show
      (render ver (codes "alert_dgl.tmpl") (record no_view { header = header; text = text }))

-- `LeaveByPlayer`.
unfoldable pub leave_by_player : Time → Server → ℕ → Server
leave_by_player now w id = record w {
  manager = clear_timer w.manager id;
  store = (leave w.store id now).0;
}
