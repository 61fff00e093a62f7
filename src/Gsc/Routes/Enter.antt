-- ===== src/Gsc/Routes/Enter.antt =====
-- internal/app/gsc/routes/enter.go and resize.go.
use cossacks_game_server.Base.{
  ℕ, Option, none, some, [], Bytes, codes, if◌then◌else◌, is_empty, bytes_eq,
}
use cossacks_game_server.Base.Int.{pos, ltb_ℤ}
use cossacks_game_server.Base.Format.{print_uint}
use cossacks_game_server.Base.Numerals.{atoi}
use cossacks_game_server.Base.Strings.{trim_space}
use cossacks_game_server.Config.{GameConfig, ServerConfig}
use cossacks_game_server.Render.{View, no_view}
use cossacks_game_server.Wire.Command.{CommandSet}
use cossacks_game_server.Gsc.Commands.{fresh_session, render_show}
use cossacks_game_server.Gsc.Connectivity.{Session, Connection}
use cossacks_game_server.Gsc.Params.{Params}
use cossacks_game_server.Gsc.Routes.{param}

-- `EnsureSession` and `ensureSessionRoutes`.
unfoldable pub ensure_session : Connection → Session
ensure_session conn = elim conn.session [ none ↦ fresh_session 0 | some session ↦ session ]

-- `WindowSize`.
unfoldable pub window_size : Connection → Bytes
window_size conn = elim conn.session [
  | none ↦ codes "small"
  | some session ↦ if ltb_ℤ (pos 366) session.window_h then codes "large" else codes "small"
]

-- `Resize`; the error has the text that is no number.
unfoldable pub resize : Connection → Params → Connection × CommandSet × Option Bytes
unfolding param trim_space atoi ensure_session window_size render_show
resize conn params =
    let raw = trim_space (param (codes "height") params) in
    let parsed = atoi raw in
    let conn' : Connection = elim parsed [
      | none ↦ conn
      | some height ↦ record conn {
        session = some (record (ensure_session conn) { window_h = height });
      }
    ] in
    let bad : Option Bytes = elim parsed [
      | none ↦ if is_empty raw then none else some raw
      | some _ ↦ none
    ] in
    let body =
      if bytes_eq (window_size conn') (codes "large")
      then codes "<RESIZE>\n#large\n<RESIZE>"
      else codes "<RESIZE>\n<RESIZE>" in
    (conn', render_show body, bad)

module _ (render : ℕ → (template : Bytes) → View → Bytes) (game : GameConfig)
    (server : ServerConfig) where
  -- `RenderEnter`, with the settings there.
  unfoldable pub render_enter : ℕ → (login_type err_text logged_in nick id : Bytes) → CommandSet
  unfolding render_show print_uint
  render_enter ver login_type err_text logged_in nick id = render_show (
      render ver (codes "enter.tmpl") (record no_view {
        type = login_type;
        error = err_text;
        logged_in = bytes_eq logged_in (codes "1");
        nick = nick;
        nickname = nick;
        id = id;
        chat_server = game.chat_server;
        server_title = game.server_title;
        table_timeout = game.table_timeout;
        ver = print_uint ver;
        server_name = server.host_name;
      }))

  -- `Enter`.
  unfoldable pub enter : Connection → ℕ → Params → CommandSet
  unfolding render_enter param
  enter conn ver params =
      let plain = render_enter ver (param (codes "TYPE") params) [] [] [] [] in
      elim conn.session [
        | none ↦ plain
        | some session ↦ elim session.account [
          | none ↦ plain
          | some acc ↦
              if is_empty acc.type
              then plain
              else render_enter ver acc.type [] (codes "1") acc.login acc.id
        ]
      ]
