-- ===== src/Gsc/Routes/TryEnter.antt =====
-- internal/app/gsc/routes/try_enter.go: a client enters.
pub mod Entering
use cossacks_game_server.Base.{
  ℕ, suc, Bool, true, false, Option, none, some, List, [], ◌∷◌, ◌++◌, Bytes, codes, if◌then◌else◌,
  ◌==◌,
}
use cossacks_game_server.Base.Int.{ℤ, pos, negsuc}
use cossacks_game_server.Base.Format.{print_uint}
use cossacks_game_server.Base.Maps.{insert}
use cossacks_game_server.Config.{GameConfig, ServerConfig, Providers}
use cossacks_game_server.Identity.EnterFlow.{
  EnterKind, EnterDecision, EnterError, success, render_error_page, parse_enter_request,
  try_enter_decide,
}
use cossacks_game_server.Identity.Service.{Account, HttpClient}
use cossacks_game_server.Render.{View, no_view}
use cossacks_game_server.Rooms.{Player, Time, next_player_id, upsert_player}
use cossacks_game_server.Wire.Command.{CommandSet}
use cossacks_game_server.Gsc.Commands.{Server, render_show}
use cossacks_game_server.Gsc.Connectivity.{Session, Connection, AccountInfo, register_conn}
use cossacks_game_server.Gsc.Params.{Params}
use cossacks_game_server.Gsc.Routes.{leave_by_player}
use cossacks_game_server.Gsc.Routes.Enter.{ensure_session, window_size, render_enter}

-- The player object of a session.
unfoldable pub entering_player : ℕ → Bytes → Time → Option AccountInfo → Player
entering_player id nick ctime account =
    let guest : Player = record {
      id = id;
      nick = nick;
      connected_at = ctime;
      exited_at = 0;
      account_type = [];
      account_login = [];
      account_id = [];
      account_profile = [];
      nation = 0;
      theam = 0;
      color = 0;
    } in
    elim account [
      | none ↦ guest
      | some acc ↦ record guest {
        account_type = acc.type;
        account_login = acc.login;
        account_id = acc.id;
        account_profile = acc.profile;
      }
    ]

-- The id: the one of the session, whose room is left, or the next one.
unfoldable pub entering_id : Time → Server → Session → Server × ℕ
entering_id now w session =
    let (s, id) = next_player_id w.store in
    if session.player_id == 0
    then (record w { store = s }, id)
    else (leave_by_player now w session.player_id, session.player_id)

-- `successEnter` without the page.
unfoldable pub admit_session : Time → Server → Connection → Bytes → Server × Connection × ℕ
admit_session now w conn nick =
    let session = ensure_session conn in
    let (w1, id) = entering_id now w session in
    let s = upsert_player w1.store (entering_player id nick conn.ctime session.account) in
    (
      record w1 { store = s; manager = register_conn w1.manager id conn.id },
      record conn { session = some (record session { player_id = id; nick = nick }) },
      id,
    )

-- What the decision changes in the session before it is acted on.
unfoldable pub apply_decision : EnterDecision → Session → Session
apply_decision dec session = record session {
  dev = dec.dev_flag;
  window_h = elim dec.set_height [
    | pos n ↦ if n == 0 then session.window_h else pos n
    | negsuc n ↦ negsuc n
  ];
  account = if dec.clear_account then none else session.account;
}

-- `dec.Account`, where it is not nil.
unfoldable pub take_account : EnterDecision → Session → Session
take_account dec session = elim dec.account [
  | none ↦ session
  | some acc ↦ record session { account = some acc }
]

-- The switch over the kind.
abbrev pub by_kind : {A : Type 0} → EnterKind → (entered error_page form : A) → A
by_kind success entered error_page form = entered
by_kind render_error_page entered error_page form = error_page
by_kind EnterKind.render entered error_page form = form

module _ (render : ℕ → (template : Bytes) → View → Bytes) (game : GameConfig)
    (server : ServerConfig) (http : HttpClient) (providers : Providers) where
  -- The page of `successEnter`.
  unfoldable pub ok_enter_page : ℕ → Bytes → ℕ → Connection → CommandSet
  ok_enter_page ver nick id conn = render_show (
      render ver (codes "ok_enter.tmpl") (record no_view {
        nick = nick;
        nickname = nick;
        id = print_uint id;
        chat_server = game.chat_server;
        window_size = window_size conn;
        ver = print_uint ver;
      }))

  -- `TryEnterImpl`.
  unfoldable pub try_enter :
      Time → Server → Connection → ℕ → Params → Server × Connection × CommandSet × Option EnterError
  try_enter now w conn ver params =
      let session = ensure_session conn in
      let dec =
        try_enter_decide http providers (parse_enter_request params session.account conn.ip) in
      let session1 = apply_decision dec session in
      let conn1 : Connection = record conn { session = some session1 } in
      let conn2 : Connection = record conn { session = some (take_account dec session1) } in
      let posted : Server =
        if dec.run_post_account_action
        then record w { posts = w.posts ++ (codes "enter", none) ∷ [] }
        else w in
      let (w', conn', id) = admit_session now posted conn2 dec.nick in
      by_kind dec.kind (w', conn', ok_enter_page ver dec.nick id conn', dec.error)
        (
          w,
          conn1,
          render_show
              (render ver (codes "error_enter.tmpl") (record no_view { text = dec.message })),
          dec.error,
        )
        (
          w,
          conn1,
          render_enter render game server ver dec.login_type dec.message [] [] [],
          dec.error,
        )
