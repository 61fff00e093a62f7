-- ===== src/Gsc/Routes/TryEnter/Entering.antt =====
-- internal/app/gsc/routes/try_enter.go: the state behind a successful entry.
use cossacks_game_server.Base.{
  ℕ, Option, none, some, [], ◌∷◌, ◌++◌, codes, Bytes, if◌then◌else◌, ◌==◌, ◌≡◌, ◌≢◌, refl, ap,
  arith, inl, inr, ◌⊎◌, Bool-cases, ==_refl, ==_iff,
}
use cossacks_game_server.Base.{Bool, Option-cases, sym, ◌∙◌}
use cossacks_game_server.Base.Maps.{lookup, insert, lookup-insert}
use mathlib.Core.Path.{subst}
use cossacks_game_server.Config.{GameConfig, ServerConfig, Providers}
use cossacks_game_server.Identity.Service.{HttpClient}
use cossacks_game_server.Identity.EnterFlow.{
  EnterKind, EnterRequest, EnterDecision, success, render_error_page, parse_enter_request,
  try_enter_decide,
}
use cossacks_game_server.Identity.EnterFlow.Admitted.{Admitted, try_enter_decide-Admitted}
use cossacks_game_server.Identity.EnterFlow.{EnterError}
use cossacks_game_server.Wire.Command.{CommandSet}
use cossacks_game_server.Gsc.Commands.{render_show}
use cossacks_game_server.Gsc.Routes.Enter.{render_enter}
use cossacks_game_server.Render.{no_view, View}
use cossacks_game_server.Gsc.Params.{Params}
use cossacks_game_server.Rooms.{
  Player, Store, Time, set_player, get_player, load_player, upsert_player,
}
use cossacks_game_server.Gsc.Commands.{Server, player_at, player_id_of}
use cossacks_game_server.Gsc.Connectivity.{Session, Connection, AccountInfo, conn_of, register_conn}
use cossacks_game_server.Gsc.Routes.Enter.{ensure_session}
use cossacks_game_server.Gsc.Routes.TryEnter.{
  entering_player, entering_id, admit_session, try_enter, ok_enter_page, take_account,
  apply_decision, by_kind,
}

player_at-upsert_player :
    (s : Store) (player : Player) → player_at (upsert_player s player) player.id ≡ some player
unfolding player_at upsert_player get_player set_player load_player
player_at-upsert_player s player =
    let indexed : lookup player.id (insert player.id s.next_ref s.players) ≡ some s.next_ref =
      rw (lookup-insert player.id player.id s.next_ref s.players, ==_refl player.id) refl in
    let stored : lookup s.next_ref (insert s.next_ref player s.player_heap) ≡ some player =
      rw (lookup-insert s.next_ref s.next_ref player s.player_heap, ==_refl s.next_ref) refl in
    rw (indexed, stored, player_at, get_player, load_player) refl

entering_player_id :
    (id : ℕ) (nick : Bytes) (ctime : Time) (account : Option AccountInfo)
    → (entering_player id nick ctime account).id ≡ id
unfolding entering_player
entering_player_id id nick ctime none = refl
entering_player_id id nick ctime (some acc) = refl

entering_id_kept :
    (now : Time) (w : Server) (session : Session)
    → session.player_id ≢ 0
    → (entering_id now w session).1 ≡ session.player_id
unfolding entering_id
entering_id_kept now w session h = elim (Bool-cases (session.player_id == 0)) [
  | inl e ↦ absurd (h ((==_iff session.player_id 0).0 e))
  | inr e ↦ rw e refl
]

-- A text of the account; none where there is no account.
abbrev pub account_text : (AccountInfo → Bytes) → Option AccountInfo → Bytes
account_text text none = []
account_text text (some acc) = text acc

-- The player bears the four texts of the account.
pub record Bears (player : Player) (account : Option AccountInfo) : Type 0 where
  pub type : player.account_type ≡ account_text (λ acc. acc.type) account
  pub login : player.account_login ≡ account_text (λ acc. acc.login) account
  pub id : player.account_id ≡ account_text (λ acc. acc.id) account
  pub profile : player.account_profile ≡ account_text (λ acc. acc.profile) account

-- Who entered under an id, with a nick and an account: the session has these three, the store leads
-- the id to a player with these three who was connected since the connection is there, the session
-- manager leads it to the connection, and an id that the session had is kept.
pub record Entered (conn : Connection) (nick : Bytes) (account : Option AccountInfo) (w' : Server)
    (conn' : Connection) (id : ℕ) : Type 0 where
  pub session :
      (session : Session) × (conn'.session ≡ some session)
      × (session.player_id ≡ id)
      × (session.nick ≡ nick)
      × (session.account ≡ account)
  pub player :
      (player : Player) × (player_at w'.store id ≡ some player)
      × (player.id ≡ id)
      × (player.nick ≡ nick)
      × (player.connected_at ≡ conn.ctime)
      × Bears player account
  pub reachable : conn_of w'.manager id ≡ some conn.id
  pub same_id : player_id_of conn ≢ 0 → id ≡ player_id_of conn

entering_player_lem :
    (id : ℕ) (nick : Bytes) (ctime : Time) (account : Option AccountInfo)
    → let player = entering_player id nick ctime account in
      (player.id ≡ id) × (player.nick ≡ nick) × (player.connected_at ≡ ctime) × Bears player account
unfolding entering_player
entering_player_lem id nick ctime none =
    (refl, refl, refl, record { type = refl; login = refl; id = refl; profile = refl })
entering_player_lem id nick ctime (some acc) =
    (refl, refl, refl, record { type = refl; login = refl; id = refl; profile = refl })

ensure_session-player_id : (conn : Connection) → (ensure_session conn).player_id ≡ player_id_of conn
unfolding ensure_session player_id_of
ensure_session-player_id conn = ground arith

admit_session-Entered :
    (now : Time) (w : Server) (conn : Connection) (nick : Bytes)
    → let (w', conn', id) = admit_session now w conn nick in
      Entered conn nick (ensure_session conn).account w' conn' id
unfolding admit_session
admit_session-Entered now w conn nick =
    let session = ensure_session conn in
    let id = (entering_id now w session).1 in
    let player = entering_player id nick conn.ctime session.account in
    let (e, named, since, bears) = entering_player_lem id nick conn.ctime session.account in
    record {
      session = (record session { player_id = id; nick = nick }, refl, refl, refl, refl);
      player = (
        player,
        subst
            (λ key.
              player_at (upsert_player (entering_id now w session).0.store player) key
              ≡ some player)
            e (player_at-upsert_player (entering_id now w session).0.store player),
        e,
        named,
        since,
        bears,
      );
      reachable =
          unfold conn_of register_conn in
          rw (lookup-insert id id conn.id (entering_id now w session).0.manager.by_id, ==_refl id)
            refl;
      same_id = λ h.
          entering_id_kept now w session (λ e. h (sym (ensure_session-player_id conn) ∙ e))
          ∙ ensure_session-player_id conn;
    }

-- The account of a decision; where it has none the one from before, unless the decision clears it.
abbrev pub chosen :
    (decided : Option AccountInfo) → Bool → (old : Option AccountInfo) → Option AccountInfo
chosen (some acc) clear old = some acc
chosen none clear old = if clear then none else old

take_account-chosen :
    (dec : EnterDecision) (session : Session)
    → (take_account dec (apply_decision dec session)).account
      ≡ chosen dec.account dec.clear_account session.account
unfolding take_account apply_decision
take_account-chosen dec session = elim (Option-cases dec.account) [
  | inl e ↦ rw e refl
  | inr (acc, e) ↦ rw e refl
]

take_account-player_id :
    (dec : EnterDecision) (session : Session)
    → (take_account dec (apply_decision dec session)).player_id ≡ session.player_id
unfolding take_account apply_decision
take_account-player_id dec session = elim (Option-cases dec.account) [
  | inl e ↦ rw e refl
  | inr (acc, e) ↦ rw e refl
]

kind_cases : (k : EnterKind) → (k ≡ success) ⊎ (k ≡ render_error_page) ⊎ (k ≡ EnterKind.render)
kind_cases success = inl refl
kind_cases render_error_page = inr (inl refl)
kind_cases EnterKind.render = inr (inr refl)

module _ (render : ℕ → (template : Bytes) → View → Bytes) (game : GameConfig)
    (server : ServerConfig) (http : HttpClient) (providers : Providers) (now : Time) (w : Server)
    (conn : Connection) (ver : ℕ) (params : Params) where
  -- The request that is decided, and the decision.
  abbrev pub request : EnterRequest
  request = parse_enter_request params (ensure_session conn).account conn.ip

  abbrev pub decision : EnterDecision
  decision = try_enter_decide http providers request

  -- The connection with what the decision changes in its session.
  abbrev pub decided : Connection
  decided = record conn {
    session = some (take_account decision (apply_decision decision (ensure_session conn)));
  }

  -- The account that the session has then: the one of the decision, and where it has none the
  -- session's own, unless the decision clears it.
  abbrev pub account_then : Option AccountInfo
  account_then = chosen decision.account decision.clear_account (ensure_session conn).account

  decided_account : (ensure_session decided).account ≡ account_then
  unfolding ensure_session
  decided_account = take_account-chosen decision (ensure_session conn)

  decided_player_id : player_id_of decided ≡ player_id_of conn
  unfolding player_id_of
  decided_player_id =
      take_account-player_id decision (ensure_session conn) ∙ ensure_session-player_id conn

  abbrev posted : Server
  posted =
      if decision.run_post_account_action
      then record w { posts = w.posts ++ (codes "enter", none) ∷ [] }
      else w

  abbrev entered : Server × Connection × ℕ
  entered = admit_session now posted decided decision.nick

  -- The two pages, with the state.
  abbrev error_page : Server × Connection × CommandSet × Option EnterError
  error_page = (
    w,
    record conn { session = some (apply_decision decision (ensure_session conn)) },
    render_show
        (render ver (codes "error_enter.tmpl") (record no_view { text = decision.message })),
    decision.error,
  )

  abbrev form : Server × Connection × CommandSet × Option EnterError
  form = (
    w,
    record conn { session = some (apply_decision decision (ensure_session conn)) },
    render_enter render game server ver decision.login_type decision.message [] [] [],
    decision.error,
  )

  abbrev admitted : Server × Connection × CommandSet × Option EnterError
  admitted = (
    entered.0,
    entered.1,
    ok_enter_page render game server http providers ver decision.nick entered.2 entered.1,
    decision.error,
  )

  by_decision :
      (k : EnterKind)
      → decision.kind ≡ k
      → try_enter render game server http providers now w conn ver params
        ≡ by_kind k admitted error_page form
  unfolding try_enter
  by_decision k e = ap (λ kind. by_kind kind admitted error_page form) e

  entered_lem : Entered conn decision.nick account_then entered.0 entered.1 entered.2
  entered_lem =
      let e = admit_session-Entered now posted decided decision.nick in
      let (session, at, has_id, named, account) = e.session in
      let (player, found, with_id, with_nick, since, bears) = e.player in
      record {
        session = (session, at, has_id, named, account ∙ decided_account);
        player =
            (player, found, with_id, with_nick, since, subst (Bears player) decided_account bears);
        reachable = e.reachable;
        same_id = λ h. e.same_id (λ z. h (sym decided_player_id ∙ z)) ∙ decided_player_id;
      }

  -- A request to enter, every branch of it: where the decision is no success the server and the
  -- player id are as they were; where it is, the client was admitted in one of the three ways, and
  -- afterwards the session has an id, the nick of the decision and an account: that of the decision,
  -- or where it has none the account that the session had, unless the decision clears it. The store
  -- has a player of that id with that nick and the texts of that account, the session manager leads
  -- to the connection, and an id that the session had is kept.
  pub try_enter_lem :
      let (w', conn', page, e) =
        try_enter render game server http providers now w conn ver params in
      ((decision.kind ≢ success) × (w' ≡ w) × (player_id_of conn' ≡ player_id_of conn))
      ⊎ (Admitted http providers request decision
          × ((id : ℕ) × Entered conn decision.nick account_then w' conn' id))
  unfolding player_id_of apply_decision
  try_enter_lem = elim (kind_cases decision.kind) [
    | inl good ↦
        rw (by_decision success good)
          (inr (try_enter_decide-Admitted http providers request good, (entered.2, entered_lem)))
    | inr (inl page) ↦
        rw (by_decision render_error_page page)
          (inl (λ h. ground arith, refl, ensure_session-player_id conn))
    | inr (inr again) ↦
        rw (by_decision EnterKind.render again)
          (inl (λ h. ground arith, refl, ensure_session-player_id conn))
  ]
