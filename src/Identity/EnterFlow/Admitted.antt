-- ===== src/Identity/EnterFlow/Admitted.antt =====
-- internal/app/identity/enterflow.go: who is admitted.
use cossacks_game_server.Base.{
  ◌≤◌, true, false, none, some, is_empty, length, sym, ap, ◌∙◌, refl, ◌≡◌, arith, inl, inr, Bool,
  Bytes, Option, Bool-cases,
}
use cossacks_game_server.Base.Result.{result_cases, ok}
use cossacks_game_server.Config.{Providers}
use cossacks_game_server.Identity.Nick.{
  NickError, nick_ok, validate_nick, sanitize_account_nick, validate_nick-truncate_nick,
}
use cossacks_game_server.Identity.Service.{Account, AuthRequest, HttpClient, authenticate}
use cossacks_game_server.Identity.EnterFlow.{
  EnterDecision, EnterRequest, strip_dev_suffix, wants_account, decide_account, decide_guest,
  decide_logged_in, try_enter_decide, success, undecided,
}

abbrev pub auth_of : EnterRequest → AuthRequest
auth_of req = record {
  login_type = req.login_type;
  login = (strip_dev_suffix req.nick).0;
  password = req.password;
  client_ip = req.client_ip;
}

-- The three ways in.
pub data Admitted (http : HttpClient) (providers : Providers) (req : EnterRequest)
    (d : EnterDecision) : Type 0 where
  returning :
      (acc : Account)
      → req.logged_in ≡ true
      → req.current_acc ≡ some acc
      → is_empty acc.login ≡ false
      → d.account ≡ some acc
      → d.nick ≡ sanitize_account_nick acc.login
      → Admitted http providers req d
  authenticated :
      (acc : Account)
      → wants_account req ≡ true
      → is_empty (strip_dev_suffix req.nick).0 ≡ false
      → is_empty req.password ≡ false
      → authenticate http providers (auth_of req) ≡ ok acc
      → d.account ≡ some acc
      → d.nick ≡ sanitize_account_nick acc.login
      → Admitted http providers req d
  guest :
      wants_account req ≡ false
      → d.account ≡ none
      → validate_nick d.nick ≡ nick_ok
      → length d.nick ≤ 25
      → Admitted http providers req d

module _ (http : HttpClient) (providers : Providers) (req : EnterRequest) where
  logged_in-Admitted :
      (dev : Bool) (current : Option Account)
      → req.logged_in ≡ true
      → req.current_acc ≡ current
      → (decide_logged_in (undecided dev) current).kind ≡ success
      → Admitted http providers req (decide_logged_in (undecided dev) current)
  unfolding decide_logged_in
  logged_in-Admitted dev none hl hc h = ground arith
  logged_in-Admitted dev (some acc) hl hc h = elim (Bool-cases (is_empty acc.login)) [
    | inl blank ↦ absurd (ground arith)
    | inr login ↦ returning acc hl hc login (rw login refl) (rw login refl)
  ]

  account-Admitted :
      (dev : Bool)
      → wants_account req ≡ true
      → (decide_account http providers (undecided dev) req (strip_dev_suffix req.nick).0).kind
        ≡ success
      → Admitted http providers req
          (decide_account http providers (undecided dev) req (strip_dev_suffix req.nick).0)
  unfolding decide_account
  account-Admitted dev hw h = elim (result_cases (authenticate http providers (auth_of req))) [
    | inl (e, refused) ↦ absurd (ground arith)
    | inr (acc, taken) ↦ elim (Bool-cases (is_empty (strip_dev_suffix req.nick).0)) [
      | inl blank ↦ absurd (ground arith)
      | inr nick ↦ elim (Bool-cases (is_empty req.password)) [
        | inl blank ↦ absurd (ground arith)
        | inr password ↦
            authenticated acc hw nick password taken
              (rw (nick, password, taken, decide_account) refl)
              (rw (nick, password, taken, decide_account) refl)
      ]
    ]
  ]

  guest_is_valid :
      (dev : Bool) (nick : Bytes) (e : NickError)
      → validate_nick nick ≡ e
      → (decide_guest (undecided dev) req nick).kind ≡ success
      → validate_nick nick ≡ nick_ok
  unfolding decide_guest
  guest_is_valid dev nick nick_ok he h = he
  guest_is_valid dev nick NickError.empty he h = ground arith
  guest_is_valid dev nick NickError.bad_character he h = ground arith
  guest_is_valid dev nick NickError.starts_with_digit he h = ground arith
  guest_is_valid dev nick NickError.starts_with_dash he h = ground arith

  guest-Admitted :
      (dev : Bool) (nick : Bytes)
      → wants_account req ≡ false
      → (decide_guest (undecided dev) req nick).kind ≡ success
      → Admitted http providers req (decide_guest (undecided dev) req nick)
  unfolding decide_guest
  guest-Admitted dev nick hw h =
      let valid = guest_is_valid dev nick (validate_nick nick) refl h in
      let (still, short) = validate_nick-truncate_nick nick valid in
      guest hw (rw (valid, decide_guest) refl) (rw (valid, decide_guest) still)
        (rw (valid, decide_guest) short)

  by_branch :
      (d : EnterDecision)
      → try_enter_decide http providers req ≡ d
      → (d.kind ≡ success → Admitted http providers req d)
      → (try_enter_decide http providers req).kind ≡ success
      → Admitted http providers req (try_enter_decide http providers req)
  by_branch d e f h = rw e (f (ap (λ x. x.kind) (sym e) ∙ h))

  -- Whoever may enter is one of three: a client whose session has an account with a login and who
  -- says so; a client of the type LCN or WCL with a nick and a password that the account server
  -- took, under the account of its answer; or a client of another type with no account and a nick
  -- that is valid and has at most 25 bytes.
  pub try_enter_decide-Admitted :
      (try_enter_decide http providers req).kind ≡ success
      → Admitted http providers req (try_enter_decide http providers req)
  unfolding try_enter_decide
  try_enter_decide-Admitted h =
      let dev = (strip_dev_suffix req.nick).1 in
      let nick = (strip_dev_suffix req.nick).0 in
      elim (Bool-cases req.reset) [
        | inl reset ↦ absurd (ground arith)
        | inr kept ↦ elim (Bool-cases req.logged_in) [
          | inl before ↦
              by_branch (decide_logged_in (undecided dev) req.current_acc)
                (rw (kept, before, try_enter_decide) refl)
                (logged_in-Admitted dev req.current_acc before refl) h
          | inr new ↦ elim (Bool-cases (wants_account req)) [
            | inl asks ↦
                by_branch (decide_account http providers (undecided dev) req nick)
                  (rw (kept, new, asks, try_enter_decide) refl) (account-Admitted dev asks) h
            | inr plain ↦
                by_branch (decide_guest (undecided dev) req nick)
                  (rw (kept, new, plain, try_enter_decide) refl) (guest-Admitted dev nick plain) h
          ]
        ]
      ]
