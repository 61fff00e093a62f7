-- ===== src/Identity/EnterFlow.antt =====
-- internal/app/identity/enterflow.go: what the answer to `try_enter` is to be.
pub mod Admitted
use cossacks_game_server.Base.{
  ℕ, Bool, true, false, not, ◌&&◌, ◌||◌, Option, none, some, List, [], ◌∷◌, ◌++◌, Bytes, codes,
  if◌then◌else◌, is_empty, bytes_eq,
}
use cossacks_game_server.Base.Int.{ℤ, pos}
use cossacks_game_server.Base.Numerals.{atoi}
use cossacks_game_server.Base.Result.{Result, ok, err}
use cossacks_game_server.Base.Strings.{trim_space, cut_suffix}
use cossacks_game_server.Base.TextMaps.{find}
use cossacks_game_server.Config.{Providers}
use cossacks_game_server.Identity.Nick.{
  NickError, nick_ok, message, validate_nick, truncate_nick, sanitize_account_nick,
}
use cossacks_game_server.Identity.Service.{
  Account, AuthRequest, AuthError, provider_unreachable, bad_credentials, provider_misconfigured,
  HttpClient, authenticate,
}

pub data EnterKind : Type 0 where
  render render_error_page success : EnterKind

pub data EnterError : Type 0 where
  missing_nick : Bytes → EnterError
  missing_password : Bytes → EnterError
  auth_failed : Bytes → EnterError
  illegal_nick : Bytes → EnterError

-- `EnterDecision`, without three fields that are never written; `account` has the fields of
-- identity.AccountInfo, and a height of 0 leaves the session's.
pub record EnterDecision : Type 0 where
  pub kind : EnterKind
  pub login_type : Bytes
  pub message : Bytes
  pub nick : Bytes
  pub account : Option Account
  pub dev_flag : Bool
  pub set_height : ℤ
  pub clear_account : Bool
  pub run_post_account_action : Bool
  pub error : Option EnterError

pub record EnterRequest : Type 0 where
  pub nick : Bytes
  pub login_type : Bytes
  pub password : Bytes
  pub reset : Bool
  pub logged_in : Bool
  pub height_str : Bytes
  pub current_acc : Option Account
  pub client_ip : Bytes

-- `p[key]`.
abbrev value_of : List (Bytes × Bytes) → Bytes → Bytes
value_of p key = elim (find key p) [ none ↦ [] | some v ↦ v ]

-- `ParseEnterRequest`.
unfoldable pub parse_enter_request : List (Bytes × Bytes) → Option Account → Bytes → EnterRequest
parse_enter_request p current_acc client_ip = record {
  nick = trim_space (value_of p (codes "NICK"));
  login_type = trim_space (value_of p (codes "TYPE"));
  password = trim_space (value_of p (codes "PASSWORD"));
  reset = not (is_empty (value_of p (codes "RESET")));
  logged_in = not (is_empty (value_of p (codes "LOGGED_IN")));
  height_str = trim_space (value_of p (codes "HEIGHT"));
  current_acc = current_acc;
  client_ip = client_ip;
}

unfoldable pub strip_dev_suffix : Bytes → Bytes × Bool
strip_dev_suffix nick = elim (cut_suffix (codes "#dev4231") nick) [
  | none ↦ (nick, false)
  | some stripped ↦ (stripped, true)
]

unfoldable pub auth_err_message : AuthError → Bytes
auth_err_message (provider_unreachable server_name) =
    codes "problem with " ++ server_name ++ codes " server"
auth_err_message bad_credentials = codes "incorrect login or password"
auth_err_message (provider_misconfigured server_name) =
    codes "problem with " ++ server_name ++ codes " server"

abbrev undecided : Bool → EnterDecision
undecided dev = record {
  kind = render;
  login_type = [];
  message = [];
  nick = [];
  account = none;
  dev_flag = dev;
  set_height = pos 0;
  clear_account = false;
  run_post_account_action = false;
  error = none;
}

-- An account that was logged in before needs no password.
unfoldable pub decide_logged_in : EnterDecision → Option Account → EnterDecision
decide_logged_in d none = d
decide_logged_in d (some acc) = if is_empty acc.login then d else record d {
  kind = success;
  account = some acc;
  nick = sanitize_account_nick acc.login;
  run_post_account_action = true;
}

-- The enter page again, with a text.
abbrev ask_again : EnterDecision → Bytes → Bytes → EnterError → EnterDecision
ask_again d login_type text e = record d { login_type = login_type; message = text; error = some e }

-- The LCN and WCL branch.
unfoldable pub decide_account :
    HttpClient → Providers → EnterDecision → EnterRequest → Bytes → EnterDecision
decide_account http providers d req nick =
    let auth : AuthRequest = record {
      login_type = req.login_type;
      login = nick;
      password = req.password;
      client_ip = req.client_ip;
    } in
    let answered : EnterDecision = elim (authenticate http providers auth) [
      | err e ↦ ask_again d req.login_type (auth_err_message e) (auth_failed (auth_err_message e))
      | ok acc ↦ record d {
        kind = success;
        account = some acc;
        nick = sanitize_account_nick acc.login;
      }
    ] in
    if is_empty nick
    then ask_again d req.login_type (codes "enter nick") (missing_nick req.login_type)
    else if is_empty req.password
    then ask_again d req.login_type (codes "enter password") (missing_password req.login_type)
    else answered

-- The branch of a guest.
unfoldable pub decide_guest : EnterDecision → EnterRequest → Bytes → EnterDecision
decide_guest d req nick =
    let height : ℤ = elim (atoi req.height_str) [ none ↦ d.set_height | some h ↦ h ] in
    let bad : NickError → EnterDecision = λ e. record d {
      kind = render_error_page;
      message = message e;
      set_height = height;
      error = some (illegal_nick (message e));
    } in
    elim (validate_nick nick) [
      | nick_ok ↦ record d { kind = success; nick = truncate_nick nick; set_height = height }
      | NickError.empty ↦ bad NickError.empty
      | NickError.bad_character ↦ bad NickError.bad_character
      | NickError.starts_with_digit ↦ bad NickError.starts_with_digit
      | NickError.starts_with_dash ↦ bad NickError.starts_with_dash
    ]

-- Whether the type asks for an account.
abbrev pub wants_account : EnterRequest → Bool
wants_account req = bytes_eq req.login_type (codes "LCN") || bytes_eq req.login_type (codes "WCL")

-- `TryEnterDecide`.
unfoldable pub try_enter_decide : HttpClient → Providers → EnterRequest → EnterDecision
try_enter_decide http providers req =
    let (nick, dev) = strip_dev_suffix req.nick in
    let d = undecided dev in
    if req.reset
    then record d { clear_account = true }
    else if req.logged_in
    then decide_logged_in d req.current_acc
    else if wants_account req
    then decide_account http providers d req nick
    else decide_guest d req nick
