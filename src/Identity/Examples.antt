-- ===== src/Identity/Examples.antt =====
-- Nicks, logins and entries at concrete inputs.
use cossacks_game_server.Base.{
  true, false, List, ◌∷◌, Option, none, some, bytes_eq, [], Bytes, codes, if◌then◌else◌, ◌≡◌, refl,
}
use cossacks_game_server.Base.Result.{ok}
use cossacks_game_server.Base.Strings.{trim_space, cut_suffix}
use cossacks_game_server.Base.TextMaps.{find}
use cossacks_game_server.Config.{Providers, provider}
use cossacks_game_server.Identity.Service.{
  Account, AuthRequest, HttpClient, authenticate, read_response, logon_request, account_of,
}
use cossacks_game_server.Identity.Logon.{Taken, authenticate-Taken}
use cossacks_game_server.Identity.EnterFlow.{
  EnterDecision, success, parse_enter_request, try_enter_decide, decide_account, auth_err_message,
  strip_dev_suffix,
}
use cossacks_game_server.Identity.EnterFlow.Admitted.{Admitted, try_enter_decide-Admitted}
use cossacks_game_server.Identity.Nick.{
  nick_ok, empty, bad_character, starts_with_digit, starts_with_dash, validate_nick, is_allowed,
  sanitize_account_nick, keep_allowed, starts_with, validate_nick-sanitize_account_nick,
}

validate_nick_examples :
    (validate_nick (codes "[x]_1") ≡ nick_ok)
    × (validate_nick (codes "a b") ≡ bad_character)
    × (validate_nick (codes "1a") ≡ starts_with_digit)
    × (validate_nick [] ≡ empty)
unfolding validate_nick is_allowed
validate_nick_examples = (refl, refl, refl, refl)

-- A dash at the front is kept, and the nick is refused.
sanitize_dash : validate_nick (sanitize_account_nick (codes "-bob!")) ≡ starts_with_dash
unfolding validate_nick sanitize_account_nick is_allowed
sanitize_dash = refl

abbrev long_nick : Bytes
long_nick = codes "abcdefghijklmnopqrstuvwxyz"

long_nick_ok : validate_nick long_nick ≡ nick_ok
unfolding validate_nick is_allowed
long_nick_ok = refl

validate_nick-sanitize_account_nick_example :
    validate_nick (sanitize_account_nick (codes "7 up"))
    ≡ (if starts_with b'-' (keep_allowed (codes "7 up")) then starts_with_dash else nick_ok)
validate_nick-sanitize_account_nick_example = validate_nick-sanitize_account_nick (codes "7 up")

abbrev map_profile : Option Account → Bytes
map_profile none = []
map_profile (some acc) = acc.profile

-- A server that takes one password.
abbrev lcn : Providers
lcn = (codes "lcn", record { host = codes "lcn.example"; key = codes "s"; server_name = [] }) ∷ []

abbrev takes_x : HttpClient
takes_x req = some (record {
  status_code = 200;
  payload = some (record {
    success = elim (find (codes "password") req.form) [
      | none ↦ false
      | some p ↦ bytes_eq p (codes "x")
    ];
    id = codes "7";
    profile = [];
  });
})

abbrev asks : Bytes → List (Bytes × Bytes)
asks password =
    (codes "NICK", codes "bob#dev4231")
    ∷ (codes "TYPE", codes "LCN")
    ∷ (codes "PASSWORD", password)
    ∷ []

abbrev asked : Bytes → EnterDecision
asked password = try_enter_decide takes_x lcn (parse_enter_request (asks password) none [])

decisions :
    ((asked []).message ≡ codes "enter password")
    × ((asked (codes "y")).message ≡ codes "incorrect login or password")
    × ((asked (codes "x")).nick ≡ codes "bob")
    × ((asked (codes "x")).dev_flag ≡ true)
    × (map_profile (asked (codes "x")).account
        ≡ codes "http://lcn.example/lang_redir.php?path=player.php?plid=7")
unfolding try_enter_decide parse_enter_request decide_account authenticate sanitize_account_nick
    is_allowed auth_err_message strip_dev_suffix read_response logon_request account_of find
    trim_space cut_suffix provider
decisions = (refl, refl, refl, refl, refl)

bob_admitted : (asked (codes "x")).kind ≡ success
unfolding try_enter_decide parse_enter_request decide_account authenticate strip_dev_suffix
    read_response logon_request find trim_space cut_suffix provider
bob_admitted = refl

try_enter_decide-Admitted_example :
    Admitted takes_x lcn (parse_enter_request (asks (codes "x")) none []) (asked (codes "x"))
try_enter_decide-Admitted_example =
    try_enter_decide-Admitted takes_x lcn (parse_enter_request (asks (codes "x")) none [])
      bob_admitted

abbrev logon : AuthRequest
logon = record {
  login_type = codes "LCN";
  login = codes "bob";
  password = codes "x";
  client_ip = [];
}

abbrev bob : Account
bob = record {
  type = codes "LCN";
  login = codes "bob";
  id = codes "7";
  profile = codes "http://lcn.example/lang_redir.php?path=player.php?plid=7";
}

logon_ok : authenticate takes_x lcn logon ≡ ok bob
unfolding authenticate read_response logon_request account_of provider
logon_ok = refl

authenticate-Taken_example : Taken takes_x lcn logon bob
authenticate-Taken_example = authenticate-Taken takes_x lcn logon bob logon_ok
