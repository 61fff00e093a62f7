-- ===== src/Identity/Service.antt =====
-- internal/app/identity/service.go: the calls of the account server. The HTTP client is a parameter:
-- it answers a request, or fails.
use cossacks_game_server.Base.{
  ℕ, Bool, not, ◌&&◌, ◌||◌, Option, none, some, List, [], ◌∷◌, ◌++◌, Bytes, codes, if◌then◌else◌,
  leb, ltb, is_empty, bytes_eq,
}
use cossacks_game_server.Base.Format.{print_uint}
use cossacks_game_server.Base.Result.{Result, ok, err}
use cossacks_game_server.Base.Strings.{to_lower}
use cossacks_game_server.Config.{ProviderConfig, Providers, provider}

-- port.Account and port.AuthRequest.
pub record Account : Type 0 where
  pub type : Bytes
  pub login : Bytes
  pub id : Bytes
  pub profile : Bytes

pub record AuthRequest : Type 0 where
  pub login_type : Bytes
  pub login : Bytes
  pub password : Bytes
  pub client_ip : Bytes

-- A request is known by its address, its form and its headers.
pub record HttpRequest : Type 0 where
  pub endpoint : Bytes
  pub form : List (Bytes × Bytes)
  pub headers : List (Bytes × Bytes)

-- The fields of the JSON body; `id` is the text that `%v` gives the value.
pub record LogonPayload : Type 0 where
  pub success : Bool
  pub id : Bytes
  pub profile : Bytes

-- The status, and the body where it was read and is JSON of the fields above.
pub record HttpResponse : Type 0 where
  pub status_code : ℕ
  pub payload : Option LogonPayload

-- `none` where no request can be made, or the client fails.
abbrev pub HttpClient : Type 0
HttpClient = HttpRequest → Option HttpResponse

pub data AuthError : Type 0 where
  provider_unreachable : Bytes → AuthError
  bad_credentials : AuthError
  provider_misconfigured : Bytes → AuthError

unfoldable pub server_name_of : ProviderConfig → Bytes
server_name_of p = if is_empty p.server_name then p.host else p.server_name

abbrev pub endpoint_of : Bytes → Bytes
endpoint_of host = codes "http://" ++ host ++ codes "/api/server.php"

-- `resp.StatusCode < 200 || resp.StatusCode >= 300`, denied.
abbrev pub is_success : ℕ → Bool
is_success code = leb 200 code && ltb code 300

unfoldable pub logon_request : ProviderConfig → AuthRequest → HttpRequest
logon_request p req = record {
  endpoint = endpoint_of p.host;
  form =
      (codes "action", codes "logon")
      ∷ (codes "key", p.key)
      ∷ (codes "login", req.login)
      ∷ (codes "password", req.password)
      ∷ [];
  headers =
      (codes "Content-Type", codes "application/x-www-form-urlencoded")
      ∷ (codes "X-Client-IP", req.client_ip)
      ∷ [];
}

-- The account's page on the LCN server goes before the profile of the answer.
unfoldable pub account_of : Providers → AuthRequest → LogonPayload → Account
account_of providers req payload =
    let lcn_host = (provider providers (codes "LCN")).host in
    record {
      type = req.login_type;
      login = req.login;
      id = payload.id;
      profile =
          if bytes_eq req.login_type (codes "LCN") && not (is_empty lcn_host)
          then codes "http://"
            ++ lcn_host
            ++ codes "/lang_redir.php?path=player.php?plid="
            ++ payload.id
          else payload.profile;
    }

-- What the answer says.
unfoldable pub read_response : Bytes → Option HttpResponse → Result AuthError LogonPayload
read_response server_name none = err (provider_unreachable server_name)
read_response server_name (some resp) =
    if is_success resp.status_code
    then elim resp.payload [
      | none ↦ err (provider_unreachable server_name)
      | some payload ↦ if payload.success then ok payload else err bad_credentials
    ]
    else err (provider_unreachable server_name)

-- `Authenticate`.
unfoldable pub authenticate : HttpClient → Providers → AuthRequest → Result AuthError Account
authenticate http providers req =
    let p = provider providers req.login_type in
    let server_name = server_name_of p in
    let response = read_response server_name (http (logon_request p req)) in
    if is_empty p.host || is_empty p.key
    then err (provider_misconfigured server_name)
    else elim response [ err e ↦ err e | ok payload ↦ ok (account_of providers req payload) ]

-- The request of `PostAccountAction` at a second of the clock; `none` where there is none. The data
-- is the JSON of the payload, `none` for a nil payload.
unfoldable pub action_request :
    Providers
    → ℕ
    → (account_type account_id client_ip action : Bytes) → Option Bytes
    → Option HttpRequest
action_request providers now account_type account_id client_ip action payload =
    let p = provider providers (to_lower account_type) in
    let data_field : List (Bytes × Bytes) = elim payload [
      | none ↦ []
      | some raw ↦ (codes "data", raw) ∷ []
    ] in
    if is_empty account_type || is_empty account_id || is_empty p.host || is_empty p.key
    then none
    else some (record {
      endpoint = endpoint_of p.host;
      form =
          (codes "action", action)
          ∷ (codes "time", print_uint now)
          ∷ (codes "key", p.key)
          ∷ (codes "account_id", account_id)
          ∷ data_field;
      headers =
          (codes "Content-Type", codes "application/x-www-form-urlencoded")
          ∷ (codes "User-Agent", codes "my-server.example bot")
          ∷ (codes "X-Client-IP", client_ip)
          ∷ [];
    })
