-- ===== src/Identity/Logon.antt =====
-- internal/app/identity/service.go: when the account server admits a login.
use cossacks_game_server.Base.{
  true, false, ◌||◌, Option, none, some, Bytes, is_empty, ◌≡◌, sym, ◌∙◌, refl, arith, inl, inr,
  Bool-cases,
}
use cossacks_game_server.Base.Result.{ok, result_cases, ok-injective}
use cossacks_game_server.Config.{Providers, provider}
use cossacks_game_server.Identity.Service.{
  Account, AuthRequest, HttpClient, HttpResponse, LogonPayload, is_success, logon_request,
  read_response, server_name_of, account_of, authenticate,
}

-- The server took the login: it answered with a status of the 200s and a body that says so.
pub record Taken (http : HttpClient) (providers : Providers) (req : AuthRequest) (acc : Account)
    : Type 0 where
  pub response : HttpResponse
  pub payload : LogonPayload
  pub has_host : is_empty (provider providers req.login_type).host ≡ false
  pub has_key : is_empty (provider providers req.login_type).key ≡ false
  pub answered : http (logon_request (provider providers req.login_type) req) ≡ some response
  pub status : is_success response.status_code ≡ true
  pub body : response.payload ≡ some payload
  pub accepted : payload.success ≡ true
  pub account : acc ≡ account_of providers req payload

read_response-ok :
    (server_name : Bytes) (answer : Option HttpResponse) (payload : LogonPayload)
    → read_response server_name answer ≡ ok payload
    → (response : HttpResponse) × (answer ≡ some response)
      × (is_success response.status_code ≡ true)
      × (response.payload ≡ some payload)
      × (payload.success ≡ true)
unfolding read_response
read_response-ok server_name none payload h = ground arith
read_response-ok server_name (some response) payload h =
    let (status, body, accepted) : (is_success response.status_code ≡ true)
        × (response.payload ≡ some payload)
        × (payload.success ≡ true) =
      (ground arith, ground arith, ground arith) in
    (response, refl, status, body, accepted)

-- A logon succeeds only where the provider has a host and a key, the request was answered with a
-- status of the 200s and a body that reports success, and the account is the one of that body.
pub authenticate-Taken :
    (http : HttpClient) (providers : Providers) (req : AuthRequest) (acc : Account)
    → authenticate http providers req ≡ ok acc
    → Taken http providers req acc
unfolding authenticate
authenticate-Taken http providers req acc h =
    let p = provider providers req.login_type in
    let response = read_response (server_name_of p) (http (logon_request p req)) in
    elim (result_cases response) [
      | inl (e, refused) ↦ absurd (ground arith)
      | inr (payload, taken) ↦
          let (r, answered, status, body, accepted) =
            read_response-ok (server_name_of p) (http (logon_request p req)) payload taken in
          elim (Bool-cases (is_empty p.host || is_empty p.key)) [
            | inl missing ↦ absurd (ground arith)
            | inr there ↦ record {
              response = r;
              payload = payload;
              has_host = ground arith;
              has_key = ground arith;
              answered = answered;
              status = status;
              body = body;
              accepted = accepted;
              account = ok-injective (sym h ∙ rw (there, taken, authenticate) refl);
            }
          ]
    ]
