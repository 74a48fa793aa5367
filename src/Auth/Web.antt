-- ===== src/Auth/Web.antt =====
-- The request and response interceptors of the web client (frontend/src/api/client.ts). The server is
-- a parameter: what it answers to the n-th request, given the Authorization header, and to the n-th
-- refresh, given the refresh token.
pub mod Retry
pub mod Endless
use dtsys.Prelude.{
  ℕ, zero, suc, ◌+◌, ◌≡◌, String, Bool, true, false, List, [], ◌∷◌, Option, none, some, ◌==◌,
  if◌then◌else◌,
}
use dtsys.Prelude.Storage.{Storage, get_item, set_item, is_truthy}

-- An answer with its status (an error from 400 on), or no answer.
pub data Reply : Type 0 where
  success : Reply
  failure : ℕ → Reply
  unreachable : Reply

pub record Server : Type 0 where
  pub answer : ℕ → Option String → Reply
  -- The new access token, `none` where the refresh fails.
  pub refresh : ℕ → String → Option String

pub record Browser : Type 0 where
  pub storage : Storage
  pub sent : ℕ
  pub refreshes : ℕ
  pub at_login : Bool  -- window.location.href = '/login'

-- `config.headers.Authorization`: the token of the header.
abbrev pub Header : Type 0
Header = Option String

-- The request interceptor.
unfoldable pub authorize : Storage → Header → Header
authorize storage header =
    if is_truthy (get_item "access_token" storage) then get_item "access_token" storage else header

pub record Outcome : Type 0 where
  pub browser : Browser
  pub reply : Reply

-- What the error interceptor decides: to hand the error on, or to send the request again.
pub data Next : Type 0 where
  reject : Browser → Next
  again : Browser → Header → Next

unfoldable pub refresh_with : Server → Header → Browser → Option String → Next
refresh_with server header b none = reject b
refresh_with server header b (some token) =
    if is_truthy (some token)
    then (let b' = record b { refreshes = b.refreshes + 1 } in
        elim (server.refresh b.refreshes token) [
          | none ↦ reject (record b' { storage = []; at_login = true })
          | some access ↦
              again (record b' { storage = set_item "access_token" access b.storage }) (some access)
        ])
    else reject b

unfoldable pub on_error : Server → Header → Browser → Reply → Next
on_error server header b success = reject b
on_error server header b unreachable = reject b
on_error server header b (failure status) =
    if status == 401
    then refresh_with server header b (get_item "refresh_token" b.storage)
    else reject b

unfoldable pub send : Server → Header → Browser → Outcome
send server header b = record {
  browser = record b { sent = b.sent + 1 };
  reply = server.answer b.sent (authorize b.storage header);
}

-- `api.request(config)`, at most so many times; `none` where it has not settled by then.
unfoldable pub request : ℕ → Server → Header → Browser → Option Outcome
request zero server header b = none
request (suc fuel) server header b =
    let out = send server header b in
    elim out.reply [
      | success ↦ some out
      | unreachable ↦ some out
      | failure status ↦
          elim (on_error server (authorize b.storage header) out.browser (failure status)) [
            | reject b' ↦ some (record { browser = b'; reply = failure status })
            | again b' header' ↦ request fuel server header' b'
          ]
    ]
