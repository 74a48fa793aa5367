-- ===== src/Auth/Mobile.antt =====
-- The mobile client's tokens and interceptors (mobile/src/api/client.ts). The server is a parameter,
-- as for the web client; a refresh brings both tokens.
pub mod Bounded
use dtsys.Prelude.{
  ℕ, zero, suc, ◌+◌, String, Bool, true, false, not, ◌&&◌, List, Option, none, some, ◌==◌,
  if◌then◌else◌,
}
use dtsys.Prelude.Storage.{Storage, get_item, set_item, remove_item, is_truthy}
use dtsys.Auth.Web.{Reply, success, failure, unreachable, Header, authorize}

pub record Tokens : Type 0 where
  pub access : String
  pub refresh : String

pub record Server : Type 0 where
  pub answer : ℕ → Header → Reply
  pub refresh : ℕ → String → Option Tokens

pub record Phone : Type 0 where
  pub storage : Storage
  pub sent : ℕ
  pub refreshes : ℕ

unfoldable pub save_tokens : Tokens → Storage → Storage
save_tokens t storage =
    set_item "refresh_token" t.refresh (set_item "access_token" t.access storage)

unfoldable pub clear_tokens : Storage → Storage
clear_tokens storage = remove_item "refresh_token" (remove_item "access_token" storage)

pub record Outcome : Type 0 where
  pub phone : Phone
  pub reply : Reply

pub data Next : Type 0 where
  reject : Phone → Next
  again : Phone → Header → Next

-- The body of the `try`: no token throws, and so does a refresh that fails.
unfoldable pub renew : Server → Phone → Option String → Next
renew server p none = reject (record p { storage = clear_tokens p.storage })
renew server p (some token) =
    if is_truthy (some token)
    then (let p' = record p { refreshes = p.refreshes + 1 } in
        elim (server.refresh p.refreshes token) [
          | none ↦ reject (record p' { storage = clear_tokens p.storage })
          | some t ↦ again (record p' { storage = save_tokens t p.storage }) (some t.access)
        ])
    else reject (record p { storage = clear_tokens p.storage })

-- The error interceptor; `retried` is `original._retry`.
unfoldable pub on_error : Server → Bool → Phone → Reply → Next
on_error server retried p success = reject p
on_error server retried p unreachable = reject p
on_error server retried p (failure status) =
    if status == 401 && not retried
    then renew server p (get_item "refresh_token" p.storage)
    else reject p

unfoldable pub send : Server → Header → Phone → Outcome
send server header p = record {
  phone = record p { sent = p.sent + 1 };
  reply = server.answer p.sent (authorize p.storage header);
}

-- `api(original)`, at most so many times; a request sent again carries `_retry`.
unfoldable pub request : ℕ → Server → Bool → Header → Phone → Option Outcome
request zero server retried header p = none
request (suc fuel) server retried header p =
    let out = send server header p in
    elim out.reply [
      | success ↦ some out
      | unreachable ↦ some out
      | failure status ↦ elim (on_error server retried out.phone (failure status)) [
        | reject p' ↦ some (record { phone = p'; reply = failure status })
        | again p' header' ↦ request fuel server true header' p'
      ]
    ]
