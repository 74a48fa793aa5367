-- ===== src/Auth/SignIn/Outcomes.antt =====
-- How a login ends.
use dtsys.Prelude.{ℕ, suc, ◌+◌, ◌≡◌, refl, ap, String, Bool, true, false, Option, none, some, arith}
use dtsys.Prelude.Storage.{get_item, is_truthy, storage_laws}
use dtsys.Auth.{login}
use dtsys.Auth.Web.{
  Reply, success, failure, unreachable, Server, Browser, Header, authorize, refresh_with, on_error,
  send, request,
}
use dtsys.Auth.SignIn.{
  Grant, Claims, SignIn, enter_with, await_outcome, login_of, enter, settle_sign_in, handle_submit,
}

-- Without a refresh token, a request is sent once.
request_once :
    (fuel : ℕ) (server : Server) (header : Header) (b : Browser)
    → is_truthy (get_item "refresh_token" b.storage) ≡ false
    → request (suc fuel) server header b ≡ some (send server header b)
unfolding request on_error refresh_with send
request_once fuel server header b h = ground (arith, h)

-- Signed in with the server's tokens and at the home page.
abbrev pub IsEntered : Grant → SignIn → Type 0
IsEntered grant t =
    (t.at_home ≡ true)
    × (t.state.is_authenticated ≡ true)
    × (get_item "access_token" t.browser.storage ≡ some grant.access_token)
    × (get_item "refresh_token" t.browser.storage ≡ some grant.refresh_token)

-- The error is shown, and the session is what it was.
abbrev pub IsRefused : SignIn → SignIn → Type 0
IsRefused s t =
    (t.error ≡ "Invalid username or password")
    × (t.at_home ≡ s.at_home)
    × (t.state ≡ s.state)
    × (t.browser.storage ≡ s.browser.storage)

-- The server grants the login, and its access token can be decoded.
abbrev pub is_granted : Reply → Option Claims → Bool
is_granted success (some claims) = true
is_granted success none = false
is_granted (failure status) claims = false
is_granted unreachable claims = false

abbrev pub EndsAs : Bool → Grant → SignIn → SignIn → Type 0
EndsAs true grant s t = (t.is_loading ≡ false) × IsEntered grant t
EndsAs false grant s t = (t.is_loading ≡ false) × IsRefused s t

enter-IsEntered :
    (grant : Grant) (username : String) (claims : Claims) (s : SignIn)
    → IsEntered grant (enter (login_of grant username claims) s)
unfolding login
enter-IsEntered grant username claims s = (refl, refl, simp storage_laws, simp storage_laws)

-- The reply to the one request of a login.
abbrev pub login_reply : Server → SignIn → Reply
login_reply server s = server.answer s.browser.sent (authorize s.browser.storage none)

-- The page when the answer to its request comes.
abbrev asked : SignIn → SignIn
asked s = record s {
  error = "";
  is_loading = true;
  browser = record s.browser { sent = s.browser.sent + 1 };
}

settle-EndsAs :
    (grant : Grant) (decode : String → Option Claims) (username : String) (r : Reply) (s : SignIn)
    → EndsAs
        (is_granted r (decode grant.access_token))
        grant
        s
        (settle_sign_in grant decode username r (asked s))
settle-EndsAs grant decode username success s = go (decode grant.access_token)
  where
    go :
        (c : Option Claims)
        → EndsAs (is_granted success c) grant s (enter_with grant username c (asked s))
    go none = (refl, (refl, refl, refl, refl))
    go (some claims) = (refl, enter-IsEntered grant username claims (asked s))
settle-EndsAs grant decode username (failure status) s = (refl, (refl, refl, refl, refl))
settle-EndsAs grant decode username unreachable s = (refl, (refl, refl, refl, refl))

-- In a browser without a refresh token, a login ends after one request, with the button enabled again: if the
-- server grants it and its access token can be decoded, the user is signed in with the server's tokens and at the
-- home page, and otherwise the error is shown and the session is what it was.
pub handle_submit_lem :
    (fuel : ℕ) (server : Server) (grant : Grant) (decode : String → Option Claims)
    (username : String) (s : SignIn)
    → is_truthy (get_item "refresh_token" s.browser.storage) ≡ false
    → (t : SignIn) × (handle_submit (suc fuel) server grant decode username s ≡ some t)
      × EndsAs (is_granted (login_reply server s) (decode grant.access_token)) grant s t
unfolding handle_submit send
handle_submit_lem fuel server grant decode username s h = (
  settle_sign_in grant decode username (login_reply server s) (asked s),
  ap (λ o. await_outcome grant decode username o (record s { error = ""; is_loading = true }))
      (request_once fuel server none s.browser h),
  settle-EndsAs grant decode username (login_reply server s) s,
)
