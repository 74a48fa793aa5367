-- ===== src/Auth/SignIn.antt =====
-- The login page of the console (frontend/src/pages/Login.tsx), over the interceptors of the web client. The body
-- of the server's answer is `grant`, and jwtDecode, which throws on a text that is no token, is `decode`.
pub mod Outcomes
mod Tests
use dtsys.Prelude.{get_or, ℕ, String, Bool, true, false, Option, none, some}
use dtsys.Auth.{AuthState, Session, Login, login}
use dtsys.Auth.Web.{Reply, success, failure, unreachable, Server, Browser, Outcome, request}

pub record Grant : Type 0 where
  pub access_token : String
  pub refresh_token : String

pub record Claims : Type 0 where
  pub username : Option String
  pub role : Option String

pub record SignIn : Type 0 where
  pub error : String
  pub is_loading : Bool
  pub at_home : Bool  -- navigate('/')
  pub state : AuthState
  pub browser : Browser

-- What the store's `login` is called with.
abbrev pub login_of : Grant → String → Claims → Login
login_of grant username claims = record {
  access_token = grant.access_token;
  refresh_token = grant.refresh_token;
  username = get_or claims.username username;
  role = get_or claims.role "viewer";
  org_id = none;
  org_name = none;
}

abbrev pub session_of : SignIn → Session
session_of s = record { state = s.state; storage = s.browser.storage }

-- `catch`, and `finally`.
abbrev pub refuse : SignIn → SignIn
refuse s = record s { error = "Invalid username or password"; is_loading = false }

abbrev pub enter : Login → SignIn → SignIn
enter l s =
    let session = login l (session_of s) in
    record s {
      is_loading = false;
      at_home = true;
      state = session.state;
      browser = record s.browser { storage = session.storage };
    }

abbrev pub enter_with : Grant → String → Option Claims → SignIn → SignIn
enter_with grant username none s = refuse s
enter_with grant username (some claims) s = enter (login_of grant username claims) s

abbrev pub settle_sign_in : Grant → (String → Option Claims) → String → Reply → SignIn → SignIn
settle_sign_in grant decode username success s =
    enter_with grant username (decode grant.access_token) s
settle_sign_in grant decode username (failure status) s = refuse s
settle_sign_in grant decode username unreachable s = refuse s

abbrev pub await_outcome :
    Grant → (String → Option Claims) → String → Option Outcome → SignIn → Option SignIn
await_outcome grant decode username none s = none
await_outcome grant decode username (some out) s =
    some (settle_sign_in grant decode username out.reply (record s { browser = out.browser }))

-- handleSubmit; `none` where the request has not settled after so many tries.
unfoldable pub handle_submit :
    ℕ → Server → Grant → (String → Option Claims) → String → SignIn → Option SignIn
handle_submit fuel server grant decode username s =
    await_outcome grant decode username (request fuel server none s.browser)
      (record s { error = ""; is_loading = true })
