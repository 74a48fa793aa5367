-- ===== src/Auth/SignIn/Tests.antt =====
-- Two logins.
use dtsys.Prelude.{◌≡◌, refl, String, true, false, [], Option, none, some}
use dtsys.Prelude.Storage.{get_item}
use dtsys.Auth.{load}
use dtsys.Auth.Web.{success, failure, Server}
use dtsys.Auth.SignIn.{Grant, Claims, SignIn, handle_submit}
use dtsys.Auth.SignIn.Outcomes.{EndsAs, is_granted, login_reply, handle_submit_lem}

abbrev granting : Server
granting = record { answer = λ n h. success; refresh = λ n t. none }

abbrev refusing : Server
refusing = record { answer = λ n h. failure 401; refresh = λ n t. none }

abbrev tokens : Grant
tokens = record { access_token = "a1"; refresh_token = "r1" }

abbrev claims : String → Option Claims
claims token = some record { username = none; role = some "admin" }

abbrev first_visit : SignIn
first_visit = record {
  error = "";
  is_loading = false;
  at_home = false;
  state = load [];
  browser = record { storage = []; sent = 0; refreshes = 0; at_login = true };
}

handle_submit_lem_example :
    (t : SignIn) × (handle_submit 1 granting tokens claims "ann" first_visit ≡ some t)
    × EndsAs (is_granted (login_reply granting first_visit) (claims "a1")) tokens first_visit t
unfolding get_item
handle_submit_lem_example = handle_submit_lem 0 granting tokens claims "ann" first_visit refl

is_refused : is_granted (login_reply refusing first_visit) (claims "a1") ≡ false
is_refused = refl
