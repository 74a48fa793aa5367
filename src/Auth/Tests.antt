-- ===== src/Auth/Tests.antt =====
-- The theorems on the sessions at concrete tokens and servers.
use dtsys.Prelude.{ℕ, ◌≡◌, refl, false, [], ◌∷◌, none, some, arith, str_eq_iff, ltb, if◌then◌else◌}
use dtsys.Prelude.Storage.{get_item}
use dtsys.Auth.{Session, load, Login, log_in, apply}
use dtsys.Auth.Persistence.{IsSaved, apply-IsSaved}
use dtsys.Auth.Web
use dtsys.Auth.Web.{Reply, success, failure, Browser, Header, request, authorize}
use dtsys.Auth.Web.Endless.{HasRefreshToken, request_endless}
use dtsys.Auth.Web.Retry.{request_settles}
use dtsys.Auth.Mobile

abbrev signed_out : Session
signed_out = record { state = load []; storage = ("dtsys-theme", "dark") ∷ [] }

abbrev ann : Login
ann = record {
  access_token = "a1";
  refresh_token = "r1";
  username = "ann";
  role = "admin";
  org_id = none;
  org_name = none;
}

signed_out-IsSaved : IsSaved signed_out
unfolding load get_item
signed_out-IsSaved = refl

apply-IsSaved_example : IsSaved (apply (log_in ann) signed_out)
unfolding get_item
apply-IsSaved_example =
    apply-IsSaved (log_in ann) signed_out (ground (arith, str_eq_iff "a1" ""), refl, refl)
      signed_out-IsSaved

-- Refuses the requests before the k-th, and renews every token.
abbrev refusing : ℕ → Web.Server
refusing k = record {
  answer = λ n h. if ltb n k then failure 401 else success;
  refresh = λ n t. some "a2";
}

abbrev always : Web.Server
always = record { answer = λ n h. failure 401; refresh = λ n t. some "a2" }

abbrev browser : Browser
browser = record {
  storage = ("refresh_token", "r1") ∷ [];
  sent = 0;
  refreshes = 0;
  at_login = false;
}

browser-HasRefreshToken : HasRefreshToken browser
unfolding get_item
browser-HasRefreshToken = ("r1", refl, ground (arith, str_eq_iff "r1" ""))

request_endless_example : request 100 always none browser ≡ none
request_endless_example =
    request_endless always (λ n h. refl) (λ n t e. cc) 100 none browser browser-HasRefreshToken

request_settles_example : (o : Web.Outcome) × (request 3 (refusing 2) none browser ≡ some o)
request_settles_example =
    request_settles (refusing 2) 2 (λ n h l. ground arith) 3 none browser (omega arith)
      (omega arith)

abbrev mobile_server : Mobile.Server
mobile_server = record {
  answer = λ n h. failure 401;
  refresh = λ n t. some (record { access = "a2"; refresh = "r2" });
}

abbrev phone : Mobile.Phone
phone = record { storage = ("refresh_token", "r1") ∷ []; sent = 0; refreshes = 0 }
