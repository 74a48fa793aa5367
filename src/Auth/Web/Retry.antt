-- ===== src/Auth/Web/Retry.antt =====
-- What a 401 leads to, and when a request settles.
use dtsys.Prelude.{
  ==_iff, dec_lt, ap, ℕ, zero, suc, ◌+◌, ◌≤◌, ◌<◌, ◌≡◌, ◌≢◌, refl, String, true, [], none, some,
  arith, str_eq_iff,
}
use dtsys.Prelude.Storage.{get_item, set_item}
use dtsys.Auth.Web.{
  Server, Browser, Header, Outcome, Next, Reply, success, unreachable, failure, reject, again,
  authorize, refresh_with, on_error, send, request,
}

-- Each refresh is followed by one more request, and no more are sent.
sent-on_error :
    (server : Server) (header : Header) (b : Browser) (r : Reply) {b' : Browser} {h' : Header}
    → on_error server header b r ≡ again b' h'
    → (b'.sent ≡ b.sent) × (r ≡ failure 401)
unfolding on_error refresh_with
sent-on_error server header b (failure status) e = ground (arith, ==_iff status 401)
sent-on_error server header b success e = cc
sent-on_error server header b unreachable e = cc

-- The requests that the interceptor has sent so far make one more with each round.
abbrev Settles : ℕ → Server → Header → Browser → Type 0
Settles fuel server header b = (o : Outcome) × (request fuel server header b ≡ some o)

module _ (server : Server) (fuel : ℕ) (header : Header) (b : Browser) where
  Settles-next :
      (status : ℕ) (n : Next)
      → (send server header b).reply ≡ failure status
      → on_error server (authorize b.storage header) (send server header b).browser (failure status)
        ≡ n
      → ((b' : Browser) (h' : Header)
          → b'.sent ≡ b.sent + 1
          → status ≡ 401
          → Settles fuel server h' b')
      → Settles (suc fuel) server header b
  unfolding request
  Settles-next status (reject b') r e rest =
      (record { browser = b'; reply = failure status }, rw (r, request) (rw (e, request) refl))
  Settles-next status (again b' h') r e rest =
      let (same, refused) =
        sent-on_error server (authorize b.storage header) (send server header b).browser
          (failure status) e in
      let (o, settled) = rest b' h' (unfold send in same) (ground arith) in
      (o, rw (r, request) (rw (e, request) settled))

  Settles-reply :
      (r : Reply)
      → (send server header b).reply ≡ r
      → ((b' : Browser) (h' : Header)
          → b'.sent ≡ b.sent + 1
          → r ≡ failure 401
          → Settles fuel server h' b')
      → Settles (suc fuel) server header b
  unfolding request
  Settles-reply success r rest = (send server header b, ground arith)
  Settles-reply unreachable r rest = (send server header b, ground arith)
  Settles-reply (failure status) r rest =
      Settles-next status _ r refl (λ b' h' s e. rest b' h' s (ap failure e))

-- If the server refuses with 401 only the requests before the bound-th, a request settles after
-- being sent at most that often and once more.
pub request_settles :
    (server : Server) (bound : ℕ)
    → ((n : ℕ) (h : Header) → bound ≤ n → server.answer n h ≢ failure 401)
    → (fuel : ℕ) (header : Header) (b : Browser) → bound < fuel + b.sent
    → 0 < fuel
    → (o : Outcome) × (request fuel server header b ≡ some o)
unfolding request
request_settles server bound stops zero header b l p = absurd (omega arith)
request_settles server bound stops (suc fuel) header b l p =
    Settles-reply server fuel header b (send server header b).reply refl (λ b' h' same refused.
      request_settles server bound stops fuel h' b' (omega arith) (more refused))
  where
    more : (send server header b).reply ≡ failure 401 → 0 < fuel
    more refused = elim (dec_lt 0 fuel) [
      | yes some_left ↦ some_left
      | no none_left ↦
          absurd (stops b.sent (authorize b.storage header) (omega arith) (unfold send in refused))
    ]

-- What a refused request leads to, with a refresh token kept: a failed refresh empties
-- `localStorage`, goes to the login page and hands the 401 on; a successful one stores the new
-- access token and sends the request again with it.
pub request_of_refused :
    (server : Server) (fuel : ℕ) (header : Header) (b : Browser) (t : String)
    → server.answer b.sent (authorize b.storage header) ≡ failure 401
    → get_item "refresh_token" b.storage ≡ some t
    → t ≢ ""
    → request (suc fuel) server header b ≡ elim (server.refresh b.refreshes t) [
      | none ↦ some (record {
        browser = record {
          storage = [];
          sent = b.sent + 1;
          refreshes = b.refreshes + 1;
          at_login = true;
        };
        reply = failure 401;
      })
      | some access ↦ request fuel server (some access) (record {
        storage = set_item "access_token" access b.storage;
        sent = b.sent + 1;
        refreshes = b.refreshes + 1;
        at_login = b.at_login;
      })
    ]
unfolding request on_error refresh_with send
request_of_refused server fuel header b t refused kept filled = ground (arith, str_eq_iff t "")
