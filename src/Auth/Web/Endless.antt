-- ===== src/Auth/Web/Endless.antt =====
-- A server that keeps answering 401 although it renews the token.
use dtsys.Prelude.{
  ℕ, zero, suc, ◌+◌, ◌≡◌, ◌≢◌, refl, String, none, some, arith, str_eq_iff, Option-cases, inl, inr,
}
use dtsys.Prelude.Storage.{get_item, set_item, get_item-set_item}
use dtsys.Auth.Web.{
  Server, Browser, Header, failure, again, authorize, refresh_with, on_error, send, request,
}

-- A refresh token is kept.
abbrev pub HasRefreshToken : Browser → Type 0
HasRefreshToken b = (t : String) × (get_item "refresh_token" b.storage ≡ some t) × (t ≢ "")

module _ (server : Server) (refuses : (n : ℕ) (h : Header) → server.answer n h ≡ failure 401)
    (renews : (n : ℕ) (t : String) → server.refresh n t ≢ none) where
  on_error_again :
      (header : Header) (b : Browser)
      → HasRefreshToken b
      → (b' : Browser) × (h' : Header) × (on_error server header b (failure 401) ≡ again b' h')
        × HasRefreshToken b'
  unfolding on_error refresh_with
  on_error_again header b (t, kept, filled) = elim (Option-cases (server.refresh b.refreshes t)) [
    | inl no_token ↦ absurd (renews b.refreshes t no_token)
    | inr (access, e) ↦ (
      record {
        storage = set_item "access_token" access b.storage;
        sent = b.sent;
        refreshes = b.refreshes + 1;
        at_login = b.at_login;
      },
      some access,
      rw kept (ground (arith, str_eq_iff t "")),
      (t, (rw (get_item-set_item "refresh_token" "access_token" access b.storage) kept), filled),
    )
  ]

  -- If the server refuses every request with 401 and still renews the token each time, and a refresh
  -- token is kept, a request never settles, however often it is sent: the interceptor refreshes and
  -- sends it again without end.
  pub request_endless :
      (fuel : ℕ) (header : Header) (b : Browser)
      → HasRefreshToken b
      → request fuel server header b ≡ none
  unfolding request send
  request_endless zero header b h = refl
  request_endless (suc fuel) header b h =
      let (b', h', e, kept) =
        on_error_again (authorize b.storage header) (send server header b).browser h in
      rw (refuses b.sent (authorize b.storage header), request)
        (rw (e, request) (request_endless fuel h' b' kept))
