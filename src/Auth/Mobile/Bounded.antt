-- ===== src/Auth/Mobile/Bounded.antt =====
-- How often the mobile client sends a request.
use dtsys.Prelude.{
  ℕ, ◌+◌, ◌≤◌, ◌≡◌, refl, ◌⊎◌, inl, inr, String, true, false, Option, none, some, arith,
  Option-cases, Bool-cases,
}
use dtsys.Prelude.Storage.{Storage, get_item, is_truthy, storage_laws}
use dtsys.Auth.Web.{Reply, success, failure, unreachable, Header}
use dtsys.Auth.Mobile.{
  Tokens, Server, Phone, save_tokens, clear_tokens, Outcome, Next, reject, again, renew, on_error,
  send, request,
}

-- The second sending is the last.
request_retried :
    (server : Server) (header : Header) (p : Phone)
    → (o : Outcome) × (request 1 server true header p ≡ some o)
      × (o.phone.sent ≡ p.sent + 1)
      × (o.phone.refreshes ≡ p.refreshes)
unfolding request send on_error
request_retried server header p = (send server header p, ground arith, refl, refl)

-- What a step of the error interceptor has cost.
on_error_cost :
    (server : Server) (p : Phone) (r : Reply) {p' : Phone} {h' : Header}
    → on_error server false p r ≡ again p' h'
    → (p'.sent ≡ p.sent) × (p'.refreshes ≡ p.refreshes + 1)
unfolding on_error renew
on_error_cost server p success e = cc
on_error_cost server p unreachable e = cc
on_error_cost server p (failure status) e = ground arith

reject_cost :
    (server : Server) (p : Phone) (r : Reply) {p' : Phone}
    → on_error server false p r ≡ reject p'
    → (p'.sent ≡ p.sent) × (p'.refreshes ≤ p.refreshes + 1)
unfolding on_error renew
reject_cost server p success e = ground arith
reject_cost server p unreachable e = ground arith
reject_cost server p (failure status) e = ground arith

-- At most two sendings and one refresh.
abbrev pub IsBounded : Phone → Outcome → Type 0
IsBounded p o = (o.phone.sent ≤ p.sent + 2) × (o.phone.refreshes ≤ p.refreshes + 1)

module _ (server : Server) (header : Header) (p : Phone) where
  settles_next :
      (status : ℕ) (n : Next)
      → (send server header p).reply ≡ failure status
      → on_error server false (send server header p).phone (failure status) ≡ n
      → (o : Outcome) × (request 2 server false header p ≡ some o) × IsBounded p o
  unfolding request
  settles_next status (reject p') r e =
      let cost = reject_cost server (send server header p).phone (failure status) e in
      (
        record { phone = p'; reply = failure status },
        rw (r, request) (rw (e, request) refl),
        unfold send in (omega arith, omega arith),
      )
  settles_next status (again p' h') r e =
      let cost = on_error_cost server (send server header p).phone (failure status) e in
      let (o, settled, sent, refreshes) = request_retried server h' p' in
      (o, rw (r, request) (rw (e, request) settled), unfold send in (omega arith, omega arith))

  settles_reply :
      (r : Reply)
      → (send server header p).reply ≡ r
      → (o : Outcome) × (request 2 server false header p ≡ some o) × IsBounded p o
  unfolding request
  settles_reply success r =
      (send server header p, ground arith, unfold send in (omega arith, omega arith))
  settles_reply unreachable r =
      (send server header p, ground arith, unfold send in (omega arith, omega arith))
  settles_reply (failure status) r = settles_next status _ r refl

  -- Whatever the server answers, a request of the mobile client settles after being sent at most
  -- twice and refreshing the tokens at most once.
  pub request-IsBounded : (o : Outcome) × (request 2 server false header p ≡ some o) × IsBounded p o
  request-IsBounded = settles_reply (send server header p).reply refl

abbrev pub storage_of : Next → Storage
storage_of (reject p) = p.storage
storage_of (again p h) = p.storage

-- Neither token is kept.
abbrev pub HasNoTokens : Storage → Type 0
HasNoTokens storage =
    (get_item "access_token" storage ≡ none) × (get_item "refresh_token" storage ≡ none)

-- Both tokens are those of one refresh.
abbrev pub HasTokensOf : Server → Storage → Type 0
HasTokensOf server storage =
    (t : Tokens) × (n : ℕ) × (old : String) × (server.refresh n old ≡ some t)
    × (get_item "access_token" storage ≡ some t.access)
    × (get_item "refresh_token" storage ≡ some t.refresh)

clear_tokens-HasNoTokens : (storage : Storage) → HasNoTokens (clear_tokens storage)
unfolding clear_tokens
clear_tokens-HasNoTokens storage = (simp storage_laws, simp storage_laws)

save_tokens-HasTokensOf :
    (server : Server) (t : Tokens) (n : ℕ) (old : String) (storage : Storage)
    → server.refresh n old ≡ some t
    → HasTokensOf server (save_tokens t storage)
unfolding save_tokens
save_tokens-HasTokensOf server t n old storage e =
    (t, n, old, e, simp storage_laws, simp storage_laws)

renew_paired :
    (server : Server) (p : Phone) (o : Option String)
    → let storage = storage_of (renew server p o) in
      HasNoTokens storage ⊎ HasTokensOf server storage
unfolding renew
renew_paired server p none = inl (clear_tokens-HasNoTokens p.storage)
renew_paired server p (some token) = elim (Bool-cases (is_truthy (some token))) [
  | inr empty ↦ rw empty (inl (clear_tokens-HasNoTokens p.storage))
  | inl filled ↦ elim (Option-cases (server.refresh p.refreshes token)) [
    | inl failed ↦ rw filled (rw failed (inl (clear_tokens-HasNoTokens p.storage)))
    | inr (t, e) ↦
        rw filled (rw e (inr (save_tokens-HasTokensOf server t p.refreshes token p.storage e)))
  ]
]

-- A request refused with 401 for the first time leaves the phone with both tokens of one refresh, or
-- with neither token.
pub refused_paired :
    (server : Server) (p : Phone)
    → let storage = storage_of (on_error server false p (failure 401)) in
      HasNoTokens storage ⊎ HasTokensOf server storage
unfolding on_error
refused_paired server p = renew_paired server p (get_item "refresh_token" p.storage)
