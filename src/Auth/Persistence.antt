-- ===== src/Auth/Persistence.antt =====
-- What a page reload makes of the session: the store is created again from `localStorage`.
use dtsys.Prelude.{
  ◌≡◌, ◌≢◌, refl, ap, String, true, false, ◌&&◌, List, [], ◌∷◌, Option, none, some, arith, All,
  str_eq, str_eq_iff, if◌then◌else◌,
}
use dtsys.Prelude.Storage.{Storage, get_item, is_truthy, get_item-set_item, storage_laws}
use dtsys.Auth.{
  AuthState, Session, load, set_if_truthy, Login, login, logout, OrgContext, set_org_context, Call,
  log_in, log_out, switch_org, apply,
}

-- The items that the store keeps.
abbrev pub session_keys : List String
session_keys = "access_token" ∷ "refresh_token" ∷ "username" ∷ "role" ∷ "org_id" ∷ "org_name" ∷ []

-- A reload would create the store as it is.
abbrev pub IsSaved : Session → Type 0
IsSaved s = load s.storage ≡ s.state

get_item-set_if_truthy :
    (j k : String) (o : Option String) (storage : Storage)
    → get_item j (set_if_truthy k o storage)
      ≡ (if str_eq k j && is_truthy o then o else get_item j storage)
get_item-set_if_truthy j k none storage = ground arith
get_item-set_if_truthy j k (some v) storage = ground (arith, get_item-set_item j k v storage)

-- The item is written, or it is not there and nothing is to be written.
abbrev pub OrgFits : String → Option String → Storage → Type 0
OrgFits k none storage = get_item k storage ≡ none
OrgFits k (some v) storage = v ≢ ""

-- What a call needs, for the store and the items to agree after it.
abbrev pub Fits : Call → Session → Type 0
Fits (log_in l) s =
    (l.access_token ≢ "")
    × OrgFits "org_id" l.org_id s.storage
    × OrgFits "org_name" l.org_name s.storage
Fits log_out s = Unit {0}
Fits (switch_org o) s = (o.access_token ≢ "") × (s.state.is_authenticated ≡ true)

logout-IsSaved : (s : Session) → IsSaved (logout s)
unfolding load logout
logout-IsSaved s = simp storage_laws

org_saved :
    (k : String) (o : Option String) (storage : Storage)
    → OrgFits k o storage
    → (if is_truthy o then o else get_item k storage) ≡ o
org_saved k none storage h = h
org_saved k (some v) storage h = ground (arith, str_eq_iff v "")

login-IsSaved : (l : Login) (s : Session) → Fits (log_in l) s → IsSaved (login l s)
unfolding load login
login-IsSaved l s (t, o, n) =
    simp (storage_laws, get_item-set_if_truthy)
      (ground (
        arith,
        org_saved "org_id" l.org_id s.storage o,
        org_saved "org_name" l.org_name s.storage n,
        str_eq_iff l.access_token "",
      ))

set_org_context-IsSaved :
    (c : OrgContext) (s : Session)
    → IsSaved s
    → Fits (switch_org c) s
    → IsSaved (set_org_context c s)
unfolding load set_org_context
set_org_context-IsSaved c s h (t, a) =
    let name = ap (λ (x : AuthState). x.username) h in
    let role = ap (λ (x : AuthState). x.role) h in
    simp storage_laws (ground (arith, str_eq_iff c.access_token "", name, role))

-- After a sign-in, a sign-out or a change of the organisation a page reload creates the store just
-- as it is, if the tokens are not empty, the organisation is changed while signed in, and a
-- sign-in names its organisation or finds none left in `localStorage`.
pub apply-IsSaved : (c : Call) (s : Session) → Fits c s → IsSaved s → IsSaved (apply c s)
unfolding apply
apply-IsSaved (log_in l) s f h = login-IsSaved l s f
apply-IsSaved log_out s f h = logout-IsSaved s
apply-IsSaved (switch_org c) s f h = set_org_context-IsSaved c s h f

-- After a sign-out nothing of the session is left: a page reload creates the signed-out store with no
-- tokens, no user and no organisation, and every other item of `localStorage` is as it was.
pub logout_clears :
    (s : Session) (k : String)
    → All (λ (j : String). j ≢ k) session_keys
    → (load (logout s).storage ≡ (logout s).state)
      × ((logout s).state.is_authenticated ≡ false)
      × (get_item k (logout s).storage ≡ get_item k s.storage)
unfolding logout
logout_clears s k h = (
  logout-IsSaved s,
  refl,
  simp storage_laws (
      ground (
        arith,
        str_eq_iff "access_token" k,
        str_eq_iff "refresh_token" k,
        str_eq_iff "username" k,
        str_eq_iff "role" k,
        str_eq_iff "org_id" k,
        str_eq_iff "org_name" k,
      )),
)
