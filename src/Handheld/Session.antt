-- ===== src/Handheld/Session.antt =====
-- What signing in and out leave in the phone's store.
use dtsys.Prelude.{◌≡◌, refl, ap, String, true, false, Option, none, some}
use dtsys.Prelude.Storage.{get_item, is_truthy, storage_laws, get_item-set_item}
use dtsys.Auth.Mobile.{Tokens, save_tokens, clear_tokens}
use dtsys.Handheld.{
  AuthState, LoginAnswer, granted, refused, get_server_url, url_or_local, save_server_url, login,
  logout, check_auth, App, handle_login, handle_logout,
}

module _ (strip : String → String) (server : String → String → String → LoginAnswer)
    (url username password : String) where
  -- A login that the server refuses leaves the tokens and the user's name as they were and reports the
  -- failure, but the application has moved to the address that was typed.
  pub login_refused :
      (detail : Option String) (s : AuthState)
      → server (strip url) username password ≡ refused detail
      → ((login strip server url username password s).ok ≡ false)
        × (check_auth (login strip server url username password s).session ≡ check_auth s)
        × (get_item "refresh_token" (login strip server url username password s).session.storage
            ≡ get_item "refresh_token" s.storage)
        × (get_item "username" (login strip server url username password s).session.storage
            ≡ get_item "username" s.storage)
        × (get_server_url (login strip server url username password s).session.storage
            ≡ strip (strip url))
  unfolding login save_server_url check_auth
  login_refused detail s h = rw h (
    refl,
    ap is_truthy (get_item-set_item "access_token" "server_url" (strip (strip url)) s.storage),
    get_item-set_item "refresh_token" "server_url" (strip (strip url)) s.storage,
    get_item-set_item "username" "server_url" (strip (strip url)) s.storage,
    ap url_or_local (get_item-set_item "server_url" "server_url" (strip (strip url)) s.storage),
  )

  -- After a login that the server grants, the application shows its screens and finds the token when it
  -- is started again; after signing out it finds neither token nor name, and keeps the address.
  pub logout-login :
      (tokens : Tokens) (a : App)
      → is_truthy (some tokens.access) ≡ true
      → server (strip url) username password ≡ granted tokens
      → ((handle_login strip server url username password a).is_authenticated ≡ some true)
        × (check_auth (handle_login strip server url username password a).auth ≡ true)
        × (check_auth (handle_logout (handle_login strip server url username password a)).auth
            ≡ false)
        × (get_item "username"
              (handle_logout (handle_login strip server url username password a)).auth.storage
            ≡ none)
        × (get_server_url
              (handle_logout (handle_login strip server url username password a)).auth.storage
            ≡ strip (strip url))
  unfolding login logout handle_login handle_logout save_server_url check_auth save_tokens
      clear_tokens
  logout-login tokens a h g = rw g (
    refl,
    simp storage_laws (h),
    simp storage_laws (refl),
    simp storage_laws (refl),
    simp storage_laws (refl),
  )
