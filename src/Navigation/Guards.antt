-- ===== src/Navigation/Guards.antt =====
-- Where the routes of the console lead with and without a session.
use dtsys.Prelude.{
  ℕ, suc, ◌≡◌, refl, sym, ◌∙◌, subst, String, true, false, List, [], ◌∷◌, Option, none, some,
  str_eq, if_elim,
}
use dtsys.Auth.{AuthState}
use dtsys.Navigation.{
  Screen, login, status, onboarding, loading, dashboard, device_detail, Element, screen, navigate,
  HomeQuery, home_route, is_admin, has_no_devices, protected_route, layout_page, page_element,
  one_segment, app_routes, visit,
}

-- The screens that need no session.
abbrev pub IsOpen : Option Screen → Type 0
IsOpen (some login) = Unit {0}
IsOpen (some status) = Unit {0}
IsOpen _ = ⊥

-- What a location shows without a session.
data Guarded : Element → Type 0 where
  to_login : Guarded (navigate ("login" ∷ []))
  to_home : Guarded (navigate [])
  shows_login : Guarded (screen login)
  shows_status : Guarded (screen status)

page_element-Guarded : (page : Option Screen) → Guarded (page_element false page)
unfolding page_element protected_route
page_element-Guarded none = to_home
page_element-Guarded (some page) = to_login

one_segment-Guarded : (path : String) → Guarded (one_segment false path)
unfolding one_segment protected_route
one_segment-Guarded path =
    if_elim Guarded (str_eq path "login") (λ t. shows_login)
      (λ f.
        if_elim Guarded (str_eq path "status") (λ t. shows_status)
          (λ f.
            if_elim Guarded (str_eq path "onboarding") (λ t. to_login)
              (λ f. page_element-Guarded (layout_page path))))

app_routes-Guarded :
    (auth : AuthState) (q : HomeQuery) (path : List String)
    → auth.is_authenticated ≡ false
    → Guarded (app_routes auth q path)
unfolding app_routes protected_route
app_routes-Guarded auth q [] h = rw h to_login
app_routes-Guarded auth q (path ∷ []) h =
    subst (λ b. Guarded (one_segment b path)) (sym h) (one_segment-Guarded path)
app_routes-Guarded auth q (path ∷ id ∷ []) h =
    if_elim Guarded (str_eq path "devices") (λ t. rw h to_login) (λ f. to_home)
app_routes-Guarded auth q (path ∷ id ∷ x ∷ rest) h = to_home

-- The screen that an element leads to.
land : ℕ → AuthState → HomeQuery → Element → Option Screen
land fuel auth q (screen s) = some s
land fuel auth q (navigate to) = visit fuel auth q to

visit-land :
    (fuel : ℕ) (auth : AuthState) (q : HomeQuery) (path : List String)
    → visit (suc fuel) auth q path ≡ land fuel auth q (app_routes auth q path)
unfolding visit land
visit-land fuel auth q path = refl

land-IsOpen :
    (auth : AuthState) (q : HomeQuery) {e : Element}
    → auth.is_authenticated ≡ false
    → Guarded e
    → IsOpen (land 2 auth q e)
unfolding land visit app_routes one_segment protected_route
land-IsOpen auth q h shows_login = tt
land-IsOpen auth q h shows_status = tt
land-IsOpen auth q h to_login = tt
land-IsOpen auth q h to_home = rw h tt

-- Without a session, at most three steps lead every location to the login or the status screen.
pub signed_out-IsOpen :
    (auth : AuthState) (q : HomeQuery) (path : List String)
    → auth.is_authenticated ≡ false
    → IsOpen (visit 3 auth q path)
signed_out-IsOpen auth q path h =
    subst IsOpen (sym (visit-land 2 auth q path))
      (land-IsOpen auth q h (app_routes-Guarded auth q path h))

-- The location leads to a screen within so many steps.
abbrev Settles : ℕ → AuthState → HomeQuery → Element → Type 0
Settles fuel auth q e = (s : Screen) × (land fuel auth q e ≡ some s)

module _ (auth : AuthState) (q : HomeQuery) (h : auth.is_authenticated ≡ true) where
  onboarding-Settles : (fuel : ℕ) → Settles (suc fuel) auth q (navigate ("onboarding" ∷ []))
  unfolding land visit app_routes one_segment protected_route
  onboarding-Settles fuel = (onboarding, rw h refl)

  home_route-Settles : (fuel : ℕ) → Settles (suc fuel) auth q (home_route auth.role q)
  unfolding home_route land
  home_route-Settles fuel =
      if_elim (Settles (suc fuel) auth q) (is_admin auth.role)
        (λ t.
          if_elim (Settles (suc fuel) auth q) q.is_loading (λ t. (loading, refl))
            (λ f.
              if_elim (Settles (suc fuel) auth q) (has_no_devices q.device_count)
                (λ t. onboarding-Settles fuel) (λ f. (dashboard, refl))))
        (λ f. (dashboard, refl))

  protected-Settles :
      (fuel : ℕ) (e : Element)
      → Settles fuel auth q e
      → Settles fuel auth q (protected_route auth.is_authenticated e)
  unfolding protected_route
  protected-Settles fuel e s = subst (λ b. Settles fuel auth q (protected_route b e)) (sym h) s

  home-Settles : (fuel : ℕ) → Settles (suc (suc fuel)) auth q (navigate [])
  unfolding app_routes land visit
  home-Settles fuel =
      protected-Settles (suc fuel) (home_route auth.role q) (home_route-Settles fuel)

  page-Settles : (page : Option Screen) → Settles 2 auth q (page_element auth.is_authenticated page)
  unfolding page_element
  page-Settles none = home-Settles 0
  page-Settles (some page) = protected-Settles 2 (screen page) (page, unfold land in refl)

  one_segment-Settles : (path : String) → Settles 2 auth q (one_segment auth.is_authenticated path)
  unfolding one_segment
  one_segment-Settles path =
      if_elim (Settles 2 auth q) (str_eq path "login") (λ t. (login, unfold land in refl))
        (λ f.
          if_elim (Settles 2 auth q) (str_eq path "status") (λ t. (status, unfold land in refl))
            (λ f.
              if_elim (Settles 2 auth q) (str_eq path "onboarding")
                (λ t. protected-Settles 2 (screen onboarding) (onboarding, unfold land in refl))
                (λ f. page-Settles (layout_page path))))

  app_routes-Settles : (path : List String) → Settles 2 auth q (app_routes auth q path)
  unfolding app_routes
  app_routes-Settles [] = protected-Settles 2 (home_route auth.role q) (home_route-Settles 1)
  app_routes-Settles (path ∷ []) = one_segment-Settles path
  app_routes-Settles (path ∷ id ∷ []) =
      if_elim (Settles 2 auth q) (str_eq path "devices")
        (λ t.
          protected-Settles 2 (screen (device_detail id)) (device_detail id, unfold land in refl))
        (λ f. home-Settles 0)
  app_routes-Settles (path ∷ id ∷ x ∷ rest) = home-Settles 0

-- With a session, at most three steps lead every location to a screen: no location is redirected
-- for ever.
pub signed_in_settles :
    (auth : AuthState) (q : HomeQuery) (path : List String)
    → auth.is_authenticated ≡ true
    → (s : Screen) × (visit 3 auth q path ≡ some s)
signed_in_settles auth q path h =
    let (s, e) = app_routes-Settles auth q h path in (s, visit-land 2 auth q path ∙ e)
