-- ===== src/Navigation.antt =====
-- The routes of the console (frontend/src/App.tsx). A location is the list of the segments of its path.
pub mod Guards
mod Tests
use dtsys.Prelude.{
  ℕ, zero, suc, String, Bool, true, false, ◌&&◌, List, [], ◌∷◌, Option, none, some, ◌==◌, str_eq,
  if◌then◌else◌,
}
use dtsys.Auth.{AuthState}

pub data Screen : Type 0 where
  login status onboarding loading dashboard my_dashboard compare network_map alerts reports
        inventory :
      Screen
  command_library software_updates scheduled users compliance audit downloads organizations
        settings :
      Screen
  device_detail : String → Screen

-- What a location shows: a screen, or `<Navigate to replace />`.
pub data Element : Type 0 where
  screen : Screen → Element
  navigate : List String → Element

-- The query of `HomeRoute`: whether it is loading, and how many devices it has found, if any.
pub record HomeQuery : Type 0 where
  pub is_loading : Bool
  pub device_count : Option ℕ

abbrev pub is_admin : Option String → Bool
is_admin none = false
is_admin (some role) = str_eq role "admin"

-- `(devices?.length ?? 0) === 0`
abbrev pub has_no_devices : Option ℕ → Bool
has_no_devices none = true
has_no_devices (some n) = n == 0

unfoldable pub home_route : Option String → HomeQuery → Element
home_route role q =
    if is_admin role
    then (if q.is_loading
        then screen loading
        else if has_no_devices q.device_count
        then navigate ("onboarding" ∷ [])
        else screen dashboard)
    else screen dashboard

unfoldable pub protected_route : Bool → Element → Element
protected_route is_authenticated children =
    if is_authenticated then children else navigate ("login" ∷ [])

-- The pages of one segment inside the layout.
unfoldable pub layout_page : String → Option Screen
layout_page path =
    if str_eq path "my-dashboard"
    then some my_dashboard
    else if str_eq path "compare"
    then some compare
    else if str_eq path "network-map"
    then some network_map
    else if str_eq path "alerts"
    then some alerts
    else if str_eq path "reports"
    then some reports
    else if str_eq path "inventory"
    then some inventory
    else if str_eq path "command-library"
    then some command_library
    else if str_eq path "software-updates"
    then some software_updates
    else if str_eq path "scheduled"
    then some scheduled
    else if str_eq path "users"
    then some users
    else if str_eq path "compliance"
    then some compliance
    else if str_eq path "audit"
    then some audit
    else if str_eq path "downloads"
    then some downloads
    else if str_eq path "organizations"
    then some organizations
    else if str_eq path "settings"
    then some settings
    else none

-- A page inside the layout, or the last route, which goes home.
unfoldable pub page_element : Bool → Option Screen → Element
page_element is_authenticated none = navigate []
page_element is_authenticated (some page) = protected_route is_authenticated (screen page)

unfoldable pub one_segment : Bool → String → Element
one_segment is_authenticated path =
    if str_eq path "login"
    then screen login
    else if str_eq path "status"
    then screen status
    else if str_eq path "onboarding"
    then protected_route is_authenticated (screen onboarding)
    else page_element is_authenticated (layout_page path)

unfoldable pub app_routes : AuthState → HomeQuery → List String → Element
app_routes auth q [] = protected_route auth.is_authenticated (home_route auth.role q)
app_routes auth q (path ∷ []) = one_segment auth.is_authenticated path
app_routes auth q (path ∷ id ∷ []) =
    if str_eq path "devices"
    then protected_route auth.is_authenticated (screen (device_detail id))
    else navigate []
app_routes auth q (path ∷ id ∷ x ∷ rest) = navigate []

-- The screen that a location leads to, within so many redirections.
unfoldable pub visit : ℕ → AuthState → HomeQuery → List String → Option Screen
visit zero auth q path = none
visit (suc fuel) auth q path = elim (app_routes auth q path) [
  | screen s ↦ some s
  | navigate to ↦ visit fuel auth q to
]
