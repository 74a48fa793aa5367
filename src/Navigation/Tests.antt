-- ===== src/Navigation/Tests.antt =====
-- The theorems about the routes of the console at concrete locations.
use dtsys.Prelude.{◌≡◌, refl, true, false, [], ◌∷◌, none, some}
use dtsys.Auth.{AuthState}
use dtsys.Navigation.{
  HomeQuery, onboarding, visit, app_routes, protected_route, home_route, one_segment, layout_page,
  page_element,
}

abbrev signed_out : AuthState
signed_out = record {
  access_token = none;
  refresh_token = none;
  username = none;
  role = none;
  org_id = none;
  org_name = none;
  is_authenticated = false;
}

abbrev admin : AuthState
admin = record {
  access_token = some "a";
  refresh_token = some "r";
  username = some "root";
  role = some "admin";
  org_id = none;
  org_name = none;
  is_authenticated = true;
}

abbrev no_devices : HomeQuery
no_devices = record { is_loading = false; device_count = some 0 }

onboarded : visit 3 admin no_devices ("nowhere" ∷ []) ≡ some onboarding
unfolding visit app_routes protected_route home_route one_segment layout_page page_element
onboarded = refl
