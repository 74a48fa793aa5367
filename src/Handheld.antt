-- ===== src/Handheld.antt =====
-- The mobile application's session (mobile/src/hooks/useAuth.ts over the store of
-- mobile/src/api/client.ts) and what its screens compute (mobile/src/screens). The two writes of
-- saveTokens and of clearTokens go to different keys, so their order does not matter.
pub mod Session
pub mod Alarms
mod Tests
use dtsys.Prelude.{
  ℕ, suc, ◌+◌, ◌-◌, String, Bool, true, false, not, List, [], ◌∷◌, Option, none, some, str_eq, ◌==◌,
  if◌then◌else◌, ltb, min, filter, length,
}
use dtsys.Prelude.Int.{ℤ, pos, ◌-ℤ◌}
use dtsys.Prelude.Storage.{Storage, get_item, set_item, remove_item, is_truthy}
use dtsys.Prelude.Sort.{sort_by}
use dtsys.Auth.Mobile.{Tokens, save_tokens, clear_tokens}

-- The state of the hook, with the phone's store; `strip` is `replace(/\/$/, '')`.
pub record AuthState : Type 0 where
  pub storage : Storage
  pub loading : Bool
  pub error : Option String

-- What the server says to a login: the tokens, or no with the detail of the answer, if it has one.
pub data LoginAnswer : Type 0 where
  granted : Tokens → LoginAnswer
  refused : Option String → LoginAnswer

abbrev pub url_or_local : Option String → String
url_or_local none = "http://localhost:8000"
url_or_local (some url) = url

abbrev pub get_server_url : Storage → String
get_server_url storage = url_or_local (get_item "server_url" storage)

unfoldable pub save_server_url : (String → String) → String → Storage → Storage
save_server_url strip url storage = set_item "server_url" (strip url) storage

abbrev pub detail_or_default : Option String → String
detail_or_default none = "Login failed"
detail_or_default (some detail) = detail

pub record LoginResult : Type 0 where
  pub session : AuthState
  pub ok : Bool

abbrev pub settle_login : LoginAnswer → String → Storage → LoginResult
settle_login (granted tokens) username storage = record {
  session = record {
    storage = set_item "username" username (save_tokens tokens storage);
    loading = false;
    error = none;
  };
  ok = true;
}
settle_login (refused detail) username storage = record {
  session = record { storage = storage; loading = false; error = some (detail_or_default detail) };
  ok = false;
}

-- The server is asked at the address that was typed, after that has been saved.
unfoldable pub login :
    (String → String)
    → (String → String → String → LoginAnswer)
    → String
    → String
    → String
    → AuthState
    → LoginResult
login strip server url username password s =
    let base = strip url in
    settle_login (server base username password) username (save_server_url strip base s.storage)

unfoldable pub logout : AuthState → AuthState
logout s = record s { storage = remove_item "username" (clear_tokens s.storage) }

unfoldable pub check_auth : AuthState → Bool
check_auth s = is_truthy (get_item "access_token" s.storage)

-- App.tsx: which screens are drawn, `none` while the store is read.
pub record App : Type 0 where
  pub is_authenticated : Option Bool
  pub auth : AuthState

unfoldable pub start_app : AuthState → App
start_app s = record { is_authenticated = some (check_auth s); auth = s }

-- LoginScreen's handleLogin with the application's handleLoginSuccess.
unfoldable pub handle_login :
    (String → String)
    → (String → String → String → LoginAnswer)
    → String
    → String
    → String
    → App
    → App
handle_login strip server url username password a =
    let result = login strip server url username password a.auth in
    record {
      is_authenticated = if result.ok then some true else a.is_authenticated;
      auth = result.session;
    }

unfoldable pub handle_logout : App → App
handle_logout a = record { is_authenticated = some false; auth = logout (logout a.auth) }

-- AlertsScreen: the most severe first, and the newest first among these. A time is the milliseconds of
-- `created_at`.
pub record AlertItem : Type 0 where
  pub id : String
  pub device_id : String
  pub severity : String
  pub created_at : ℕ

-- `SEVERITY_ORDER[severity] ?? 99`
abbrev pub severity_order : String → ℕ
severity_order severity =
    if str_eq severity "critical"
    then 0
    else (if str_eq severity "warning" then 1 else (if str_eq severity "info" then 2 else 99))

abbrev pub same_order : Bool → ℤ → ℤ → ℤ
same_order true by_time sev = by_time
same_order false by_time sev = sev

unfoldable pub compare_alerts : AlertItem → AlertItem → ℤ
compare_alerts a b =
    same_order (severity_order a.severity == severity_order b.severity)
      (pos b.created_at -ℤ pos a.created_at)
      (pos (severity_order a.severity) -ℤ pos (severity_order b.severity))

unfoldable pub sorted_alerts : List AlertItem → List AlertItem
sorted_alerts alerts = sort_by compare_alerts alerts

-- DashboardScreen: how many alerts each device has, as an object.
pub record Count : Type 0 where
  pub device_id : String
  pub count : ℕ

unfoldable pub add_count : String → List Count → List Count
add_count id [] = record { device_id = id; count = 1 } ∷ []
add_count id (c ∷ counts) =
    let rest = add_count id counts in
    if str_eq c.device_id id then record c { count = c.count + 1 } ∷ counts else c ∷ rest

unfoldable pub count_alerts : List AlertItem → List Count → List Count
count_alerts [] counts = counts
count_alerts (a ∷ alerts) counts = count_alerts alerts (add_count a.device_id counts)

-- `alertCounts?.[id] ?? 0`
unfoldable pub count_of : String → List Count → ℕ
count_of id [] = 0
count_of id (c ∷ counts) =
    let rest = count_of id counts in if str_eq c.device_id id then c.count else rest

-- DeviceDetailScreen: a dangerous command waits for an answer to the dialog.
pub record Sheet : Type 0 where
  pub asked : Option String
  pub sent : List String

unfoldable pub handle_dispatch : String → Bool → Sheet → Sheet
handle_dispatch command_type true s = record s { asked = some command_type }
handle_dispatch command_type false s = record s { sent = command_type ∷ s.sent }

abbrev pub send_asked : Option String → Sheet → Sheet
send_asked none s = s
send_asked (some command_type) s = record s { asked = none; sent = command_type ∷ s.sent }

-- The dialog is left by Cancel or by Send.
abbrev pub answer_dialog : Bool → Sheet → Sheet
answer_dialog true s = send_asked s.asked s
answer_dialog false s = record s { asked = none }

pub data GaugeColor : Type 0 where
  red amber green : GaugeColor

-- Gauge and GaugeBar, for a whole percentage.
abbrev pub gauge_color : ℕ → GaugeColor
gauge_color value = if ltb 85 value then red else (if ltb 70 value then amber else green)

abbrev pub gauge_width : ℕ → ℕ
gauge_width value = min value 100
