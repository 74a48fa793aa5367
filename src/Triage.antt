-- ===== src/Triage.antt =====
-- The alerts' page (frontend/src/pages/Alerts.tsx): the page and its switch, the alerts of each device, the
-- figures and the button that resolves the alerts of a device. The request is one of the console's queries.
pub mod Groups
mod Tests
use dtsys.Prelude.{
  get_or, ℕ, suc, ◌+◌, ◌-◌, ◌*◌, ◌/◌, max, String, Bool, true, false, not, ◌&&◌, ◌||◌, List, [],
  ◌∷◌, ◌++◌, Option, none, some, str_eq, if◌then◌else◌, filter, map, length,
}
use dtsys.Prelude.Table.{Entry, get, update}
use dtsys.Types.{Severity, info, warning, critical, Alert}

-- What the page reads of a device.
pub record NamedDevice : Type 0 where
  pub id : String
  pub hostname : String
  pub label : Option String

-- `device.label ?? device.hostname`
abbrev pub display_name : NamedDevice → String
display_name device = get_or device.label device.hostname

-- deviceNames: the last device with an id counts.
unfoldable pub device_names : List NamedDevice → List (Entry String) → List (Entry String)
device_names [] names = names
device_names (d ∷ devices) names = device_names devices (update d.id (λ old. display_name d) names)

-- `deviceNames[id] ?? id`
abbrev pub name_of : String → List (Entry String) → String
name_of id names = get_or (get id names) id

abbrev pub add_last : Alert → Option (List Alert) → List Alert
add_last alert group = get_or group [] ++ alert ∷ []

-- groupedByDevice
unfoldable pub grouped_by_device :
    List Alert → List (Entry (List Alert)) → List (Entry (List Alert))
grouped_by_device [] acc = acc
grouped_by_device (a ∷ alerts) acc = grouped_by_device alerts (update a.device_id (add_last a) acc)

pub record Summary : Type 0 where
  pub critical_count : ℕ
  pub warning_count : ℕ
  pub info_count : ℕ

abbrev pub count_severity : Severity → Summary → Summary
count_severity critical acc = record acc { critical_count = acc.critical_count + 1 }
count_severity warning acc = record acc { warning_count = acc.warning_count + 1 }
count_severity info acc = record acc { info_count = acc.info_count + 1 }

unfoldable pub summary_of : List Alert → Summary → Summary
summary_of [] acc = acc
summary_of (a ∷ alerts) acc = summary_of alerts (count_severity a.severity acc)

abbrev pub no_alerts : Summary
no_alerts = record { critical_count = 0; warning_count = 0; info_count = 0 }

-- The alerts that are not resolved, as the heading counts them.
abbrev pub open_alerts : List Alert → List Alert
open_alerts alerts = filter (λ (a : Alert). not a.is_resolved) alerts

-- "Resolve All": the ids that are sent, and what disables the button beside a request under way.
unfoldable pub resolve_all : List Alert → List String
resolve_all alerts = map (λ (a : Alert). a.id) (open_alerts alerts)

unfoldable pub every_resolved : List Alert → Bool
every_resolved [] = true
every_resolved (a ∷ alerts) = a.is_resolved && every_resolved alerts

abbrev pub is_disabled : List Alert → Bool → Bool
is_disabled alerts is_pending = every_resolved alerts || is_pending

-- showResolved and page.
pub record View : Type 0 where
  pub show_resolved : Bool
  pub page : ℕ

abbrev pub first_view : View
first_view = record { show_resolved = false; page = 1 }

-- The switch leaves the page as it is.
abbrev pub set_show_resolved : Bool → View → View
set_show_resolved checked view = record view { show_resolved = checked }

-- `Math.max(1, Math.ceil(total / pageSize))`
abbrev pub alert_pages : ℕ → ℕ
alert_pages total = max 1 ((total + 19) / 20)

-- `(page - 1) * pageSize`
abbrev pub skip_of : View → ℕ
skip_of view = (view.page - 1) * 20
