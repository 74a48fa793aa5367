-- ===== src/Triage/Tests.antt =====
-- The alerts' page on three alerts.
use dtsys.Prelude.{◌≡◌, ◌↔◌, refl, String, Bool, true, false, List, [], ◌∷◌, none, filter, length}
use dtsys.Prelude.Table.{get, update, HasDistinctKeys}
use dtsys.Types.{Alert, critical}
use dtsys.Triage.{
  grouped_by_device, summary_of, no_alerts, is_disabled, resolve_all, device_names, name_of,
  set_show_resolved, alert_pages, skip_of,
}
use dtsys.Triage.Groups.{group_or_empty, is_of, sum_of, grouped_by_device_lem}

abbrev alert_of : String → String → Bool → Alert
alert_of id device_id is_resolved = record {
  id = id;
  device_id = device_id;
  alert_type = "crash";
  severity = critical;
  message = "";
  is_resolved = is_resolved;
  created_at = "";
  resolved_at = none;
}

abbrev alerts : List Alert
alerts = alert_of "a1" "d1" false ∷ alert_of "a2" "d2" false ∷ alert_of "a3" "d1" true ∷ []

open_sent : resolve_all alerts ≡ "a1" ∷ "a2" ∷ []
unfolding resolve_all
open_sent = refl

first_name :
    name_of "d1" (device_names (record { id = "d1"; hostname = "pc"; label = none } ∷ []) []) ≡ "pc"
unfolding device_names get update
first_name = refl

-- The switch of a view on the third page leaves it there, where one page of alerts is left.
page_kept : skip_of (set_show_resolved false (record { show_resolved = true; page = 3 })) ≡ 40
page_kept = refl

one_page : alert_pages 20 ≡ 1
one_page = refl

grouped_by_device_lem_example :
    (group_or_empty "d1" (grouped_by_device alerts []) ≡ filter (is_of "d1") alerts)
    × HasDistinctKeys (grouped_by_device alerts [])
    × (sum_of (summary_of alerts no_alerts) ≡ length alerts)
    × (is_disabled alerts false ≡ true ↔ resolve_all alerts ≡ [])
grouped_by_device_lem_example = grouped_by_device_lem "d1" alerts
