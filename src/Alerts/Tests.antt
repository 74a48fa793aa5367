-- ===== src/Alerts/Tests.antt =====
-- The theorems on the alert store at concrete alerts.
use dtsys.Prelude.{
  String, ◌≡◌, refl, false, List, [], ◌∷◌, none, some, arith, if◌then◌else◌, str_eq, str_eq_iff,
}
use dtsys.Types.{Alert, warning}
use dtsys.Alerts.{
  AlertState, initial, Op, set_all, add, remove, set_unresolved, add_alert, resolve, run,
}
use dtsys.Alerts.Store.{ids, HasDistinctIds, run-HasDistinctIds}
use dtsys.Alerts.Refinement.{find_alert, find_alert-apply}

abbrev pub alert_of : String → String → Alert
alert_of id message = record {
  id = id;
  device_id = "d1";
  alert_type = "offline";
  severity = warning;
  message = message;
  is_resolved = false;
  created_at = "2024-01-01T00:00:00Z";
  resolved_at = none;
}

abbrev two : List Alert
two = alert_of "a1" "x" ∷ alert_of "a2" "y" ∷ []

abbrev ops : List Op
ops = set_all two ∷ add (alert_of "a2" "z") ∷ remove "a1" ∷ []

two-HasDistinctIds : HasDistinctIds two
two-HasDistinctIds = ground (arith, str_eq_iff "a2" "a1")

run-HasDistinctIds_example : HasDistinctIds (run ops initial).unresolved
run-HasDistinctIds_example = run-HasDistinctIds ops (two-HasDistinctIds, (tt, (tt, tt)))

after_ops : ids (run ops initial).unresolved ≡ "a2" ∷ []
unfolding run initial
after_ops = refl

-- The same ids with another message: the store keeps the alerts that it had.
stale_message :
    set_unresolved (alert_of "a1" "new" ∷ []) (record { unresolved = alert_of "a1" "old" ∷ [] })
    ≡ record { unresolved = alert_of "a1" "old" ∷ [] }
unfolding set_unresolved
stale_message = refl

abbrev old_state : AlertState
old_state = record { unresolved = two }

find_alert-apply_example :
    (find_alert "a1" (add_alert (alert_of "a2" "z") old_state).unresolved
      ≡ (if str_eq "a2" "a1" then some (alert_of "a2" "z") else find_alert "a1" two))
    × (find_alert "a1" (resolve "a1" old_state).unresolved
        ≡ (if str_eq "a1" "a1" then none else find_alert "a1" two))
find_alert-apply_example = find_alert-apply (alert_of "a2" "z") "a1" "a1" old_state
