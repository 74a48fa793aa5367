-- ===== src/Handheld/Tests.antt =====
-- The theorems about the mobile application at a concrete server and concrete alerts.
use mathlib.Core.List.{Perm}
use dtsys.Prelude.{◌≡◌, String, false, List, [], ◌∷◌, none, some, length}
use dtsys.Prelude.Sort.{IsOrdered}
use dtsys.Handheld.{
  AuthState, App, AlertItem, LoginAnswer, granted, refused, sorted_alerts, count_alerts, count_of,
}
use dtsys.Handheld.Alarms.{IsBefore, sorted_alerts_lem, alerts_of, count_of-count_alerts}

abbrev fresh : AuthState
fresh = record { storage = []; loading = false; error = none }

abbrev no_one : String → String → String → LoginAnswer
no_one base username password = refused (some "Invalid credentials")

abbrev anyone : String → String → String → LoginAnswer
anyone base username password = granted (record { access = "a"; refresh = "r" })

abbrev started : App
started = record { is_authenticated = some false; auth = fresh }

abbrev alarms : List AlertItem
alarms =
    record { id = "a1"; device_id = "one"; severity = "info"; created_at = 9 }
    ∷ record { id = "a2"; device_id = "two"; severity = "critical"; created_at = 3 }
    ∷ record { id = "a3"; device_id = "one"; severity = "critical"; created_at = 5 }
    ∷ []

sorted_alerts_lem_example :
    Perm (sorted_alerts alarms) alarms × IsOrdered IsBefore (sorted_alerts alarms)
sorted_alerts_lem_example = sorted_alerts_lem alarms

count_of-count_alerts_example :
    count_of "one" (count_alerts alarms []) ≡ length (alerts_of "one" alarms)
count_of-count_alerts_example = count_of-count_alerts "one" alarms
