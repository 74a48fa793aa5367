-- ===== src/Reports/Tests.antt =====
-- The reports on two devices and a range of a week.
use dtsys.Prelude.{str_eq, ◌≡◌, refl, String, true, List, [], ◌∷◌, none, some}
use dtsys.Prelude.Table.{get, update, HasDistinctKeys}
use dtsys.Triage.{NamedDevice}
use dtsys.Reports.{Package, hours_between, aggregate, add_packages, software_rows}
use dtsys.Prelude.Sets.{IsSetFrom, set_of, add_value}
use dtsys.Reports.Software.{labels_of, versions_of, uses_of, entry_of, aggregate_lem}

abbrev package_of : String → Package
package_of version = record { name = "curl"; version = some version; update_available = true }

-- Two devices of the same name.
abbrev devices : List (NamedDevice × List Package)
devices =
    (record { id = "d1"; hostname = "pc"; label = none }, package_of "7" ∷ package_of "8" ∷ [])
    ∷ (record { id = "d2"; hostname = "pc"; label = none }, package_of "7" ∷ [])
    ∷ []

-- They are counted as one.
counted_once :
    software_rows devices
    ≡ record {
      software_name = "curl";
      affected_devices_count = 1;
      current_versions_seen = "7" ∷ "8" ∷ [];
    }
      ∷ []
unfolding software_rows aggregate add_packages add_value update
counted_once = refl

-- From midnight to a second before midnight seven days later.
a_week : hours_between (some 0) (some 604799000) ≡ some 168
a_week = refl

no_range : hours_between none (some 5) ≡ none
no_range = refl

aggregate_lem_example :
    (get "curl" (aggregate devices []) ≡ entry_of "curl" (uses_of "curl" devices))
    × HasDistinctKeys (aggregate devices [])
    × IsSetFrom str_eq
        (labels_of (uses_of "curl" devices))
        (set_of str_eq (labels_of (uses_of "curl" devices)))
    × IsSetFrom str_eq
        (versions_of (uses_of "curl" devices))
        (set_of str_eq (versions_of (uses_of "curl" devices)))
aggregate_lem_example = aggregate_lem "curl" devices
