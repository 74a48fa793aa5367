-- ===== src/Reports.antt =====
-- The reports' page (frontend/src/pages/Reports.tsx): the range, the alerts in it, and the software that wants
-- an update. A moment is a number of milliseconds; `none` is an invalid date, which no comparison holds of.
-- The percentages of the uptime, which are floating point numbers, are left out.
pub mod Software
pub mod Range
mod Tests
use dtsys.Prelude.{
  get_or, ℕ, ◌+◌, ◌-◌, ◌/◌, max, String, Bool, true, false, not, ◌&&◌, List, [], ◌∷◌, Option, none,
  some, str_eq, if◌then◌else◌, filter, map, length, leb,
}
use dtsys.Prelude.Int.{ℤ}
use dtsys.Prelude.Sort.{sort_by}
use dtsys.Prelude.Sets.{add_value}
use dtsys.Prelude.Table.{Entry, update}
use dtsys.Types.{Alert}
use dtsys.Triage.{NamedDevice, display_name}

-- deviceId: 'all' or one device.
pub data Choice : Type 0 where
  all_devices : Choice
  one_device : String → Choice

unfoldable pub selected_devices : Choice → List NamedDevice → List NamedDevice
selected_devices all_devices devices = devices
selected_devices (one_device id) devices = filter (λ (d : NamedDevice). str_eq d.id id) devices

-- `Math.max(1, Math.ceil((end - start) / 3_600_000))`; a range that ends before it starts gives 1, one
-- without a valid end or start no number.
abbrev pub hours_between : Option ℕ → Option ℕ → Option ℕ
hours_between (some start) (some end) = some (max 1 ((end - start + 3599999) / 3600000))
hours_between _ _ = none

-- `created >= rangeStart && created <= rangeEnd`
abbrev pub is_within : Option ℕ → Option ℕ → Option ℕ → Bool
is_within (some start) (some end) (some created) = leb start created && leb created end
is_within _ _ _ = false

-- `parseISO` is date-fns's.
unfoldable pub filtered_alerts : (String → Option ℕ) → Option ℕ → Option ℕ → List Alert → List Alert
filtered_alerts parse_iso start end alerts =
    filter (λ (a : Alert). is_within start end (parse_iso a.created_at)) alerts

pub record TypeCount : Type 0 where
  pub alert_type : String
  pub count : ℕ

abbrev alert_types : List String
alert_types = "offline" ∷ "high_cpu" ∷ "high_ram" ∷ "disk_full" ∷ "crash" ∷ "time_drift" ∷ []

abbrev count_type : List Alert → String → TypeCount
count_type alerts type_name = record {
  alert_type = type_name;
  count = length (filter (λ (a : Alert). str_eq a.alert_type type_name) alerts);
}

unfoldable pub top_alerts : List Alert → List TypeCount
top_alerts alerts = map (count_type alerts) alert_types

abbrev newest_of : List Alert → Option Alert
newest_of [] = none
newest_of (a ∷ alerts) = some a

-- `sort((left, right) => right.created_at.localeCompare(left.created_at))[0]`
unfoldable pub last_offline : (String → String → ℤ) → String → List Alert → Option Alert
last_offline locale_compare id alerts = newest_of (
    sort_by (λ (left right : Alert). locale_compare right.created_at left.created_at)
      (filter (λ (a : Alert). str_eq a.device_id id && str_eq a.alert_type "offline") alerts))

pub record Package : Type 0 where
  pub name : String
  pub version : Option String
  pub update_available : Bool

pub record Aggregate : Type 0 where
  pub software_name : String
  pub devices : List String
  pub versions : List String

abbrev pub new_aggregate : String → Aggregate
new_aggregate name = record { software_name = name; devices = []; versions = [] }

-- `if (pkg.version) current.versions.add(pkg.version)`
abbrev pub add_version : Option String → List String → List String
add_version none versions = versions
add_version (some v) versions = if str_eq v "" then versions else add_value str_eq v versions

-- What one package of a device does to the entry of its name.
abbrev pub note : String → String → Option String → Option Aggregate → Aggregate
note name label version current =
    let entry = get_or current (new_aggregate name) in
    record {
      software_name = entry.software_name;
      devices = add_value str_eq label entry.devices;
      versions = add_version version entry.versions;
    }

unfoldable pub add_packages :
    String → List Package → List (Entry Aggregate) → List (Entry Aggregate)
add_packages label [] aggregated = aggregated
add_packages label (p ∷ packages) aggregated =
    let noted = update p.name (note p.name label p.version) aggregated in
    add_packages label packages (if p.update_available then noted else aggregated)

-- A device without an answer has no packages.
unfoldable pub aggregate :
    List (NamedDevice × List Package) → List (Entry Aggregate) → List (Entry Aggregate)
aggregate [] aggregated = aggregated
aggregate ((d, packages) ∷ devices) aggregated =
    aggregate devices (add_packages (display_name d) packages aggregated)

-- A row: its versions are shown with ", " between them, and none as "Unknown".
pub record SoftwareRow : Type 0 where
  pub software_name : String
  pub affected_devices_count : ℕ
  pub current_versions_seen : List String

abbrev row_of_entry : Entry Aggregate → SoftwareRow
row_of_entry e = record {
  software_name = e.value.software_name;
  affected_devices_count = length e.value.devices;
  current_versions_seen = e.value.versions;
}

unfoldable pub software_rows : List (NamedDevice × List Package) → List SoftwareRow
software_rows devices = map row_of_entry (aggregate devices [])
