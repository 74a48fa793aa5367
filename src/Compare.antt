-- ===== src/Compare.antt =====
-- The comparison of devices (frontend/src/pages/DeviceCompare.tsx), and the link to it in
-- frontend/src/components/device/BulkCommandBar.tsx. The percentages, which are floating point numbers, and
-- their colours are left out.
pub mod Links
pub mod Highlights
mod Tests
use dtsys.Prelude.{
  get_or, ℕ, suc, ◌+◌, String, Bool, true, false, ◌&&◌, List, [], ◌∷◌, ◌++◌, Option, none, some,
  ◌==◌, str_eq, if◌then◌else◌, filter, map, take, length, ltb,
}
use dtsys.Prelude.Sets.{size_of_set}
use dtsys.Prelude.Text.{Text, split_at, trim, is_filled}
use dtsys.Prelude.Text.Split.{join_with}

-- "/compare?ids="
abbrev pub compare_prefix : Text
compare_prefix = 47 ∷ 99 ∷ 111 ∷ 109 ∷ 112 ∷ 97 ∷ 114 ∷ 101 ∷ 63 ∷ 105 ∷ 100 ∷ 115 ∷ 61 ∷ []

-- What the Compare button navigates to. The ids are not escaped.
unfoldable pub compare_link : List Text → Text
compare_link selected_ids = compare_prefix ++ join_with b',' (take 4 selected_ids)

-- The ids, of what `searchParams.get('ids')` answers; `none` is null.
unfoldable pub parse_ids : Option Text → List Text
parse_ids ids = take 4 (filter is_filled (map trim (split_at b',' (get_or ids []))))

pub record ComparedDevice : Type 0 where
  pub id : String
  pub os_version : Option String
  pub os_type : String

-- The answers to the four queries of an id: the device, the uptime in its newest metric, the number of its open
-- alerts, and for each package whether it has an update. The outer `none` is no answer yet.
pub record Answers : Type 0 where
  pub device : Option ComparedDevice
  pub uptime_secs : Option (Option ℕ)
  pub alert_count : Option ℕ
  pub update_flags : Option (List Bool)

pub record CompareRow : Type 0 where
  pub device : ComparedDevice
  pub uptime_secs : Option ℕ
  pub alert_count : ℕ
  pub software_count : ℕ
  pub pending_updates : ℕ

abbrev pub row_for : ComparedDevice → Answers → CompareRow
row_for device a =
    let software = get_or a.update_flags [] in
    record {
      device = device;
      uptime_secs = get_or a.uptime_secs none;
      alert_count = get_or a.alert_count 0;
      software_count = length software;
      pending_updates = length (filter (λ u. u) software);
    }

-- An id whose device has not come has no column.
abbrev pub columns_for : Option ComparedDevice → Answers → List CompareRow → List CompareRow
columns_for none a rest = rest
columns_for (some device) a rest = row_for device a ∷ rest

unfoldable pub compare_rows : List Answers → List CompareRow
compare_rows [] = []
compare_rows (a ∷ answers) = columns_for a.device a (compare_rows answers)

abbrev pub os_of : CompareRow → String
os_of row = get_or row.device.os_version row.device.os_type

abbrev pub uptime_of : CompareRow → ℕ
uptime_of row = get_or row.uptime_secs 0

abbrev pub alert_count_of : CompareRow → ℕ
alert_count_of row = row.alert_count

abbrev pub software_of : CompareRow → ℕ
software_of row = row.software_count

pub record FieldSizes : Type 0 where
  pub os : ℕ
  pub uptime : ℕ
  pub alert_count : ℕ
  pub software_count : ℕ

-- valuesByField
unfoldable pub values_by_field : List CompareRow → FieldSizes
values_by_field rows = record {
  os = size_of_set str_eq (map os_of rows);
  uptime = size_of_set (λ a b. a == b) (map uptime_of rows);
  alert_count = size_of_set (λ a b. a == b) (map alert_count_of rows);
  software_count = size_of_set (λ a b. a == b) (map software_of rows);
}

-- `highlightDiffs && size > 1`
abbrev pub is_highlighted : Bool → ℕ → Bool
is_highlighted highlight_diffs size = highlight_diffs && ltb 1 size
