-- ===== src/Processes.antt =====
-- The process table of a device (frontend/src/components/device/ProcessList.tsx): its search, its
-- order and its headers. Names and states are lists of UTF-16 code units; shares of the processor and
-- of the memory are whole numbers of a fixed small unit, of which the code reads the order only.
pub mod Order
pub mod Headers
mod Tests
use dtsys.Prelude.{
  ℕ, ◌+◌, Bool, true, false, not, ◌&&◌, ◌||◌, List, filter, if◌then◌else◌, ltb, ◌*◌,
}
use dtsys.Prelude.Int.{ℤ, pos, ◌-ℤ◌}
use dtsys.Prelude.Text.{Text, includes_text}
use dtsys.Prelude.Sort.{sort_by}

pub data SortKey : Type 0 where
  pid name cpu_percent mem_percent status : SortKey

pub record ProcessInfo : Type 0 where
  pub pid : ℕ
  pub name : Text
  pub cpu_percent : ℕ
  pub mem_percent : ℕ
  pub status : Text

-- `left[sortKey]` is a string for two of the keys, and a number for the others.
pub data Value : Type 0 where
  string : Text → Value
  number : ℕ → Value

abbrev pub value_at : SortKey → ProcessInfo → Value
value_at SortKey.pid p = number p.pid
value_at SortKey.name p = string p.name
value_at SortKey.cpu_percent p = number p.cpu_percent
value_at SortKey.mem_percent p = number p.mem_percent
value_at SortKey.status p = string p.status

abbrev pub is_found : (Text → Text) → Text → ProcessInfo → Bool
is_found to_lower_case search proc = includes_text (to_lower_case search) (to_lower_case proc.name)

-- `localeCompare` and `toLowerCase` are parameters, and so is what `Number` makes of a string, which
-- no key ever asks for.
module _ (locale_compare : Text → Text → ℤ) where
  abbrev pub compare_values : Bool → Value → Value → ℤ
  compare_values true (string l) (string r) = locale_compare r l
  compare_values false (string l) (string r) = locale_compare l r
  compare_values true (number l) (number r) = pos r -ℤ pos l
  compare_values false (number l) (number r) = pos l -ℤ pos r
  compare_values _ _ _ = pos 0

  abbrev pub compare_processes : SortKey → Bool → ProcessInfo → ProcessInfo → ℤ
  compare_processes key descending left right =
      compare_values descending (value_at key left) (value_at key right)

  unfoldable pub rows : (Text → Text) → Text → SortKey → Bool → List ProcessInfo → List ProcessInfo
  rows to_lower_case search key descending processes =
      sort_by (compare_processes key descending) (filter (is_found to_lower_case search) processes)

abbrev pub same_key : SortKey → SortKey → Bool
same_key SortKey.pid SortKey.pid = true
same_key SortKey.name SortKey.name = true
same_key SortKey.cpu_percent SortKey.cpu_percent = true
same_key SortKey.mem_percent SortKey.mem_percent = true
same_key SortKey.status SortKey.status = true
same_key _ _ = false

pub record Sorting : Type 0 where
  pub sort_key : SortKey
  pub descending : Bool

abbrev pub first_sorting : Sorting
first_sorting = record { sort_key = SortKey.cpu_percent; descending = true }

unfoldable pub toggle_sort : SortKey → Sorting → Sorting
toggle_sort key s =
    if same_key s.sort_key key then record s { descending = not s.descending } else record {
      sort_key = key;
      descending = not (same_key key name) && not (same_key key status);
    }

pub data RowTone : Type 0 where
  red amber plain : RowTone

-- The colour of a row, for a share in units of which `unit` make a percent.
unfoldable pub row_tone : ℕ → ProcessInfo → RowTone
row_tone unit proc =
    if ltb (50 * unit) proc.cpu_percent
    then red
    else (if ltb (20 * unit) proc.cpu_percent then amber else plain)
