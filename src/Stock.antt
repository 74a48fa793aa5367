-- ===== src/Stock.antt =====
-- The inventory's page (frontend/src/pages/Inventory.tsx): its filter, and the import of a table. An object
-- that is made of a row is the list of its entries.
pub mod Export
mod Tests
use dtsys.Prelude.{
  get_or, ℕ, String, Bool, true, false, not, ◌&&◌, ◌||◌, List, [], ◌∷◌, ◌++◌, Option, none, some,
  ◌==◌, if◌then◌else◌, filter, map,
}
use dtsys.Prelude.Text.{Text, text_eq, split_at, trim, is_filled}

-- What the page reads of a device.
pub record StockDevice : Type 0 where
  pub id : String
  pub hostname : Text
  pub location : Option Text

-- `!location || device.location === location`
unfoldable pub filtered_devices : Text → List StockDevice → List StockDevice
filtered_devices location devices =
    filter
      (λ (d : StockDevice). not (is_filled location) || text_eq (get_or d.location []) location)
      devices

-- `\r?\n`: a return in front of a line's end goes with it.
unfoldable pub drop_return : Text → Text
drop_return [] = []
drop_return (c ∷ []) = if c == 13 then [] else c ∷ []
drop_return (c ∷ d ∷ s) = c ∷ drop_return (d ∷ s)

unfoldable pub drop_returns : List Text → List Text
drop_returns [] = []
drop_returns (x ∷ []) = x ∷ []
drop_returns (x ∷ y ∷ xs) = drop_return x ∷ drop_returns (y ∷ xs)

unfoldable pub lines_of : Text → List Text
lines_of text = filter is_filled (drop_returns (split_at 10 text))

-- `Object.fromEntries(headers.map((header, index) => [header, columns[index] ?? '']))`
unfoldable pub entries_of : List Text → List Text → List (Text × Text)
entries_of [] columns = []
entries_of (h ∷ headers) [] = (h, []) ∷ entries_of headers []
entries_of (h ∷ headers) (c ∷ columns) = (h, c) ∷ entries_of headers columns

abbrev later_or : Option Text → Option Text → Option Text
later_or none first = first
later_or (some v) first = some v

-- The last entry with a key counts.
unfoldable pub entry_at : Text → List (Text × Text) → Option Text
entry_at key [] = none
entry_at key ((k, v) ∷ entries) =
    later_or (entry_at key entries) (if text_eq k key then some v else none)

-- `value || null`
abbrev pub filled_or_null : Option Text → Option Text
filled_or_null none = none
filled_or_null (some t) = if is_filled t then some t else none

-- The body of an update; `none` is null.
pub record StockUpdate : Type 0 where
  pub device_id : String
  pub serial_number : Option Text
  pub manufacturer : Option Text
  pub model_name : Option Text
  pub purchase_date : Option Text
  pub warranty_expires : Option Text
  pub location : Option Text
  pub assigned_to : Option Text
  pub asset_tag : Option Text

abbrev read_entry : List ℕ → List (Text × Text) → Option Text
read_entry key entries = filled_or_null (entry_at key entries)

-- The names of the columns that the import reads.
-- hostname
abbrev pub hostname_key : Text
hostname_key = 104 ∷ 111 ∷ 115 ∷ 116 ∷ 110 ∷ 97 ∷ 109 ∷ 101 ∷ []

-- serial
abbrev pub serial_key : Text
serial_key = 115 ∷ 101 ∷ 114 ∷ 105 ∷ 97 ∷ 108 ∷ []

-- manufacturer
abbrev pub manufacturer_key : Text
manufacturer_key = 109 ∷ 97 ∷ 110 ∷ 117 ∷ 102 ∷ 97 ∷ 99 ∷ 116 ∷ 117 ∷ 114 ∷ 101 ∷ 114 ∷ []

-- model
abbrev pub model_key : Text
model_key = 109 ∷ 111 ∷ 100 ∷ 101 ∷ 108 ∷ []

-- purchase_date
abbrev pub purchase_key : Text
purchase_key = 112 ∷ 117 ∷ 114 ∷ 99 ∷ 104 ∷ 97 ∷ 115 ∷ 101 ∷ 95 ∷ 100 ∷ 97 ∷ 116 ∷ 101 ∷ []

-- warranty_expires
abbrev pub warranty_key : Text
warranty_key =
    119 ∷ 97 ∷ 114 ∷ 114 ∷ 97 ∷ 110 ∷ 116 ∷ 121 ∷ 95 ∷ 101 ∷ 120 ∷ 112 ∷ 105 ∷ 114 ∷ 101 ∷ 115 ∷ []

-- location
abbrev pub location_key : Text
location_key = 108 ∷ 111 ∷ 99 ∷ 97 ∷ 116 ∷ 105 ∷ 111 ∷ 110 ∷ []

-- assigned_to
abbrev pub assigned_key : Text
assigned_key = 97 ∷ 115 ∷ 115 ∷ 105 ∷ 103 ∷ 110 ∷ 101 ∷ 100 ∷ 95 ∷ 116 ∷ 111 ∷ []

-- asset_tag
abbrev pub asset_key : Text
asset_key = 97 ∷ 115 ∷ 115 ∷ 101 ∷ 116 ∷ 95 ∷ 116 ∷ 97 ∷ 103 ∷ []

abbrev pub update_from : String → List (Text × Text) → StockUpdate
update_from id entries = record {
  device_id = id;
  serial_number = read_entry serial_key entries;
  manufacturer = read_entry manufacturer_key entries;
  model_name = read_entry model_key entries;
  purchase_date = read_entry purchase_key entries;
  warranty_expires = read_entry warranty_key entries;
  location = read_entry location_key entries;
  assigned_to = read_entry assigned_key entries;
  asset_tag = read_entry asset_key entries;
}

-- `entry.hostname === record.hostname`, where a missing column is no text.
abbrev pub same_name : Option Text → StockDevice → Bool
same_name none d = false
same_name (some name) d = text_eq d.hostname name

unfoldable pub find_device : Option Text → List StockDevice → Option StockDevice
find_device name [] = none
find_device name (d ∷ devices) =
    let rest = find_device name devices in if same_name name d then some d else rest

abbrev pub update_found : Option StockDevice → List (Text × Text) → List StockUpdate
update_found none entries = []
update_found (some d) entries = update_from d.id entries ∷ []

unfoldable pub import_rows : List StockDevice → List Text → List (List Text) → List StockUpdate
import_rows devices headers [] = []
import_rows devices headers (columns ∷ rows) =
    let entries = entries_of headers columns in
    update_found (find_device (entry_at hostname_key entries) devices) entries
    ++ import_rows devices headers rows

-- A file without a line has no header: an exception.
abbrev pub import_lines : List StockDevice → List Text → Option (List StockUpdate)
import_lines devices [] = none
import_lines devices (header_line ∷ rows) =
    some (import_rows devices (map trim (split_at b',' header_line)) (map (split_at b',') rows))

-- The updates that the import of a file sends, in their order, if each of them is answered.
unfoldable pub import_csv : List StockDevice → Text → Option (List StockUpdate)
import_csv devices text = import_lines devices (lines_of text)
