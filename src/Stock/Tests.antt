-- ===== src/Stock/Tests.antt =====
-- The import of a concrete file.
use dtsys.Prelude.{◌≡◌, refl, List, [], ◌∷◌, none, some, map, All}
use dtsys.Prelude.Text.{Text, split_at, trim, trim_start, trim_end}
use dtsys.Prelude.Text.Split.{join_with}
use dtsys.Prelude.Text.Split.{IsFree}
use dtsys.Stock.Export.{
  ExportRow, IsPlain, header, line_of, export_file, updates_for, import_csv-export_file,
}
use dtsys.Stock.{
  StockDevice, StockUpdate, serial_key, hostname_key, entries_of, entry_at, find_device,
  import_rows, import_csv, lines_of, drop_returns,
}

abbrev device : StockDevice
device = record { id = "d1"; hostname = 112 ∷ 99 ∷ []; location = none }

-- " serial"
abbrev spaced_serial : Text
spaced_serial = 32 ∷ serial_key

abbrev headers : List Text
headers = hostname_key ∷ spaced_serial ∷ []

-- The serial number of a known device, and a row of an unknown one.
abbrev rows : List (List Text)
rows = ((112 ∷ 99 ∷ []) ∷ (55 ∷ []) ∷ []) ∷ ((120 ∷ []) ∷ (56 ∷ []) ∷ []) ∷ []

abbrev only_serial : StockUpdate
only_serial = record {
  device_id = "d1";
  serial_number = some (55 ∷ []);
  manufacturer = none;
  model_name = none;
  purchase_date = none;
  warranty_expires = none;
  location = none;
  assigned_to = none;
  asset_tag = none;
}

-- The columns that the file lacks are erased.
rows_sent : import_rows (device ∷ []) (map trim headers) rows ≡ only_serial ∷ []
unfolding import_rows entries_of entry_at find_device trim trim_start trim_end
rows_sent = refl

no_file : import_csv (device ∷ []) [] ≡ none
unfolding import_csv lines_of drop_returns split_at
no_file = refl

-- A row for the device, and one for a device that the page does not show.
abbrev first_row : ExportRow
first_row = record {
  hostname = 112 ∷ 99 ∷ [];
  label = [];
  os = [];
  ip = [];
  serial = 55 ∷ [];
  manufacturer = [];
  model = [];
  purchase_date = [];
  warranty_expires = [];
  location = [];
  assigned_to = [];
  asset_tag = [];
  status = [];
}

abbrev exported : List ExportRow
exported = first_row ∷ record first_row { hostname = 120 ∷ [] } ∷ []

exported-IsPlain : All IsPlain exported
exported-IsPlain = (
  plain_cells (112 ∷ 99 ∷ []) ((refl, (refl, tt))) ((refl, (refl, tt))),
  (plain_cells (120 ∷ []) (refl, tt) (refl, tt), tt),
)
  where
    plain_cells :
        (name : Text)
        → IsFree b',' name
        → IsFree 10 name
        → IsPlain (record first_row { hostname = name })
    plain_cells name h k = (
      (h, (tt, (tt, (tt, ((refl, tt), (tt, (tt, (tt, (tt, (tt, (tt, (tt, (tt, tt))))))))))))),
      (k, (tt, (tt, (tt, ((refl, tt), (tt, (tt, (tt, (tt, (tt, (tt, (tt, (tt, tt))))))))))))),
    )

import_csv-export_file_example :
    (lines_of (export_file exported) ≡ join_with b',' header ∷ map line_of exported)
    × (import_csv (device ∷ []) (export_file exported) ≡ some (updates_for (device ∷ []) exported))
import_csv-export_file_example = import_csv-export_file (device ∷ []) exported exported-IsPlain

exported_once : updates_for (device ∷ []) exported ≡ only_serial ∷ []
exported_once = refl
