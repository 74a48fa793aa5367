-- ===== src/Stock/Export.antt =====
-- What the inventory's page makes of a file of the server's export (export_inventory_csv of
-- server/app/api/v1/inventory.py).
use dtsys.Prelude.{
  ◌≡◌, refl, sym, ap, ◌∙◌, true, List, [], ◌∷◌, ◌++◌, append_assoc, Option, none, some, filter, map,
  take, All, All-append, Bool-cases, inl, inr,
}
use dtsys.Prelude.Text.{Text, text_eq, split_at, trim, trim_start, trim_end, is_filled}
use dtsys.Prelude.Text.Split.{
  any→IsFree, IsFree, join_with, split_at-IsFree_append, split_at-join_with, join_with-IsFree,
}
use dtsys.Stock.{
  StockDevice, StockUpdate, drop_return, drop_returns, lines_of, entries_of, entry_at,
  filled_or_null, update_from, find_device, update_found, import_rows, import_csv, hostname_key,
  serial_key, manufacturer_key, model_key, purchase_key, warranty_key, location_key, assigned_key,
  asset_key,
}

-- A row of the export.
pub record ExportRow : Type 0 where
  pub hostname : Text
  pub label : Text
  pub os : Text
  pub ip : Text
  pub serial : Text
  pub manufacturer : Text
  pub model : Text
  pub purchase_date : Text
  pub warranty_expires : Text
  pub location : Text
  pub assigned_to : Text
  pub asset_tag : Text
  pub status : Text

abbrev pub cells : ExportRow → List Text
cells r =
    r.hostname ∷ r.label ∷ r.os ∷ r.ip ∷ r.serial ∷ r.manufacturer ∷ r.model ∷ r.purchase_date
    ∷ r.warranty_expires ∷ r.location ∷ r.assigned_to ∷ r.asset_tag ∷ r.status ∷ []

-- hostname, label, os, ip, serial, and so on, up to status.
abbrev pub header : List Text
header =
    hostname_key
    ∷ (108 ∷ 97 ∷ 98 ∷ 101 ∷ 108 ∷ [])
    ∷ (111 ∷ 115 ∷ [])
    ∷ (105 ∷ 112 ∷ [])
    ∷ serial_key
    ∷ manufacturer_key
    ∷ model_key
    ∷ purchase_key
    ∷ warranty_key
    ∷ location_key
    ∷ assigned_key
    ∷ asset_key
    ∷ (115 ∷ 116 ∷ 97 ∷ 116 ∷ 117 ∷ 115 ∷ [])
    ∷ []

-- csv.writer ends each line by a return and a line feed.
abbrev pub end_lines : List Text → Text
end_lines [] = []
end_lines (line ∷ lines) = line ++ 13 ∷ 10 ∷ end_lines lines

abbrev pub line_of : ExportRow → Text
line_of r = join_with b',' (cells r)

abbrev pub export_file : List ExportRow → Text
export_file rows = end_lines (join_with b',' header ∷ map line_of rows)

-- Cells that csv.writer does not quote.
abbrev pub IsPlain : ExportRow → Type 0
IsPlain r = All (IsFree b',') (cells r) × All (IsFree 10) (cells r)

-- An empty cell is null.
abbrev given : Text → Option Text
given [] = none
given (c ∷ t) = some (c ∷ t)

-- What is to be sent for a row and the device that it names.
abbrev pub update_for : ExportRow → StockDevice → StockUpdate
update_for r d = record {
  device_id = d.id;
  serial_number = given r.serial;
  manufacturer = given r.manufacturer;
  model_name = given r.model;
  purchase_date = given r.purchase_date;
  warranty_expires = given r.warranty_expires;
  location = given r.location;
  assigned_to = given r.assigned_to;
  asset_tag = given r.asset_tag;
}

-- For each row the first device of its name, if there is one.
abbrev pub updates_for : List StockDevice → List ExportRow → List StockUpdate
updates_for devices [] = []
updates_for devices (r ∷ rows) =
    map (update_for r)
      (take 1 (filter (λ (d : StockDevice). text_eq d.hostname r.hostname) devices))
    ++ updates_for devices rows

drop_return-append : (s : Text) → drop_return (s ++ 13 ∷ []) ≡ s
unfolding drop_return
drop_return-append [] = refl
drop_return-append (c ∷ []) = refl
drop_return-append (c ∷ d ∷ s) = ap (λ r. c ∷ r) (drop_return-append (d ∷ s))

split_at-end_lines :
    (lines : List Text)
    → All (IsFree 10) lines
    → split_at 10 (end_lines lines) ≡ map (λ line. line ++ 13 ∷ []) lines ++ [] ∷ []
unfolding split_at
split_at-end_lines [] h = refl
split_at-end_lines (line ∷ lines) h =
    ap (split_at 10) (sym (append_assoc line (13 ∷ []) (10 ∷ end_lines lines)))
    ∙ (split_at-IsFree_append 10 (line ++ 13 ∷ []) (end_lines lines)
          (All-append _ line (13 ∷ []) h.0 (refl, tt))
        ∙ ap (λ r. (line ++ 13 ∷ []) ∷ r) (split_at-end_lines lines h.1))

drop_returns-append :
    (lines : List Text)
    → drop_returns (map (λ line. line ++ 13 ∷ []) lines ++ [] ∷ []) ≡ lines ++ [] ∷ []
unfolding drop_returns
drop_returns-append [] = refl
drop_returns-append (line ∷ []) = rw (drop_return-append line) refl
drop_returns-append (line ∷ next ∷ lines) =
    rw (drop_return-append line, drop_returns-append (next ∷ lines)) refl

filter-append_nil :
    (lines : List Text)
    → All (λ line. is_filled line ≡ true) lines
    → filter is_filled (lines ++ [] ∷ []) ≡ lines
filter-append_nil [] h = refl
filter-append_nil (line ∷ lines) h = rw (h.0, filter-append_nil lines h.1) refl

-- The lines of a file are read back.
lines_of-end_lines :
    (lines : List Text)
    → All (IsFree 10) lines
    → All (λ line. is_filled line ≡ true) lines
    → lines_of (end_lines lines) ≡ lines
unfolding lines_of
lines_of-end_lines lines h k =
    ap (λ l. filter is_filled (drop_returns l)) (split_at-end_lines lines h)
    ∙ (ap (filter is_filled) (drop_returns-append lines) ∙ filter-append_nil lines k)

is_filled-join_with : (x y : Text) (xs : List Text) → is_filled (join_with b',' (x ∷ y ∷ xs)) ≡ true
unfolding join_with
is_filled-join_with [] y xs = refl
is_filled-join_with (c ∷ x) y xs = refl

lines-IsFree : (rows : List ExportRow) → All IsPlain rows → All (IsFree 10) (map line_of rows)
lines-IsFree [] h = tt
lines-IsFree (r ∷ rows) h = (join_with-IsFree b',' 10 (cells r) refl h.0.1, lines-IsFree rows h.1)

lines_filled : (rows : List ExportRow) → All (λ line. is_filled line ≡ true) (map line_of rows)
lines_filled [] = tt
lines_filled (r ∷ rows) = (is_filled-join_with r.hostname r.label _, lines_filled rows)

split_at-line_of :
    (rows : List ExportRow)
    → All IsPlain rows
    → map (split_at b',') (map line_of rows) ≡ map cells rows
split_at-line_of [] h = refl
split_at-line_of (r ∷ rows) h =
    rw (split_at-join_with b',' r.hostname _ h.0.0, split_at-line_of rows h.1) refl

header-IsFree : IsFree 10 (join_with b',' header)
unfolding join_with
header-IsFree = any→IsFree 10 (join_with b',' header) refl

header_read : map trim (split_at b',' (join_with b',' header)) ≡ header
unfolding join_with split_at trim trim_start trim_end
header_read = refl

filled_or_null-given : (t : Text) → filled_or_null (some t) ≡ given t
filled_or_null-given [] = refl
filled_or_null-given (c ∷ t) = refl

entries_hostname :
    (r : ExportRow) → entry_at hostname_key (entries_of header (cells r)) ≡ some r.hostname
unfolding entry_at entries_of
entries_hostname r = refl

update_from-entries_of :
    (r : ExportRow) (d : StockDevice)
    → update_from d.id (entries_of header (cells r)) ≡ update_for r d
unfolding entry_at entries_of
update_from-entries_of r d =
    rw
      (
        ← filled_or_null-given r.serial,
        ← filled_or_null-given r.manufacturer,
        ← filled_or_null-given r.model,
        ← filled_or_null-given r.purchase_date,
        ← filled_or_null-given r.warranty_expires,
        ← filled_or_null-given r.location,
        ← filled_or_null-given r.assigned_to,
        ← filled_or_null-given r.asset_tag,
      )
      refl

update_found-find_device :
    (r : ExportRow) (devices : List StockDevice)
    → update_found (find_device (some r.hostname) devices) (entries_of header (cells r))
      ≡ map
          (update_for r)
          (take 1 (filter (λ (d : StockDevice). text_eq d.hostname r.hostname) devices))
unfolding find_device
update_found-find_device r [] = refl
update_found-find_device r (d ∷ devices) = elim (Bool-cases (text_eq d.hostname r.hostname)) [
  | inl e ↦ rw e (ap (λ u. u ∷ []) (update_from-entries_of r d))
  | inr e ↦ rw e (update_found-find_device r devices)
]

import_rows-cells :
    (devices : List StockDevice) (rows : List ExportRow)
    → import_rows devices header (map cells rows) ≡ updates_for devices rows
unfolding import_rows
import_rows-cells devices [] = refl
import_rows-cells devices (r ∷ rows) =
    rw (entries_hostname r, update_found-find_device r devices, import_rows-cells devices rows) refl

-- A file of the server's export in which no cell is quoted, and so no cell has a comma or a line feed, is taken
-- apart into its lines without the returns and the line feeds at their ends. It is imported as one update for each row that names a device
-- of the page, in the order of the rows: it goes to the first device of the row's hostname and carries the
-- row's eight fields, an empty one as null.
pub import_csv-export_file :
    (devices : List StockDevice) (rows : List ExportRow)
    → All IsPlain rows
    → (lines_of (export_file rows) ≡ join_with b',' header ∷ map line_of rows)
      × (import_csv devices (export_file rows) ≡ some (updates_for devices rows))
unfolding import_csv
import_csv-export_file devices rows h =
    let lines : lines_of (export_file rows) ≡ join_with b',' header ∷ map line_of rows =
      lines_of-end_lines (join_with b',' header ∷ map line_of rows)
        (header-IsFree, lines-IsFree rows h)
        (is_filled-join_with hostname_key _ _, lines_filled rows) in
    (lines, rw (lines, header_read, split_at-line_of rows h, import_rows-cells devices rows) refl)
