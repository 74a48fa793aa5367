-- ===== src/Utils/Csv.antt =====
-- The text of an exported table (frontend/src/utils/export.ts), as UTF-16 code units, and a reader of
-- quoted CSV to hold it against.
use dtsys.Prelude.{
  ==_iff, ℕ, ◌≡◌, refl, ◌∙◌, sym, ap, false, List, [], ◌∷◌, ◌++◌, append_assoc, append-nil, map,
  ◌==◌, All, inl, inr, Bool-cases, if◌then◌else◌,
}
use dtsys.Prelude.Text.Split.{join_with}
pub use dtsys.Prelude.Text.{Text}

abbrev pub quote : ℕ
quote = 34

abbrev pub comma : ℕ
comma = 44

abbrev pub newline : ℕ
newline = 10

-- `value.replace(/"/g, '""')`
unfoldable pub double_quotes : Text → Text
double_quotes [] = []
double_quotes (c ∷ s) =
    let rest = double_quotes s in if c == quote then quote ∷ quote ∷ rest else c ∷ rest

unfoldable pub escape_csv : Text → Text
escape_csv value = quote ∷ (double_quotes value ++ quote ∷ [])

unfoldable pub csv_row : List Text → Text
csv_row cells = join_with comma (map escape_csv cells)

unfoldable pub to_csv : List Text → List (List Text) → Text
to_csv headers rows = join_with newline (csv_row headers ∷ map csv_row rows)

-- The reader: before a cell, inside its quotes, or behind a quote that may close it.
pub data Mode : Type 0 where
  outside inside closing : Mode

pub record Reader : Type 0 where
  pub mode : Mode
  pub cell : Text
  pub row : List Text
  pub rows : List (List Text)

-- What a character outside the quotes does.
abbrev end_of : ℕ → Reader → Reader
end_of c r =
    if c == comma
    then record r { mode = outside; cell = []; row = r.row ++ r.cell ∷ [] }
    else if c == newline
    then record r {
      mode = outside;
      cell = [];
      row = [];
      rows = r.rows ++ (r.row ++ r.cell ∷ []) ∷ [];
    }
    else r

read_char : ℕ → Mode → Reader → Reader
read_char c outside r = if c == quote then record r { mode = inside } else end_of c r
read_char c inside r =
    if c == quote then record r { mode = closing } else record r { cell = r.cell ++ c ∷ [] }
read_char c closing r =
    if c == quote then record r { mode = inside; cell = r.cell ++ quote ∷ [] } else end_of c r

read_text : Text → Reader → Reader
read_text [] r = r
read_text (c ∷ s) r = read_text s (read_char c r.mode r)

abbrev empty_reader : Reader
empty_reader = record { mode = outside; cell = []; row = []; rows = [] }

-- The rows of cells of a text.
pub read_csv : Text → List (List Text)
read_csv s = let r = read_text s empty_reader in r.rows ++ (r.row ++ r.cell ∷ []) ∷ []

read_text-append : (s t : Text) (r : Reader) → read_text (s ++ t) r ≡ read_text t (read_text s r)
unfolding read_text
read_text-append [] t r = refl
read_text-append (c ∷ s) t r = read_text-append s t (read_char c r.mode r)

-- Inside a cell, with this much of it read.
abbrev at_cell : Mode → Text → List Text → List (List Text) → Reader
at_cell m cell row rows = record { mode = m; cell = cell; row = row; rows = rows }

read_char-inside :
    (c : ℕ) (r : Reader)
    → (c == quote) ≡ false
    → read_char c inside r ≡ record r { cell = r.cell ++ c ∷ [] }
unfolding read_char
read_char-inside c r n = rw n refl

read_text-comma :
    (s x : Text) (row : List Text) (rows : List (List Text))
    → read_text (comma ∷ s) (at_cell closing x row rows)
      ≡ read_text s (at_cell outside [] (row ++ x ∷ []) rows)
unfolding read_text read_char
read_text-comma s x row rows = refl

read_text-newline :
    (s x : Text) (row : List Text) (rows : List (List Text))
    → read_text (newline ∷ s) (at_cell closing x row rows)
      ≡ read_text s (at_cell outside [] [] (rows ++ (row ++ x ∷ []) ∷ []))
unfolding read_text read_char
read_text-newline s x row rows = refl

read_text-double_quotes :
    (v cell : Text) (row : List Text) (rows : List (List Text))
    → read_text (double_quotes v) (at_cell inside cell row rows)
      ≡ at_cell inside (cell ++ v) row rows
unfolding read_text double_quotes read_char
read_text-double_quotes [] cell row rows =
    ap (λ x. at_cell inside x row rows) (sym (append-nil cell))
read_text-double_quotes (c ∷ v) cell row rows = elim (Bool-cases (c == quote)) [
  | inl q ↦ rw q (
      read_text-double_quotes v (cell ++ quote ∷ []) row rows
      ∙ ap (λ x. at_cell inside x row rows)
          (append_assoc cell (quote ∷ []) v ∙ ap (λ x. cell ++ x ∷ v) (sym ((==_iff c quote).0 q))))
  | inr n ↦ rw n (
      ap (read_text (double_quotes v)) (read_char-inside c (at_cell inside cell row rows) n)
      ∙ (read_text-double_quotes v (cell ++ c ∷ []) row rows
          ∙ ap (λ x. at_cell inside x row rows) (append_assoc cell (c ∷ []) v)))
]

read_text-escape_csv :
    (v : Text) (row : List Text) (rows : List (List Text))
    → read_text (escape_csv v) (at_cell outside [] row rows) ≡ at_cell closing v row rows
unfolding escape_csv
read_text-escape_csv v row rows =
    read_text-append (quote ∷ double_quotes v) (quote ∷ []) (at_cell outside [] row rows)
    ∙ unfold read_text read_char in
      ap (λ (r : Reader). read_text (quote ∷ []) r) (read_text-double_quotes v [] row rows)

-- After the cells of a row the reader holds the last of them, and the others in the row.
abbrev EndsRow : List Text → List (List Text) → Reader → Type 0
EndsRow cells rows r =
    (before : List Text) × (last : Text) × (r ≡ at_cell closing last before rows)
    × (before ++ last ∷ [] ≡ cells)

read_text-csv_row :
    (x : Text) (xs : List Text) (row : List Text) (rows : List (List Text))
    → EndsRow (row ++ x ∷ xs) rows (read_text (csv_row (x ∷ xs)) (at_cell outside [] row rows))
unfolding csv_row join_with
read_text-csv_row x [] row rows = (row, x, read_text-escape_csv x row rows, refl)
read_text-csv_row x (y ∷ ys) row rows =
    let (before, last, e, whole) = read_text-csv_row y ys (row ++ x ∷ []) rows in
    (
      before,
      last,
      read_text-append (escape_csv x) (comma ∷ csv_row (y ∷ ys)) (at_cell outside [] row rows)
          ∙ (ap (read_text (comma ∷ csv_row (y ∷ ys))) (read_text-escape_csv x row rows)
              ∙ (read_text-comma (csv_row (y ∷ ys)) x row rows ∙ e)),
      whole ∙ append_assoc row (x ∷ []) (y ∷ ys),
    )

-- At least one cell.
abbrev pub IsFilled : List Text → Type 0
IsFilled [] = ⊥
IsFilled (x ∷ xs) = Unit {0}

finish : Reader → List (List Text)
finish r = r.rows ++ (r.row ++ r.cell ∷ []) ∷ []

finish-EndsRow :
    (cells : List Text) (rows : List (List Text)) (r : Reader)
    → EndsRow cells rows r
    → finish r ≡ rows ++ cells ∷ []
unfolding finish
finish-EndsRow cells rows r (before, last, e, whole) = rw e (ap (λ x. rows ++ x ∷ []) whole)

read_text-to_csv :
    (headers : List Text) (table : List (List Text)) (rows : List (List Text))
    → IsFilled headers
    → All IsFilled table
    → finish (read_text (to_csv headers table) (at_cell outside [] [] rows))
      ≡ rows ++ headers ∷ table
unfolding to_csv join_with
read_text-to_csv (x ∷ xs) [] rows h hs =
    finish-EndsRow (x ∷ xs) rows _ (read_text-csv_row x xs [] rows)
read_text-to_csv (x ∷ xs) (next ∷ table) rows h hs =
    let (before, last, e, whole) = read_text-csv_row x xs [] rows in
    ap finish (
      read_text-append (csv_row (x ∷ xs)) (newline ∷ to_csv next table) (at_cell outside [] [] rows)
      ∙ (ap (read_text (newline ∷ to_csv next table)) e
          ∙ (read_text-newline (to_csv next table) last before rows
              ∙ ap (λ r. read_text (to_csv next table) (at_cell outside [] [] (rows ++ r ∷ [])))
                  whole)))
    ∙ (read_text-to_csv next table (rows ++ (x ∷ xs) ∷ []) hs.0 hs.1
        ∙ append_assoc rows ((x ∷ xs) ∷ []) (next ∷ table))
read_text-to_csv [] table rows h hs = absurd h

-- A reader of quoted CSV gets back every cell of an exported table, commas, quotes and line ends in
-- the cells included, if each row has a cell.
pub read_csv-to_csv :
    (headers : List Text) (table : List (List Text))
    → IsFilled headers
    → All IsFilled table
    → read_csv (to_csv headers table) ≡ headers ∷ table
unfolding read_csv finish
read_csv-to_csv headers table h hs = read_text-to_csv headers table [] h hs
