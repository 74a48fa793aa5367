-- ===== src/Utils/Tests.antt =====
-- The theorems about the helpers at concrete inputs.
use dtsys.Prelude.{◌-◌, ℕ, ◌≡◌, ◌≢◌, List, [], ◌∷◌, some, none, arith}
use dtsys.Utils.Csv.{to_csv, read_csv, read_csv-to_csv}
use dtsys.Utils.Semver.{Num, Text}

-- A cell with a comma, a quote and a line end.
abbrev awkward : List ℕ
awkward = 44 ∷ 34 ∷ 10 ∷ []

read_csv-to_csv_example :
    read_csv (to_csv ((97 ∷ []) ∷ (98 ∷ []) ∷ []) ((awkward ∷ [] ∷ []) ∷ []))
    ≡ ((97 ∷ []) ∷ (98 ∷ []) ∷ []) ∷ (awkward ∷ [] ∷ []) ∷ []
read_csv-to_csv_example =
    read_csv-to_csv ((97 ∷ []) ∷ (98 ∷ []) ∷ []) ((awkward ∷ [] ∷ []) ∷ []) tt (tt, tt)

-- `Number`, on one digit.
abbrev number : Text → Num
number (c ∷ []) = some (c - 48)
number _ = none

-- 2.1.0 and 1.9.4
abbrev second : Text
second = 50 ∷ 46 ∷ 49 ∷ 46 ∷ 48 ∷ []

abbrev first : Text
first = 49 ∷ 46 ∷ 57 ∷ 46 ∷ 52 ∷ []

distinct : {c : ℕ} {s : Text} → (c ∷ s) ≢ []
distinct e = grind arith
