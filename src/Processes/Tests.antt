-- ===== src/Processes/Tests.antt =====
-- The theorems about the process table at concrete processes.
use mathlib.Core.List.{Perm}
use dtsys.Prelude.{◌≡◌, refl, true, false, [], ◌∷◌, filter, arith, ◌⊎◌}
use dtsys.Prelude.Int.{ℤ, pos, ◌-ℤ◌, ◌≤ℤ◌, -ℤ_parts}
use dtsys.Prelude.Text.{Text}
use dtsys.Prelude.Sort.{IsOrdered, IsComparator, sort_by}
use dtsys.Prelude.{length}
use dtsys.Processes.{ProcessInfo, pid, cpu_percent, is_found, rows}
use dtsys.Processes.Order.{IsBefore, rows_lem}

-- Texts by their length, a coarse order.
abbrev by_length : Text → Text → ℤ
by_length s t = pos (length s) -ℤ pos (length t)

by_length-total : (s t : Text) → (by_length s t ≤ℤ pos 0) ⊎ (by_length t s ≤ℤ pos 0)
by_length-total s t =
    ground (
      arith,
      -ℤ_parts (pos (length s)) (pos (length t)),
      -ℤ_parts (pos (length t)) (pos (length s)),
    )

by_length-trans :
    (s t u : Text) → by_length s t ≤ℤ pos 0 → by_length t u ≤ℤ pos 0 → by_length s u ≤ℤ pos 0
by_length-trans s t u h k = ground (
  arith,
  -ℤ_parts (pos (length s)) (pos (length t)),
  -ℤ_parts (pos (length t)) (pos (length u)),
  -ℤ_parts (pos (length s)) (pos (length u)),
)

by_length-IsComparator : IsComparator by_length
by_length-IsComparator = record { total = by_length-total; trans = by_length-trans }

abbrev shell : ProcessInfo
shell = record { pid = 3; name = 115 ∷ 104 ∷ []; cpu_percent = 2; mem_percent = 1; status = [] }

abbrev server : ProcessInfo
server = record { pid = 8; name = 115 ∷ []; cpu_percent = 40; mem_percent = 9; status = [] }

busiest_first :
    rows by_length (λ s. s) (115 ∷ []) cpu_percent true (shell ∷ server ∷ []) ≡ server ∷ shell ∷ []
unfolding rows sort_by ◌-ℤ◌
busiest_first = refl

rows_lem_example :
    Perm
      (rows by_length (λ s. s) (115 ∷ []) pid false (server ∷ shell ∷ []))
      (filter (is_found (λ s. s) (115 ∷ [])) (server ∷ shell ∷ []))
    × IsOrdered
        (IsBefore by_length pid false)
        (rows by_length (λ s. s) (115 ∷ []) pid false (server ∷ shell ∷ []))
rows_lem_example =
    rows_lem by_length by_length-IsComparator (λ s. s) (115 ∷ []) pid false (server ∷ shell ∷ [])
