-- ===== src/Processes/Order.antt =====
-- The order of the process table.
use mathlib.Core.List.{Perm}
use dtsys.Prelude.{ℕ, ◌≤◌, ◌⊎◌, inl, inr, ◌↔◌, Bool, true, false, List, filter, arith}
use dtsys.Prelude.Int.{ℤ, pos, ◌-ℤ◌, ◌≤ℤ◌, -ℤ_parts}
use dtsys.Prelude.Text.{Text}
use dtsys.Prelude.Sort.{
  IsComparator, IsOrdered, IsOrdered-map, sort_by, sort_by-Perm, sort_by-IsOrdered,
}
use dtsys.Processes.{
  SortKey, ProcessInfo, compare_processes, compare_values, string, number, is_found, rows,
}

-- Up the alphabet of `locale_compare`, or down it.
abbrev IsTextBefore : (Text → Text → ℤ) → Bool → Text → Text → Type 0
IsTextBefore locale_compare true s t = locale_compare t s ≤ℤ pos 0
IsTextBefore locale_compare false s t = locale_compare s t ≤ℤ pos 0

abbrev IsNumberBefore : Bool → ℕ → ℕ → Type 0
IsNumberBefore true a b = b ≤ a
IsNumberBefore false a b = a ≤ b

-- What the order of the table means for two of its rows.
abbrev pub IsBefore : (Text → Text → ℤ) → SortKey → Bool → ProcessInfo → ProcessInfo → Type 0
IsBefore locale_compare SortKey.pid descending p q = IsNumberBefore descending p.pid q.pid
IsBefore locale_compare SortKey.name descending p q =
    IsTextBefore locale_compare descending p.name q.name
IsBefore locale_compare SortKey.cpu_percent descending p q =
    IsNumberBefore descending p.cpu_percent q.cpu_percent
IsBefore locale_compare SortKey.mem_percent descending p q =
    IsNumberBefore descending p.mem_percent q.mem_percent
IsBefore locale_compare SortKey.status descending p q =
    IsTextBefore locale_compare descending p.status q.status

sub-le_iff : (a b : ℕ) → (pos a -ℤ pos b ≤ℤ pos 0) ↔ (a ≤ b)
sub-le_iff a b = ground (arith, -ℤ_parts (pos a) (pos b))

module _ (locale_compare : Text → Text → ℤ) where
  number_iff :
      (descending : Bool) (a b : ℕ)
      → (compare_values locale_compare descending (number a) (number b) ≤ℤ pos 0)
        ↔ IsNumberBefore descending a b
  number_iff true a b = sub-le_iff b a
  number_iff false a b = sub-le_iff a b

  text_iff :
      (descending : Bool) (s t : Text)
      → (compare_values locale_compare descending (string s) (string t) ≤ℤ pos 0)
        ↔ IsTextBefore locale_compare descending s t
  text_iff true s t = ((λ h. h), (λ h. h))
  text_iff false s t = ((λ h. h), (λ h. h))

  compare_iff :
      (key : SortKey) (descending : Bool) (p q : ProcessInfo)
      → (compare_processes locale_compare key descending p q ≤ℤ pos 0)
        ↔ IsBefore locale_compare key descending p q
  compare_iff SortKey.pid d p q = number_iff d p.pid q.pid
  compare_iff SortKey.name d p q = text_iff d p.name q.name
  compare_iff SortKey.cpu_percent d p q = number_iff d p.cpu_percent q.cpu_percent
  compare_iff SortKey.mem_percent d p q = number_iff d p.mem_percent q.mem_percent
  compare_iff SortKey.status d p q = text_iff d p.status q.status

  module _ (c : IsComparator locale_compare) where
    text_total :
        (d : Bool) (s t : Text)
        → IsTextBefore locale_compare d s t ⊎ IsTextBefore locale_compare d t s
    text_total true s t = c.total t s
    text_total false s t = c.total s t

    text_trans :
        (d : Bool) (s t u : Text)
        → IsTextBefore locale_compare d s t
        → IsTextBefore locale_compare d t u
        → IsTextBefore locale_compare d s u
    text_trans true s t u h k = c.trans u t s k h
    text_trans false s t u h k = c.trans s t u h k

    number_total : (d : Bool) (a b : ℕ) → IsNumberBefore d a b ⊎ IsNumberBefore d b a
    number_total true a b = ground arith
    number_total false a b = ground arith

    number_trans :
        (d : Bool) (a b e : ℕ) → IsNumberBefore d a b → IsNumberBefore d b e → IsNumberBefore d a e
    number_trans true a b e h k = omega arith
    number_trans false a b e h k = omega arith

    IsBefore-total :
        (key : SortKey) (d : Bool) (p q : ProcessInfo)
        → IsBefore locale_compare key d p q ⊎ IsBefore locale_compare key d q p
    IsBefore-total SortKey.pid d p q = number_total d p.pid q.pid
    IsBefore-total SortKey.name d p q = text_total d p.name q.name
    IsBefore-total SortKey.cpu_percent d p q = number_total d p.cpu_percent q.cpu_percent
    IsBefore-total SortKey.mem_percent d p q = number_total d p.mem_percent q.mem_percent
    IsBefore-total SortKey.status d p q = text_total d p.status q.status

    IsBefore-trans :
        (key : SortKey) (d : Bool) (p q r : ProcessInfo)
        → IsBefore locale_compare key d p q
        → IsBefore locale_compare key d q r
        → IsBefore locale_compare key d p r
    IsBefore-trans SortKey.pid d p q r = number_trans d p.pid q.pid r.pid
    IsBefore-trans SortKey.name d p q r = text_trans d p.name q.name r.name
    IsBefore-trans SortKey.cpu_percent d p q r =
        number_trans d p.cpu_percent q.cpu_percent r.cpu_percent
    IsBefore-trans SortKey.mem_percent d p q r =
        number_trans d p.mem_percent q.mem_percent r.mem_percent
    IsBefore-trans SortKey.status d p q r = text_trans d p.status q.status r.status

    compare-total :
        (key : SortKey) (d : Bool) (p q : ProcessInfo)
        → IsBefore locale_compare key d p q ⊎ IsBefore locale_compare key d q p
        → (compare_processes locale_compare key d p q ≤ℤ pos 0)
          ⊎ (compare_processes locale_compare key d q p ≤ℤ pos 0)
    compare-total key d p q (inl h) = inl ((compare_iff key d p q).1 h)
    compare-total key d p q (inr h) = inr ((compare_iff key d q p).1 h)

    compare_processes-IsComparator :
        (key : SortKey) (d : Bool) → IsComparator (compare_processes locale_compare key d)
    compare_processes-IsComparator key d = record {
      total = λ p q. compare-total key d p q (IsBefore-total key d p q);
      trans = λ p q r h k.
          (compare_iff key d p r).1 (
            IsBefore-trans key d p q r ((compare_iff key d p q).0 h) ((compare_iff key d q r).0 k));
    }

  -- Where localeCompare is a total order, the table shows the processes whose name holds the searched
  -- text, each as often as the agent reported it, and every row stands before those below it in the
  -- order of the chosen header, up or down.
  pub rows_lem :
      (c : IsComparator locale_compare) (to_lower_case : Text → Text) (search : Text)
      (key : SortKey) (descending : Bool) (processes : List ProcessInfo)
      → Perm
          (rows locale_compare to_lower_case search key descending processes)
          (filter (is_found to_lower_case search) processes)
        × IsOrdered
            (IsBefore locale_compare key descending)
            (rows locale_compare to_lower_case search key descending processes)
  unfolding rows
  rows_lem c to_lower_case search key descending processes =
      let found = filter (is_found to_lower_case search) processes in
      let order = compare_processes locale_compare key descending in
      (
        sort_by-Perm order found,
        IsOrdered-map (λ p q. (compare_iff key descending p q).0) (sort_by order found)
            (sort_by-IsOrdered order (compare_processes-IsComparator c key descending) found),
      )
