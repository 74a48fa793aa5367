-- ===== src/Handheld/Alarms.antt =====
-- The alerts of the mobile application: their order, and the figures at the devices.
use mathlib.Core.List.{Perm}
use dtsys.Prelude.{
  ℕ, suc, ◌+◌, ◌≤◌, ◌<◌, ◌≡◌, ◌≢◌, refl, ◌⊎◌, inl, inr, ◌↔◌, String, List, [], ◌∷◌, arith, ◌==◌,
  str_eq, str_eq_iff, if◌then◌else◌, filter, length,
}
use dtsys.Prelude.Int.{pos, ◌-ℤ◌, ◌≤ℤ◌, -ℤ_parts}
use dtsys.Prelude.Sort.{
  IsComparator, IsOrdered, IsOrdered-map, sort_by, sort_by-Perm, sort_by-IsOrdered,
}
use dtsys.Handheld.{
  AlertItem, severity_order, same_order, compare_alerts, sorted_alerts, Count, add_count,
  count_alerts, count_of,
}

-- A severity without a place of its own.
abbrev pub IsOther : String → Type 0
IsOther s = (s ≢ "critical") × (s ≢ "warning") × (s ≢ "info")

-- Critical, then warning, then info, then any other.
abbrev pub IsAbove : String → String → Type 0
IsAbove s t =
    ((s ≡ "critical") × (t ≢ "critical"))
    ⊎ ((s ≡ "warning") × (t ≢ "critical") × (t ≢ "warning"))
    ⊎ ((s ≡ "info") × IsOther t)

abbrev pub IsAlike : String → String → Type 0
IsAlike s t = (s ≡ t) ⊎ (IsOther s × IsOther t)

-- More severe, or as severe and no older.
abbrev pub IsBefore : AlertItem → AlertItem → Type 0
IsBefore a b =
    IsAbove a.severity b.severity ⊎ (IsAlike a.severity b.severity × (b.created_at ≤ a.created_at))

-- The order by the numbers of the table.
abbrev IsRanked : AlertItem → AlertItem → Type 0
IsRanked a b =
    (severity_order a.severity < severity_order b.severity)
    ⊎ ((severity_order a.severity ≡ severity_order b.severity) × (b.created_at ≤ a.created_at))

-- The comparator on the numbers that it reads.
compare_numbers :
    (s t m n : ℕ)
    → (same_order (s == t) (pos n -ℤ pos m) (pos s -ℤ pos t) ≤ℤ pos 0)
      ↔ ((s < t) ⊎ ((s ≡ t) × (n ≤ m)))
compare_numbers s t m n = ground (arith, -ℤ_parts (pos n) (pos m), -ℤ_parts (pos s) (pos t))

compare_iff : (a b : AlertItem) → (compare_alerts a b ≤ℤ pos 0) ↔ IsRanked a b
unfolding compare_alerts
compare_iff a b =
    compare_numbers (severity_order a.severity) (severity_order b.severity) a.created_at
      b.created_at

total_numbers : (s t m n : ℕ) → ((s < t) ⊎ ((s ≡ t) × (n ≤ m))) ⊎ ((t < s) ⊎ ((t ≡ s) × (m ≤ n)))
total_numbers s t m n = ground arith

trans_numbers :
    (s t u m n k : ℕ)
    → (s < t) ⊎ ((s ≡ t) × (n ≤ m))
    → (t < u) ⊎ ((t ≡ u) × (k ≤ n))
    → (s < u) ⊎ ((s ≡ u) × (k ≤ m))
trans_numbers s t u m n k h g = ground arith

compare_total :
    (a b : AlertItem)
    → IsRanked a b ⊎ IsRanked b a
    → (compare_alerts a b ≤ℤ pos 0) ⊎ (compare_alerts b a ≤ℤ pos 0)
compare_total a b (inl h) = inl ((compare_iff a b).1 h)
compare_total a b (inr h) = inr ((compare_iff b a).1 h)

compare_alerts-IsComparator : IsComparator compare_alerts
compare_alerts-IsComparator = record {
  total = λ a b. compare_total a b (
      total_numbers (severity_order a.severity) (severity_order b.severity) a.created_at
        b.created_at);
  trans = λ a b c h k. (compare_iff a c).1 (
      trans_numbers (severity_order a.severity) (severity_order b.severity)
        (severity_order c.severity) a.created_at b.created_at c.created_at ((compare_iff a b).0 h)
        ((compare_iff b c).0 k));
}

order-IsAbove : (s t : String) → severity_order s < severity_order t → IsAbove s t
order-IsAbove s t h = ground (
  arith,
  str_eq_iff s "critical",
  str_eq_iff t "critical",
  str_eq_iff s "warning",
  str_eq_iff t "warning",
  str_eq_iff s "info",
  str_eq_iff t "info",
)

order-IsAlike : (s t : String) → severity_order s ≡ severity_order t → IsAlike s t
order-IsAlike s t h = ground (
  arith,
  str_eq_iff s "critical",
  str_eq_iff t "critical",
  str_eq_iff s "warning",
  str_eq_iff t "warning",
  str_eq_iff s "info",
  str_eq_iff t "info",
)

IsRanked-IsBefore : (a b : AlertItem) → IsRanked a b → IsBefore a b
IsRanked-IsBefore a b (inl h) = inl (order-IsAbove a.severity b.severity h)
IsRanked-IsBefore a b (inr (e, h)) = inr (order-IsAlike a.severity b.severity e, h)

-- The alerts' screen of the mobile application lists the alerts that it was given, each as often as it was:
-- the critical ones first, then the warnings, then the infos, then those of any other severity, and the
-- newer first among those of one of these four kinds.
pub sorted_alerts_lem :
    (alerts : List AlertItem)
    → Perm (sorted_alerts alerts) alerts × IsOrdered IsBefore (sorted_alerts alerts)
unfolding sorted_alerts
sorted_alerts_lem alerts = (
  sort_by-Perm compare_alerts alerts,
  IsOrdered-map (λ a b h. IsRanked-IsBefore a b ((compare_iff a b).0 h))
      (sort_by compare_alerts alerts)
      (sort_by-IsOrdered compare_alerts compare_alerts-IsComparator alerts),
)

count_of-add_count :
    (id key : String) (counts : List Count)
    → count_of id (add_count key counts)
      ≡ (if str_eq key id then suc (count_of id counts) else count_of id counts)
unfolding count_of add_count
count_of-add_count id key [] = refl
count_of-add_count id key (c ∷ counts) = ground (
  arith,
  str_eq_iff key id,
  str_eq_iff c.device_id key,
  str_eq_iff c.device_id id,
  count_of-add_count id key counts,
)

abbrev pub alerts_of : String → List AlertItem → List AlertItem
alerts_of id alerts = filter (λ (a : AlertItem). str_eq a.device_id id) alerts

count_from :
    (id : String) (alerts : List AlertItem) (counts : List Count)
    → count_of id (count_alerts alerts counts) ≡ count_of id counts + length (alerts_of id alerts)
unfolding count_alerts
count_from id [] counts = omega arith
count_from id (a ∷ alerts) counts = ground (
  arith,
  count_from id alerts (add_count a.device_id counts),
  count_of-add_count id a.device_id counts,
)

-- The figure at a device is the number of the alerts of that device.
pub count_of-count_alerts :
    (id : String) (alerts : List AlertItem)
    → count_of id (count_alerts alerts []) ≡ length (alerts_of id alerts)
unfolding count_of
count_of-count_alerts id alerts = omega (arith, count_from id alerts [])
