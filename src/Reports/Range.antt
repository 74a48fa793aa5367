-- ===== src/Reports/Range.antt =====
-- The hours that the reports' page asks the metrics of.
use dtsys.Prelude.{
  ℕ, ◌+◌, ◌-◌, ◌/◌, max, ◌*◌, ◌≤◌, ◌≡◌, ◌↔◌, refl, Bool, true, some, arith, leb, leb→le, &&-eq-true,
  ◌&&◌,
}
use dtsys.Reports.{hours_between}

-- The rule of the server (server/app/api/v1/metrics.py, `Query(24, ge=1, le=720)`).
abbrev pub is_taken : ℕ → Bool
is_taken hours = leb 1 hours && leb hours 720

abbrev pub hours_of : ℕ → ℕ → ℕ
hours_of start end = max 1 ((end - start + 3599999) / 3600000)

covered : (start end : ℕ) → end ≤ start + hours_of start end * 3600000
covered start end = omega arith

taken : (hours : ℕ) → 1 ≤ hours → hours ≤ 720 → is_taken hours ≡ true
taken hours l u = ground arith

within : (start end : ℕ) → end ≤ start + 2592000000 → hours_of start end ≤ 720
within start end h = omega arith

taken_iff : (start end : ℕ) → is_taken (hours_of start end) ≡ true ↔ end ≤ start + 2592000000
taken_iff start end = (
  λ h.
      let hours = hours_of start end in
      let (l, u) = &&-eq-true (leb 1 hours) (leb hours 720) h in
      omega (arith, leb→le hours 720 u, covered start end),
  λ h. taken (hours_of start end) (omega arith) (within start end h),
)

-- For every range with a start and an end, the page asks for a number of hours that covers the length of the
-- range, and the server takes that number exactly if the range is no longer than thirty days.
pub hours_between_lem :
    (start end : ℕ)
    → (hours : ℕ) × (hours_between (some start) (some end) ≡ some hours)
      × (end ≤ start + hours * 3600000)
      × (is_taken hours ≡ true ↔ end ≤ start + 2592000000)
hours_between_lem start end = (hours_of start end, refl, covered start end, taken_iff start end)
