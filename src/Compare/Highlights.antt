-- ===== src/Compare/Highlights.antt =====
-- What is highlighted.
use dtsys.Prelude.{◌≡◌, ◌↔◌, true, false, List, ◌==◌, ==_iff, str_eq, str_eq_iff, map}
use dtsys.Prelude.Sets.{IsUniform, size_of_set_lem}
use dtsys.Compare.{
  CompareRow, os_of, uptime_of, alert_count_of, software_of, values_by_field, is_highlighted,
}

-- With the difference highlight on, the operating system, the uptime, the number of alerts and the number of
-- packages are each left plain exactly if all compared devices have the same value.
pub values_by_field_lem :
    (rows : List CompareRow)
    → (is_highlighted true (values_by_field rows).os ≡ false ↔ IsUniform (map os_of rows))
      × (is_highlighted true (values_by_field rows).uptime ≡ false ↔ IsUniform (map uptime_of rows))
      × (is_highlighted true (values_by_field rows).alert_count ≡ false
          ↔ IsUniform (map alert_count_of rows))
      × (is_highlighted true (values_by_field rows).software_count ≡ false
          ↔ IsUniform (map software_of rows))
unfolding values_by_field
values_by_field_lem rows = (
  size_of_set_lem str_eq str_eq_iff (map os_of rows),
  size_of_set_lem (λ a b. a == b) ==_iff (map uptime_of rows),
  size_of_set_lem (λ a b. a == b) ==_iff (map alert_count_of rows),
  size_of_set_lem (λ a b. a == b) ==_iff (map software_of rows),
)
