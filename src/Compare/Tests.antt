-- ===== src/Compare/Tests.antt =====
-- The comparison of two devices.
use dtsys.Prelude.{
  Option, some, drop, ◌≤◌, ◌≡◌, refl, true, false, List, [], ◌∷◌, none, take, length, All,
}
use dtsys.Prelude.Text.{Text, split_at, trim, trim_start, trim_end}
use dtsys.Compare.{Answers, compare_link, parse_ids, compare_rows, values_by_field}
use dtsys.Compare.Links.{IsPlainId, parse_ids-compare_link}
use dtsys.Prelude.Sets.{add_value, add_values}

abbrev answers : List Answers
answers =
    record {
      device = some record { id = "d1"; os_version = none; os_type = "linux" };
      uptime_secs = some (some 5);
      alert_count = some 2;
      update_flags = some (true ∷ false ∷ []);
    }
    ∷ record {
      device = some record { id = "d2"; os_version = some "linux"; os_type = "linux" };
      uptime_secs = none;
      alert_count = some 2;
      update_flags = none;
    }
    ∷ record { device = none; uptime_secs = none; alert_count = none; update_flags = none }
    ∷ []

two_columns : length (compare_rows answers) ≡ 2
unfolding compare_rows
two_columns = refl

uptime_differs : (values_by_field (compare_rows answers)).uptime ≡ 2
unfolding compare_rows values_by_field add_value add_values
uptime_differs = refl

-- " a,,b"
spaces_left_out : parse_ids (some (32 ∷ 97 ∷ 44 ∷ 44 ∷ 98 ∷ [])) ≡ (97 ∷ []) ∷ (98 ∷ []) ∷ []
unfolding parse_ids split_at trim trim_start trim_end
spaces_left_out = refl

abbrev ids : List Text
ids = (97 ∷ []) ∷ (98 ∷ []) ∷ []

ids-IsPlainId : All IsPlainId ids
ids-IsPlainId = (
  record { unreserved = (refl, tt); is_text = refl },
  (record { unreserved = (refl, tt); is_text = refl }, tt),
)

-- What stands behind the first thirteen units.
abbrev behind_prefix : Text → Option Text
behind_prefix link = some (drop 13 link)

parse_ids-compare_link_example :
    (parse_ids (behind_prefix (compare_link ids)) ≡ take 4 ids)
    × (length (parse_ids (behind_prefix (compare_link []))) ≤ 4)
parse_ids-compare_link_example =
    parse_ids-compare_link behind_prefix (λ t h. refl) ids (compare_link []) ids-IsPlainId
