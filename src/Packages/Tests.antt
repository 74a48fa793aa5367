-- ===== src/Packages/Tests.antt =====
-- Three keys within 300 ms.
use dtsys.Prelude.{◌≡◌, refl, List, [], ◌∷◌, length}
use dtsys.Packages.{
  PackagesEvent, text_changed, drawn, first_packages, handle_search_change, on_packages,
  run_packages,
}
use dtsys.Packages.Searches.{final_search, run_packages_lem}

abbrev three_keys : List PackagesEvent
three_keys =
    text_changed (99 ∷ [])
    ∷ drawn
    ∷ text_changed (99 ∷ 117 ∷ [])
    ∷ drawn
    ∷ text_changed (99 ∷ 117 ∷ 114 ∷ [])
    ∷ drawn
    ∷ []

-- No timer is cleared, so the table is searched three times.
three_timers : length (run_packages three_keys first_packages).timers ≡ 3
unfolding run_packages on_packages handle_search_change
three_timers = refl

run_packages_lem_example :
    final_search
      (run_packages three_keys first_packages).timers
      (run_packages three_keys first_packages).debounced_search
    ≡ (run_packages three_keys first_packages).search
run_packages_lem_example = run_packages_lem three_keys
