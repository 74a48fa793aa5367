-- ===== src/Packages/Searches.antt =====
-- What the table is searched for in the end.
use dtsys.Prelude.{◌≡◌, refl, List, [], ◌∷◌, ◌++◌}
use dtsys.Prelude.Text.{Text}
use dtsys.Packages.{
  Timer, Packages, first_packages, clear_handle, handle_search_change, PackagesEvent, text_changed,
  page_chosen, drawn, timer_fired, fire_first, on_packages, run_packages,
}

-- The text that is searched for when all timers have fired.
abbrev pub final_search : List Timer → Text → Text
final_search [] current = current
final_search (t ∷ timers) current = final_search timers t.value

final_search-append :
    (timers : List Timer) (t : Timer) (current : Text)
    → final_search (timers ++ t ∷ []) current ≡ t.value
final_search-append [] t current = refl
final_search-append (u ∷ timers) t current = final_search-append timers t u.value

abbrev IsAwaitedIn : Packages → Type 0
IsAwaitedIn s = final_search s.timers s.debounced_search ≡ s.search

on_packages-IsAwaitedIn :
    (e : PackagesEvent) (s : Packages) → IsAwaitedIn s → IsAwaitedIn (on_packages e s)
unfolding on_packages handle_search_change
on_packages-IsAwaitedIn (text_changed value) s h =
    final_search-append (clear_handle s.handle s.timers)
      (record { id = s.next_timer; value = value }) s.debounced_search
on_packages-IsAwaitedIn (page_chosen page) s h = h
on_packages-IsAwaitedIn drawn s h = h
on_packages-IsAwaitedIn timer_fired s h = go s.timers h
  where
    go :
        (timers : List Timer)
        → final_search timers s.debounced_search ≡ s.search
        → final_search (fire_first timers s).timers (fire_first timers s).debounced_search
          ≡ (fire_first timers s).search
    go [] k = h
    go (t ∷ timers) k = k

run_from :
    (es : List PackagesEvent) (s : Packages) → IsAwaitedIn s → IsAwaitedIn (run_packages es s)
unfolding run_packages
run_from [] s h = h
run_from (e ∷ es) s h = run_from es (on_packages e s) (on_packages-IsAwaitedIn e s h)

-- Over every run, when the timers that are running have fired, the table is searched for the text that stands in
-- the field; in particular it is, when none is running.
pub run_packages_lem :
    (es : List PackagesEvent)
    → final_search
        (run_packages es first_packages).timers
        (run_packages es first_packages).debounced_search
      ≡ (run_packages es first_packages).search
run_packages_lem es = run_from es first_packages refl
