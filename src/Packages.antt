-- ===== src/Packages.antt =====
-- The software of a device (frontend/src/components/device/SoftwareTable.tsx): the search with its timers, and
-- the page. Timers are in the order of their starts; as all of them wait for 300 ms, they fire in it.
pub mod Searches
mod Tests
use dtsys.Prelude.{
  ℕ, ◌+◌, ◌-◌, ◌*◌, ◌/◌, max, Bool, true, false, not, List, [], ◌∷◌, ◌++◌, Option, none, some, ◌==◌,
  if◌then◌else◌, filter, length,
}
use dtsys.Prelude.Text.{Text, is_filled}

pub record Timer : Type 0 where
  pub id : ℕ
  pub value : Text

-- `handle` is `_t` of the function that the last drawing has made.
pub record Packages : Type 0 where
  pub page : ℕ
  pub search : Text
  pub debounced_search : Text
  pub handle : Option ℕ
  pub timers : List Timer
  pub next_timer : ℕ

abbrev pub first_packages : Packages
first_packages = record {
  page = 1;
  search = [];
  debounced_search = [];
  handle = none;
  timers = [];
  next_timer = 0;
}

-- `clearTimeout(handle)`, which does nothing without one.
abbrev pub clear_handle : Option ℕ → List Timer → List Timer
clear_handle none timers = timers
clear_handle (some t) timers = filter (λ (u : Timer). not (u.id == t)) timers

-- handleSearchChange
unfoldable pub handle_search_change : Text → Packages → Packages
handle_search_change value s = record s {
  search = value;
  page = 1;
  timers = clear_handle s.handle s.timers ++ record { id = s.next_timer; value = value } ∷ [];
  handle = some s.next_timer;
  next_timer = s.next_timer + 1;
}

pub data PackagesEvent : Type 0 where
  text_changed : Text → PackagesEvent
  page_chosen : ℕ → PackagesEvent
  drawn timer_fired : PackagesEvent

abbrev fire_first : List Timer → Packages → Packages
fire_first [] s = s
fire_first (t ∷ timers) s = record s { debounced_search = t.value; timers = timers }

-- A drawing makes the function anew, without a handle.
unfoldable pub on_packages : PackagesEvent → Packages → Packages
on_packages (text_changed value) s = handle_search_change value s
on_packages (page_chosen page) s = record s { page = page }
on_packages drawn s = record s { handle = none }
on_packages timer_fired s = fire_first s.timers s

unfoldable pub run_packages : List PackagesEvent → Packages → Packages
run_packages [] s = s
run_packages (e ∷ es) s = run_packages es (on_packages e s)

-- `Math.max(1, Math.ceil(total / pageSize))`, with a hundred packages on a page.
abbrev pub package_pages : ℕ → ℕ
package_pages total = max 1 ((total + 99) / 100)

-- `skip` and `search` of the request.
abbrev pub skip_packages : Packages → ℕ
skip_packages s = (s.page - 1) * 100

abbrev pub search_or_undefined : Packages → Option Text
search_or_undefined s = if is_filled s.debounced_search then some s.debounced_search else none
