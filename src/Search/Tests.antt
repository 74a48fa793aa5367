-- ===== src/Search/Tests.antt =====
-- The theorems about the search overlay at concrete events.
use dtsys.Prelude.{◌≡◌, refl, List, [], ◌∷◌, some, true}
use dtsys.Prelude.Text.{trim, trim_start, trim_end}
use dtsys.Search.{
  Overlay, OverlayEvent, opened_or_closed, typed, pressed, fired, closed, run, arrow_up, enter,
  results, step, handle, restart, set_open, set_query, fire_timer, on_list_key, handle_select,
  settle, device_page,
}
use dtsys.Search.Selection.{IsSound, run-IsSound}

abbrev session : List OverlayEvent
session =
    opened_or_closed true
    ∷ typed (32 ∷ 100 ∷ 98 ∷ [])
    ∷ fired 1 (record { id = "one" } ∷ record { id = "two" } ∷ []) []
    ∷ pressed arrow_up
    ∷ pressed enter
    ∷ []

session_lem :
    (run session closed) ≡ some (record closed { visited = device_page "two" ∷ []; next_timer = 2 })
unfolding run step handle restart set_open set_query fire_timer on_list_key handle_select settle
    results trim trim_start trim_end
session_lem = refl

run-IsSound_example : (r : Overlay) × (run session closed ≡ some r) × IsSound r
run-IsSound_example = run-IsSound session

abbrev two_found : Overlay
two_found = record closed { devices = record { id = "one" } ∷ record { id = "two" } ∷ [] }
