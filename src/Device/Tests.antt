-- ===== src/Device/Tests.antt =====
-- The theorems about the device page at concrete events.
use dtsys.Prelude.{◌≡◌, refl, List, [], ◌∷◌, some, none, true, false}
use dtsys.Prelude.Text.{Text}
use dtsys.Device.{
  UptimeEvent, CaptureEvent, requested, answered, idle, run, step, finish, set_capturing,
  start_timer, stop_timer, build_segments, add_events, add_downtime, emerald, amber,
}
use dtsys.Device.Timing.{IsSound, run-IsAwaited}

-- An old picture, a request, and a picture that is new enough.
abbrev taking : List CaptureEvent
taking = answered (some 100) ∷ requested 5000 ∷ answered (some 6000) ∷ []

taken : (run taking idle).is_capturing ≡ false
unfolding run step finish set_capturing start_timer stop_timer
taken = refl

run-IsAwaited_example : IsSound (run (answered (some 100) ∷ requested 5000 ∷ []) idle)
run-IsAwaited_example = run-IsAwaited (answered (some 100) ∷ requested 5000 ∷ [])

abbrev days : List Text
days = (49 ∷ []) ∷ (50 ∷ []) ∷ []

abbrev outages : List UptimeEvent
outages =
    record { is_online = true; day = 50 ∷ []; duration_secs = some 43200 }
    ∷ record { is_online = false; day = 50 ∷ []; duration_secs = none }
    ∷ []

half_a_day :
    build_segments days outages
    ≡ record { date = 49 ∷ []; percent = 100; tone = emerald }
      ∷ record { date = 50 ∷ []; percent = 50; tone = amber }
      ∷ []
unfolding build_segments add_events add_downtime
half_a_day = refl
