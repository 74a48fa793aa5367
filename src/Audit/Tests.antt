-- ===== src/Audit/Tests.antt =====
-- The theorem about the live view at concrete events.
use dtsys.Prelude.{◌≡◌, refl, [], ◌∷◌, List, some, none}
use dtsys.Audit.{AuditEvent, live_pressed, left, message, run, step, handle, start_live, first_log}
use dtsys.Audit.Live.{IsLive, run-IsLive}

abbrev watched : List AuditEvent
watched =
    live_pressed
    ∷ message 0 (some record { id = "e1"; action = "login" })
    ∷ live_pressed
    ∷ message 0 none
    ∷ left
    ∷ []

none_left : (run watched first_log).opened ≡ []
unfolding run step handle start_live
none_left = refl

run-IsLive_example : IsLive (run watched first_log)
run-IsLive_example = run-IsLive watched
