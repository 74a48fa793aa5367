-- ===== src/Commands/Tests.antt =====
-- The theorems about the commands at concrete events.
use dtsys.Prelude.{◌≡◌, refl, List, [], ◌∷◌, length, none, some}
use dtsys.Commands.Bulk.{
  BarEvent, typed, submitted, quick, reboot, run, step, submit_shell_command, quick_action, mutate,
  first_bar, IsGuarded, run-IsGuarded,
}
use dtsys.Prelude.Text.{trim, trim_start, trim_end}
use dtsys.Commands.Panel.{Command, PanelEvent, listed, clicked, running, completed}

abbrev two_presses : List BarEvent
two_presses = typed (32 ∷ 108 ∷ 115 ∷ []) ∷ submitted ∷ quick reboot ∷ []

sent_once : length (run two_presses (first_bar ("one" ∷ "two" ∷ []))).sent ≡ 1
unfolding run step submit_shell_command quick_action mutate trim trim_start trim_end
sent_once = refl

run-IsGuarded_example : IsGuarded (run two_presses (first_bar ("one" ∷ "two" ∷ [])))
run-IsGuarded_example = run-IsGuarded ("one" ∷ "two" ∷ []) two_presses

abbrev started : Command
started = record { id = "c1"; command_type = "shell"; status = running; output = none }

abbrev watching : List PanelEvent
watching =
    listed (started ∷ [])
    ∷ clicked started
    ∷ listed (record started { status = completed; output = some "ok" } ∷ [])
    ∷ []
