-- ===== src/Overview/Tests.antt =====
-- The theorem about the selection at concrete events.
use dtsys.Prelude.{◌≡◌, refl, List, [], ◌∷◌, none}
use dtsys.Types.{online}
use dtsys.Overview.{
  ListedDevice, ListEvent, listed, toggled, run, step, handle, settle, toggle_selected,
  first_overview,
}
use dtsys.Overview.Choice.{IsChosen, run-IsChosen}

abbrev first : ListedDevice
first = record {
  id = "one";
  hostname = 97 ∷ [];
  label = none;
  ip_address = none;
  status = online;
  tags = [];
}

abbrev second : ListedDevice
second = record first { id = "two" }

abbrev ticked : List ListEvent
ticked =
    listed (first ∷ second ∷ [])
    ∷ toggled first
    ∷ toggled second
    ∷ toggled first
    ∷ toggled first
    ∷ listed (first ∷ [])
    ∷ []

one_left : (run ticked first_overview).selected_ids ≡ "one" ∷ []
unfolding run step handle settle toggle_selected
one_left = refl

run-IsChosen_example : IsChosen (run ticked first_overview)
run-IsChosen_example = run-IsChosen ticked
