-- ===== src/Widgets/Tests.antt =====
-- The theorems about the dashboard's layout at concrete inputs.
use dtsys.Prelude.{true, false, List, [], ◌∷◌, none, some, str_eq, if◌then◌else◌}
use dtsys.Prelude.Storage.{get_item}
use dtsys.Widgets.{
  Json, Board, Action, edit_toggled, picker_opened, saved, drag_started, dropped_on, removed,
  resized, added, default_layout, parse_layout, read_layout, run_board, open_board,
}
use dtsys.Widgets.Layout.{IsTidy, run_board-IsTidy, default_layout-IsTidy}

-- A printer of one text, and its parser.
abbrev json : Json
json = record {
  parse = λ text. if str_eq text "default" then some default_layout else none;
  stringify = λ layout. "default";
}

abbrev actions : List Action
actions =
    edit_toggled
    ∷ drag_started "device-count"
    ∷ dropped_on "alerts"
    ∷ removed "alerts"
    ∷ picker_opened
    ∷ added "alerts"
    ∷ resized "alerts"
    ∷ saved
    ∷ []

abbrev board : Board
board = record {
  layout = default_layout;
  edit_mode = true;
  show_picker = false;
  dragging = none;
  storage = ("theme", "dark") ∷ [];
}

run_board-IsTidy_example : IsTidy (run_board json actions (open_board json [])).layout
unfolding read_layout parse_layout get_item
run_board-IsTidy_example = run_board-IsTidy json [] actions default_layout-IsTidy
