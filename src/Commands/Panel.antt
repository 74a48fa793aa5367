-- ===== src/Commands/Panel.antt =====
-- The panel of one device: frontend/src/components/device/CommandPanel.tsx. A command that is shown is
-- kept whole, with its output, next to the list that the server is asked for again and again.
use dtsys.Prelude.{
  ◌≡◌, refl, String, Bool, true, false, not, ◌||◌, List, [], ◌∷◌, Option, none, some, arith,
  if◌then◌else◌, str_eq, str_eq_iff, ap, ◌∙◌,
}
use dtsys.Prelude.Text.{Text, is_filled}
use dtsys.Commands.{Payload, shell_text, saved_fields}

pub data CommandStatus : Type 0 where
  pending sent running completed failed timeout : CommandStatus

pub record Command : Type 0 where
  pub id : String
  pub command_type : String
  pub status : CommandStatus
  pub output : Option String

pub record Panel : Type 0 where
  pub command_text : Text
  pub selected_cmd : Option Command
  pub library_open : Bool
  pub commands : List Command
  pub is_pending : Bool
  pub dispatched : List (String × Payload)

unfoldable pub find_command : String → List Command → Option Command
find_command id [] = none
find_command id (c ∷ commands) =
    let rest = find_command id commands in if str_eq c.id id then some c else rest

-- The effect on the list and the shown command.
abbrev pub refreshed : Option Command → Option Command → Option Command
refreshed none old = old
refreshed (some new) old = some new

abbrev pub refresh_selected : Option Command → List Command → Option Command
refresh_selected none commands = none
refresh_selected (some c) commands = refreshed (find_command c.id commands) (some c)

unfoldable pub settle : Panel → Panel
settle s = record s { selected_cmd = refresh_selected s.selected_cmd s.commands }

abbrev pub mutate : String → Payload → Panel → Panel
mutate command_type payload s = record s {
  is_pending = true;
  dispatched = (command_type, payload) ∷ s.dispatched;
}

-- A saved command: a shell command is put into the input, another one is sent.
pub data Saved : Type 0 where
  shell_command : Text → Saved
  other_command : String → String → Saved

abbrev pub run_saved : Saved → Panel → Panel
run_saved (shell_command text) s = record s { command_text = text; library_open = false }
run_saved (other_command command_type payload) s =
    mutate command_type (saved_fields payload) (record s { library_open = false })

abbrev is_shown : Option Command → Command → Bool
is_shown none c = false
is_shown (some d) c = str_eq d.id c.id

pub data PanelEvent : Type 0 where
  typed : Text → PanelEvent
  enter_pressed send_clicked answered refused library_opened library_closed : PanelEvent
  quick : String → Payload → PanelEvent
  picked : Saved → PanelEvent
  listed : List Command → PanelEvent
  clicked : Command → PanelEvent

unfoldable pub handle : PanelEvent → Panel → Panel
handle (typed text) s = record s { command_text = text }
handle enter_pressed s =
    if is_filled s.command_text then mutate "shell" (shell_text s.command_text) s else s
handle send_clicked s =
    if not (is_filled s.command_text) || s.is_pending
    then s
    else (if is_filled s.command_text then mutate "shell" (shell_text s.command_text) s else s)
handle answered s = record s { command_text = []; is_pending = false }
handle refused s = record s { is_pending = false }
handle library_opened s = record s { library_open = true }
handle library_closed s = record s { library_open = false }
handle (quick command_type payload) s = mutate command_type payload s
handle (picked saved) s = run_saved saved s
handle (listed commands) s = record s { commands = commands }
handle (clicked c) s = record s {
  selected_cmd = if is_shown s.selected_cmd c then none else some c;
}

unfoldable pub step : PanelEvent → Panel → Panel
step event s = settle (handle event s)

unfoldable pub run : List PanelEvent → Panel → Panel
run [] s = s
run (event ∷ events) s = run events (step event s)

abbrev pub first_panel : Panel
first_panel = record {
  command_text = [];
  selected_cmd = none;
  library_open = false;
  commands = [];
  is_pending = false;
  dispatched = [];
}

-- The shown command is the list's own, unless the list has none with its id.
abbrev pub IsCurrent : Panel → Type 0
IsCurrent s = refresh_selected s.selected_cmd s.commands ≡ s.selected_cmd

find_command_id :
    (id : String) (commands : List Command) (c : Command)
    → find_command id commands ≡ some c
    → c.id ≡ id
unfolding find_command
find_command_id id [] c h = absurd (ground arith)
find_command_id id (d ∷ commands) c h =
    ground (arith, find_command_id id commands c, str_eq_iff d.id id)

find_again :
    (o : Option Command) (c : Command) (commands : List Command)
    → find_command c.id commands ≡ o
    → refresh_selected (refreshed o (some c)) commands ≡ refreshed o (some c)
find_again none c commands e = ap (λ o. refreshed o (some c)) e
find_again (some d) c commands e =
    ap (λ o. refreshed o (some d))
      (ap (λ id. find_command id commands) (find_command_id c.id commands d e) ∙ e)

refresh_twice :
    (o : Option Command) (commands : List Command)
    → refresh_selected (refresh_selected o commands) commands ≡ refresh_selected o commands
refresh_twice none commands = refl
refresh_twice (some c) commands = find_again (find_command c.id commands) c commands refl

settle-IsCurrent : (s : Panel) → IsCurrent (settle s)
unfolding settle
settle-IsCurrent s = refresh_twice s.selected_cmd s.commands

run_from : (events : List PanelEvent) (s : Panel) → IsCurrent s → IsCurrent (run events s)
unfolding run step
run_from [] s h = h
run_from (e ∷ events) s h = run_from events (settle (handle e s)) (settle-IsCurrent (handle e s))

-- After whatever events, the command that the panel shows with its output is the list's newest one with
-- its id, unless the list has none.
pub run-IsCurrent : (events : List PanelEvent) → IsCurrent (run events first_panel)
run-IsCurrent events = run_from events first_panel refl
