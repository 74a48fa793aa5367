-- ===== src/Commands/Bulk.antt =====
-- The bar for several devices: frontend/src/components/device/BulkCommandBar.tsx, which the list of devices
-- (frontend/src/pages/Dashboard.tsx) shows while two or more are selected. `under_way` counts the requests of
-- the bar that are not answered, `left_behind` those of bars that are gone; React Query's `isPending` is a
-- field that it sets while one of the bar's is under way. `sent` are the requests of all bars.
use dtsys.Prelude.{
  str_eq, ℕ, ◌+◌, ◌-◌, ◌≤◌, ◌≡◌, refl, String, Bool, true, false, ◌||◌, List, [], ◌∷◌, Option, none,
  some, arith, if◌then◌else◌, if_elim, length, ltb, All,
}
use dtsys.Prelude.Text.{Text, trim, is_filled}
use dtsys.Commands.{Payload, empty, shell_text, target_time}

pub record BulkRequest : Type 0 where
  pub ids : List String
  pub command_type : String
  pub payload : Payload

pub data BulkToast : Type 0 where
  success : ℕ → BulkToast
  error : String → BulkToast

pub record Bar : Type 0 where
  pub selected_ids : List String
  pub is_shell_modal_open : Bool
  pub shell_command : Text
  pub toast : Option BulkToast
  pub is_pending : Bool
  pub under_way : ℕ
  pub left_behind : ℕ
  pub sent : List BulkRequest

-- `mutate`, which takes the ids that are selected then.
unfoldable pub mutate : String → Payload → Bar → Bar
mutate command_type payload s = record s {
  is_pending = true;
  under_way = s.under_way + 1;
  sent = record { ids = s.selected_ids; command_type = command_type; payload = payload } ∷ s.sent;
}

unfoldable pub quick_action : String → Payload → Bar → Bar
quick_action command_type payload s =
    if ltb (length s.selected_ids) 2 || s.is_pending then s else mutate command_type payload s

unfoldable pub submit_shell_command : Bar → Bar
submit_shell_command s =
    if is_filled (trim s.shell_command)
    then quick_action "shell" (shell_text (trim s.shell_command)) s
    else s

-- The buttons of the bar; the clock of the browser comes with the last.
pub data Action : Type 0 where
  reboot update_check : Action
  sync_time : ℕ → Action

abbrev pub press : Action → Bar → Bar
press reboot s = quick_action "reboot" empty s
press update_check s = quick_action "update_check" empty s
press (sync_time now) s = quick_action "sync_time" (target_time now) s

-- The user, the selection of the page, the answers, and the timer of the message. `close_modals` is the
-- event of the keyboard listeners.
pub data BarEvent : Type 0 where
  quick : Action → BarEvent
  submitted opened closed close_modals toast_over : BarEvent
  typed : Text → BarEvent
  selected : List String → BarEvent
  succeeded : ℕ → BarEvent
  failed : String → BarEvent

-- An answer comes for a request that is under way.
abbrev pub answered : Bool → BulkToast → Bar → Bar
answered ok message s = record s {
  toast = some message;
  is_pending = false;
  under_way = s.under_way - 1;
  shell_command = if ok then [] else s.shell_command;
  is_shell_modal_open = if ok then false else s.is_shell_modal_open;
}

-- The error's own text, or the one that stands for an empty one.
abbrev pub error_text : String → BulkToast
error_text message = error (if str_eq message "" then "Bulk command failed" else message)

abbrev pub first_bar : List String → Bar
first_bar ids = record {
  selected_ids = ids;
  is_shell_modal_open = false;
  shell_command = [];
  toast = none;
  is_pending = false;
  under_way = 0;
  left_behind = 0;
  sent = [];
}

-- `selectedIds.length >= 2 && <BulkCommandBar />`: another number of ids takes the bar away, or brings a new
-- one. Nothing of the old one is left but its requests, whose answers change nothing any more.
unfoldable pub select_ids : List String → Bar → Bar
select_ids ids s =
    if ltb (length s.selected_ids) 2 || ltb (length ids) 2
    then record (first_bar ids) { left_behind = s.left_behind + s.under_way; sent = s.sent }
    else record s { selected_ids = ids }

unfoldable pub step : BarEvent → Bar → Bar
step (quick action) s = press action s
step submitted s = submit_shell_command s
step opened s = record s { is_shell_modal_open = true }
step closed s = record s { is_shell_modal_open = false }
step close_modals s = record s { is_shell_modal_open = false }
step toast_over s = record s { toast = none }
step (typed text) s = record s { shell_command = text }
step (selected ids) s = select_ids ids s
step (succeeded count) s = if s.is_pending then answered true (success count) s else s
step (failed message) s = if s.is_pending then answered false (error_text message) s else s

unfoldable pub run : List BarEvent → Bar → Bar
run [] s = s
run (event ∷ events) s = run events (step event s)

-- A request to at least two devices, which is no shell command without text.
abbrev IsCommand : Payload → Type 0
IsCommand (shell_text text) = is_filled text ≡ true
IsCommand _ = Unit

abbrev pub IsBulk : BulkRequest → Type 0
IsBulk r = (2 ≤ length r.ids) × IsCommand r.payload

abbrev pub IsGuarded : Bar → Type 0
IsGuarded s = All IsBulk s.sent × (s.under_way ≡ (if s.is_pending then 1 else 0))

quick_action-IsGuarded :
    (command_type : String) (payload : Payload) (s : Bar)
    → IsCommand payload
    → IsGuarded s
    → IsGuarded (quick_action command_type payload s)
unfolding quick_action mutate
quick_action-IsGuarded command_type payload s k h =
    if_elim IsGuarded (ltb (length s.selected_ids) 2 || s.is_pending) (λ t. h)
      (λ f. (((ground arith, k), h.0), ground (arith, h.1)))

step-IsGuarded : (e : BarEvent) (s : Bar) → IsGuarded s → IsGuarded (step e s)
unfolding step submit_shell_command select_ids
step-IsGuarded (quick reboot) s h = quick_action-IsGuarded "reboot" empty s tt h
step-IsGuarded (quick update_check) s h = quick_action-IsGuarded "update_check" empty s tt h
step-IsGuarded (quick (sync_time now)) s h =
    quick_action-IsGuarded "sync_time" (target_time now) s tt h
step-IsGuarded submitted s h =
    if_elim IsGuarded (is_filled (trim s.shell_command))
      (λ t. quick_action-IsGuarded "shell" (shell_text (trim s.shell_command)) s t h) (λ f. h)
step-IsGuarded opened s h = h
step-IsGuarded closed s h = h
step-IsGuarded close_modals s h = h
step-IsGuarded toast_over s h = h
step-IsGuarded (typed text) s h = h
step-IsGuarded (selected ids) s h =
    if_elim IsGuarded (ltb (length s.selected_ids) 2 || ltb (length ids) 2) (λ t. (h.0, refl))
      (λ f. h)
step-IsGuarded (succeeded count) s h =
    if_elim IsGuarded s.is_pending (λ t. (h.0, ground (arith, h.1))) (λ f. h)
step-IsGuarded (failed message) s h =
    if_elim IsGuarded s.is_pending (λ t. (h.0, ground (arith, h.1))) (λ f. h)

run_from : (events : List BarEvent) (s : Bar) → IsGuarded s → IsGuarded (run events s)
unfolding run
run_from [] s h = h
run_from (e ∷ events) s h = run_from events (step e s) (step-IsGuarded e s h)

-- Whatever the user does and selects, a command is sent to no fewer than two devices, and no shell command
-- without text; and a bar sends a command only when the one that it sent before has been answered.
pub run-IsGuarded :
    (ids : List String) (events : List BarEvent) → IsGuarded (run events (first_bar ids))
run-IsGuarded ids events = run_from events (first_bar ids) (tt, refl)
