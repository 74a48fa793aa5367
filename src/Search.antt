-- ===== src/Search.antt =====
-- The search overlay (frontend/src/components/ui/GlobalSearch.tsx) below its shortcut, which stands in
-- Keyboard. React draws the overlay again after every change of its state and then runs the effects
-- whose dependencies changed; `settle` is the effect on the selection, which changes nothing when it
-- need not run. What the two queries answer comes with the events.
pub mod Selection
pub mod Debounce
mod Tests
use dtsys.Prelude.{
  ℕ, suc, ◌+◌, ◌-◌, ◌%◌, String, Bool, true, false, not, ◌&&◌, ◌||◌, List, [], ◌∷◌, ◌++◌, Option,
  none, some, ◌==◌, if◌then◌else◌, filter, map, length, leb, max, get_elem?,
}
use dtsys.Prelude.Text.{Text, trim}

-- What the overlay reads of a device and of a package.
pub record FoundDevice : Type 0 where
  pub id : String

pub record FoundSoftware : Type 0 where
  pub name : String

pub data SearchResult : Type 0 where
  device : FoundDevice → SearchResult
  software : FoundSoftware → SearchResult

-- `navigate`, to the page of a device or to the updates of a package.
pub data Target : Type 0 where
  device_page updates_page : String → Target

-- `timeout` is the timer of the last run of the first effect, with the text that it is to take over;
-- `timers` are the timers that have still to fire.
pub record Overlay : Type 0 where
  pub search_open : Bool
  pub query : Text
  pub debounced_query : Text
  pub selected_index : ℕ
  pub devices : List FoundDevice
  pub found_software : List FoundSoftware
  pub timeout : Option ℕ
  pub timers : List (ℕ × Text)
  pub next_timer : ℕ
  pub visited : List Target

abbrev pub closed : Overlay
closed = record {
  search_open = false;
  query = [];
  debounced_query = [];
  selected_index = 0;
  devices = [];
  found_software = [];
  timeout = none;
  timers = [];
  next_timer = 0;
  visited = [];
}

unfoldable pub results : Overlay → List SearchResult
results s = map device s.devices ++ map software s.found_software

-- `enabled` of the two queries.
abbrev pub is_asked : Overlay → Bool
is_asked s = s.search_open && leb 2 (length s.debounced_query)

-- The effect on the selection.
unfoldable pub settle : Overlay → Overlay
settle s =
    if leb (length (results s)) s.selected_index
    then record s { selected_index = max 0 (length (results s) - 1) }
    else s

abbrev pub clear_timeout : Option ℕ → List (ℕ × Text) → List (ℕ × Text)
clear_timeout none timers = timers
clear_timeout (some t) timers = filter (λ timer. not (timer.0 == t)) timers

-- The first effect, which runs when `open` or `query` changed: the cleanup of its last run, and then
-- either the reset or a new timer.
unfoldable pub restart : Overlay → Overlay
restart s =
    let timers = clear_timeout s.timeout s.timers in
    if s.search_open
    then record s {
      timeout = some s.next_timer;
      timers = (s.next_timer, trim s.query) ∷ timers;
      next_timer = s.next_timer + 1;
    }
    else record s {
      query = [];
      debounced_query = [];
      selected_index = 0;
      devices = [];
      found_software = [];
      timeout = none;
      timers = timers;
    }

unfoldable pub set_open : Bool → Overlay → Overlay
set_open b s =
    if b
    then (if s.search_open then s else restart (record s { search_open = true }))
    else (if s.search_open then restart (record s { search_open = false }) else s)

unfoldable pub set_query : Text → Overlay → Overlay
set_query text s = restart (record s { query = text })

abbrev pub target_of : SearchResult → Target
target_of (device d) = device_page d.id
target_of (software p) = updates_page p.name

-- handleSelect
unfoldable pub handle_select : SearchResult → Overlay → Overlay
handle_select result s = set_open false (record s { visited = target_of result ∷ s.visited })

pub data ListKey : Type 0 where
  arrow_down arrow_up enter other_key : ListKey

-- An index with no result behind it is `undefined`, of which the code reads a field: an exception.
abbrev pub select_result : Option SearchResult → Overlay → Option Overlay
select_result none s = none
select_result (some result) s = some (handle_select result s)

abbrev pub press_key : ListKey → Overlay → Option Overlay
press_key arrow_down s =
    some (record s { selected_index = (s.selected_index + 1) % length (results s) })
press_key arrow_up s =
    some (record s {
      selected_index = (s.selected_index + length (results s) - 1) % length (results s);
    })
press_key enter s = select_result (get_elem? (results s) s.selected_index) s
press_key other_key s = some s

-- The second listener, which is there while the overlay is open.
unfoldable pub on_list_key : ListKey → Overlay → Option Overlay
on_list_key key s =
    if not s.search_open
    then some s
    else (if length (results s) == 0 then some s else press_key key s)

abbrev text_of : ℕ → List (ℕ × Text) → Option Text
text_of t [] = none
text_of t ((u, text) ∷ timers) = if u == t then some text else text_of t timers

-- A timer takes its text over; the queries answer from their cache, if they have it.
abbrev fire : Option Text → List FoundDevice → List FoundSoftware → Overlay → Overlay
fire none devices found s = s
fire (some text) devices found s = record s {
  debounced_query = text;
  devices = devices;
  found_software = found;
}

unfoldable pub fire_timer : ℕ → List FoundDevice → List FoundSoftware → Overlay → Overlay
fire_timer t devices found s =
    fire (text_of t s.timers) devices found
      (record s { timers = filter (λ timer. not (timer.0 == t)) s.timers })

-- What happens to the overlay: the store opens or closes it, the user types, chooses a result with
-- the mouse or presses a key, a timer fires, a query answers.
pub data OverlayEvent : Type 0 where
  opened_or_closed : Bool → OverlayEvent
  typed : Text → OverlayEvent
  clicked : SearchResult → OverlayEvent
  pressed : ListKey → OverlayEvent
  fired : ℕ → List FoundDevice → List FoundSoftware → OverlayEvent
  answered : List FoundDevice → List FoundSoftware → OverlayEvent

unfoldable pub handle : OverlayEvent → Overlay → Option Overlay
handle (opened_or_closed b) s = some (set_open b s)
handle (typed text) s = some (if s.search_open then set_query text s else s)
handle (clicked result) s = some (if s.search_open then handle_select result s else s)
handle (pressed key) s = on_list_key key s
handle (fired t devices found) s = some (fire_timer t devices found s)
handle (answered devices found) s =
    some (if is_asked s then record s { devices = devices; found_software = found } else s)

-- Drawn again, with its effects.
abbrev redrawn : Option Overlay → Option Overlay
redrawn none = none
redrawn (some s) = some (settle s)

unfoldable pub step : OverlayEvent → Overlay → Option Overlay
step event s = redrawn (handle event s)

abbrev and_then : (Overlay → Option Overlay) → Option Overlay → Option Overlay
and_then f none = none
and_then f (some s) = f s

unfoldable pub run : List OverlayEvent → Overlay → Option Overlay
run [] s = some s
run (event ∷ events) s = and_then (run events) (step event s)
