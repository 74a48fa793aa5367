-- ===== src/Keyboard.antt =====
-- The keyboard listeners of the signed-in layout: frontend/src/hooks/useKeyboardShortcuts.ts and the
-- first listener of frontend/src/components/ui/GlobalSearch.tsx, over the search overlay's store
-- (frontend/src/store/globalSearchStore.ts).
pub mod Prefix
pub mod Shortcuts
pub mod Reports
mod Tests
use dtsys.Prelude.{
  ℕ, ◌+◌, String, Bool, true, false, not, ◌&&◌, ◌||◌, List, [], ◌∷◌, Option, none, some, ◌==◌,
  str_eq, if◌then◌else◌, filter,
}

-- `event.target`: no HTML element, or one with its lower-case tag name and `isContentEditable`.
pub data Target : Type 0 where
  no_element : Target
  element : String → Bool → Target

unfoldable pub is_typing_target : Target → Bool
is_typing_target no_element = false
is_typing_target (element tag content_editable) =
    content_editable || str_eq tag "input" || str_eq tag "textarea" || str_eq tag "select"

-- `lower` is `event.key.toLowerCase()`.
pub record KeyEvent : Type 0 where
  pub key : String
  pub lower : String
  pub meta_key : Bool
  pub ctrl_key : Bool
  pub alt_key : Bool
  pub shift_key : Bool
  pub target : Target

pub data Effect : Type 0 where
  prevented invalidated close_modals : Effect
  navigated : String → Effect

-- `prefix_timer` is the id of the last timer set; `timers` are the timers that have still to fire.
pub record Keys : Type 0 where
  pub pending : Bool  -- pendingPrefix === 'g'
  pub prefix_timer : Option ℕ
  pub timers : List ℕ
  pub next_timer : ℕ
  pub show_help : Bool
  pub search_open : Bool
  pub effects : List Effect

abbrev pub emit : Effect → Keys → Keys
emit x s = record s { effects = x ∷ s.effects }

-- globalSearchStore
abbrev pub open_search : Keys → Keys
open_search s = record s { search_open = true }

abbrev pub close_search : Keys → Keys
close_search s = record s { search_open = false }

abbrev pub toggle_search : Keys → Keys
toggle_search s = record s { search_open = not s.search_open }

abbrev pub clear_timeout : ℕ → Keys → Keys
clear_timeout t s = record s { timers = filter (λ u. not (u == t)) s.timers }

unfoldable pub clear_prefix : Keys → Keys
clear_prefix s = elim s.prefix_timer [
  | none ↦ record s { pending = false }
  | some t ↦ (let c = clear_timeout t s in record c { pending = false; prefix_timer = none })
]

unfoldable pub close_all : Keys → Keys
close_all s = emit close_modals (record s { search_open = false; show_help = false })

unfoldable pub start_prefix : Keys → Keys
start_prefix s = record s {
  pending = true;
  prefix_timer = some s.next_timer;
  timers = s.next_timer ∷ s.timers;
  next_timer = s.next_timer + 1;
}

-- The page that a key after `g` goes to.
unfoldable pub page_of : String → Option String
page_of key =
    if str_eq key "d"
    then some "/"
    else if str_eq key "a"
    then some "/alerts"
    else if str_eq key "r"
    then some "/reports"
    else if str_eq key "s"
    then some "/settings"
    else none

unfoldable pub follow_prefix : String → Keys → Keys
follow_prefix key s = elim (page_of key) [
  | none ↦ clear_prefix s
  | some path ↦ clear_prefix (emit prevented (emit (navigated path) s))
]

abbrev pub is_search_key : KeyEvent → Bool
is_search_key e = (e.meta_key || e.ctrl_key) && str_eq e.lower "k"

abbrev pub is_plain : KeyEvent → Bool
is_plain e = not e.meta_key && not e.ctrl_key && not e.alt_key

-- The listener of `useKeyboardShortcuts`.
unfoldable pub on_key_down : KeyEvent → Keys → Keys
on_key_down e s =
    if is_search_key e
    then open_search (emit prevented s)
    else if str_eq e.key "Escape"
    then clear_prefix (close_all s)
    else if is_typing_target e.target
    then s
    else if str_eq e.key "?" || (str_eq e.key "/" && e.shift_key)
    then (let p = emit prevented s in clear_prefix (record p { show_help = true }))
    else if str_eq e.lower "r" && is_plain e
    then clear_prefix (emit invalidated (emit prevented s))
    else if s.pending
    then follow_prefix e.lower s
    else if str_eq e.lower "g" && is_plain e
    then start_prefix s
    else s

-- The first listener of `GlobalSearch`.
unfoldable pub on_search_key : KeyEvent → Keys → Keys
on_search_key e s =
    if is_search_key e
    then toggle_search (emit prevented s)
    else if str_eq e.key "Escape"
    then close_search s
    else s

-- The effect of the child component, GlobalSearch, registers its listener before the layout's does.
unfoldable pub dispatch : KeyEvent → Keys → Keys
dispatch e s = on_key_down e (on_search_key e s)

-- A timer that has not been cleared fires: `clearPrefix`.
unfoldable pub fire : ℕ → Keys → Keys
fire t s = clear_prefix (clear_timeout t s)

unfoldable pub fire_live : ℕ → List ℕ → Keys → Keys
fire_live t [] s = s
fire_live t (u ∷ us) s = if u == t then fire t s else fire_live t us s

pub data Input : Type 0 where
  pressed : KeyEvent → Input
  elapsed : ℕ → Input
  help_closed : Input

unfoldable pub step : Input → Keys → Keys
step (pressed e) s = dispatch e s
step (elapsed t) s = fire_live t s.timers s
step help_closed s = record s { show_help = false }

unfoldable pub run : List Input → Keys → Keys
run [] s = s
run (i ∷ more) s = run more (step i s)

unfoldable pub start : Keys
start = record {
  pending = false;
  prefix_timer = none;
  timers = [];
  next_timer = 1;
  show_help = false;
  search_open = false;
  effects = [];
}
