-- ===== src/Keyboard/Tests.antt =====
-- Keys pressed in the layout, and the theorems on them at concrete events.
use dtsys.Prelude.{◌≡◌, refl, String, true, false, List, [], ◌∷◌, arith, str_eq_iff}
use dtsys.Keyboard.{
  element, KeyEvent, prevented, invalidated, Input, pressed, elapsed, dispatch, step, run, start,
  on_key_down, on_search_key, clear_prefix, close_all, start_prefix, follow_prefix, page_of,
  is_typing_target, fire, fire_live,
}
use dtsys.Keyboard.Reports.{HasNoReports, run-HasNoReports}
use dtsys.Keyboard.Shortcuts.{IsLetter}

keyboard : Unit {0}
unfolding run step dispatch on_key_down on_search_key clear_prefix close_all start_prefix
    follow_prefix page_of is_typing_target fire_live fire start
keyboard = tt

abbrev press : String → KeyEvent
press key = record {
  key = key;
  lower = key;
  meta_key = false;
  ctrl_key = false;
  alt_key = false;
  shift_key = false;
  target = element "div" false;
}

abbrev search_key : KeyEvent
search_key = record (press "k") { ctrl_key = true }

abbrev in_field : KeyEvent
in_field = record (press "g") { target = element "input" false }

abbrev g_then_r : List Input
g_then_r = pressed (press "g") ∷ pressed (press "r") ∷ []

g_then_r_refreshes : (run g_then_r start).effects ≡ invalidated ∷ prevented ∷ []
unfolding keyboard
g_then_r_refreshes = refl

-- The prefix is forgotten when its timer fires.
g_too_late : (run (pressed (press "g") ∷ elapsed 1 ∷ pressed (press "d") ∷ []) start).effects ≡ []
unfolding keyboard
g_too_late = refl

run-HasNoReports_example : HasNoReports (run g_then_r start)
run-HasNoReports_example = run-HasNoReports g_then_r ((λ _. refl), ((λ _. refl), tt))

g-IsLetter : IsLetter (press "g")
unfolding is_typing_target
g-IsLetter = record {
  plain = refl;
  outside = refl;
  not_escape = ground (arith, str_eq_iff "g" "Escape");
  not_help = ground (arith, str_eq_iff "g" "?");
  not_slash = ground (arith, str_eq_iff "g" "/");
}

s-IsLetter : IsLetter (press "s")
unfolding is_typing_target
s-IsLetter = record {
  plain = refl;
  outside = refl;
  not_escape = ground (arith, str_eq_iff "s" "Escape");
  not_help = ground (arith, str_eq_iff "s" "?");
  not_slash = ground (arith, str_eq_iff "s" "/");
}
