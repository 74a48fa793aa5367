-- ===== src/Keyboard/Reports.antt =====
-- The documented shortcut `G then R` (frontend/src/components/layout/Layout.tsx).
use dtsys.Prelude.{
  ℕ, ◌≡◌, ◌≢◌, inl, inr, String, true, false, ◌&&◌, ◌||◌, List, [], ◌∷◌, some, arith, All, str_eq,
  str_eq_iff, if_elim, Option-cases, ◌==◌, if◌then◌else◌,
}
use dtsys.Keyboard.{
  KeyEvent, Effect, prevented, invalidated, close_modals, navigated, emit, Keys, clear_prefix,
  close_all, start_prefix, page_of, follow_prefix, is_search_key, clear_timeout, is_plain,
  is_typing_target, on_key_down, on_search_key, dispatch, fire, fire_live, Input, pressed, elapsed,
  help_closed, step, run, start,
}

-- `r` is pressed with no modifier, if at all.
abbrev pub IsPlainR : Input → Type 0
IsPlainR (pressed e) = e.lower ≡ "r" → is_plain e ≡ true
IsPlainR (elapsed t) = Unit {0}
IsPlainR help_closed = Unit {0}

abbrev IsNotReports : Effect → Type 0
IsNotReports (navigated path) = path ≢ "/reports"
IsNotReports prevented = Unit {0}
IsNotReports invalidated = Unit {0}
IsNotReports close_modals = Unit {0}

-- No navigation to the reports has been made.
abbrev pub HasNoReports : Keys → Type 0
HasNoReports s = All IsNotReports s.effects

clear_prefix-effects : (s : Keys) → (clear_prefix s).effects ≡ s.effects
unfolding clear_prefix
clear_prefix-effects s = ground arith

clear_prefix-HasNoReports : (s : Keys) → HasNoReports s → HasNoReports (clear_prefix s)
clear_prefix-HasNoReports s h = rw (clear_prefix-effects s) h

page_of-ne-reports :
    (key : String) {path : String} → key ≢ "r" → page_of key ≡ some path → path ≢ "/reports"
unfolding page_of
page_of-ne-reports key {path} n e = ground (
  arith,
  str_eq_iff key "r",
  str_eq_iff "/" "/reports",
  str_eq_iff "/alerts" "/reports",
  str_eq_iff "/settings" "/reports",
)

follow_prefix-HasNoReports :
    (key : String) (s : Keys) → key ≢ "r" → HasNoReports s → HasNoReports (follow_prefix key s)
unfolding follow_prefix
follow_prefix-HasNoReports key s n h = elim (Option-cases (page_of key)) [
  | inl e ↦ rw (e, follow_prefix) (clear_prefix-HasNoReports s h)
  | inr (path, e) ↦
      rw (e, follow_prefix)
        (clear_prefix-HasNoReports (emit prevented (emit (navigated path) s))
          (tt, (page_of-ne-reports key n e, h)))
]

prefix_key-HasNoReports :
    (e : KeyEvent) (s : Keys)
    → (e.lower ≡ "r" → is_plain e ≡ true)
    → (str_eq e.lower "r" && is_plain e) ≡ false
    → HasNoReports s
    → HasNoReports (
        if s.pending
        then follow_prefix e.lower s
        else if str_eq e.lower "g" && is_plain e
        then start_prefix s
        else s)
prefix_key-HasNoReports e s plain other h =
    if_elim HasNoReports s.pending
      (λ _. follow_prefix-HasNoReports e.lower s (ground (arith, str_eq_iff e.lower "r")) h)
      (λ _.
        if_elim HasNoReports (str_eq e.lower "g" && is_plain e) (λ _. unfold start_prefix in h)
          (λ _. h))

on_key_down-HasNoReports :
    (e : KeyEvent) (s : Keys)
    → (e.lower ≡ "r" → is_plain e ≡ true)
    → HasNoReports s
    → HasNoReports (on_key_down e s)
unfolding on_key_down close_all
on_key_down-HasNoReports e s plain h =
    if_elim HasNoReports (is_search_key e) (λ _. (tt, h))
      (λ _.
        if_elim HasNoReports (str_eq e.key "Escape")
          (λ _. clear_prefix-HasNoReports (close_all s) (tt, h))
          (λ _.
            if_elim HasNoReports (is_typing_target e.target) (λ _. h)
              (λ _.
                if_elim HasNoReports (str_eq e.key "?" || (str_eq e.key "/" && e.shift_key))
                  (λ _.
                    clear_prefix-HasNoReports
                      (record s { show_help = true; effects = prevented ∷ s.effects }) (tt, h))
                  (λ _.
                    if_elim HasNoReports (str_eq e.lower "r" && is_plain e)
                      (λ _.
                        clear_prefix-HasNoReports (emit invalidated (emit prevented s))
                          (tt, (tt, h)))
                      (λ other. prefix_key-HasNoReports e s plain other h)))))

on_search_key-HasNoReports :
    (e : KeyEvent) (s : Keys) → HasNoReports s → HasNoReports (on_search_key e s)
unfolding on_search_key
on_search_key-HasNoReports e s h =
    if_elim HasNoReports (is_search_key e) (λ _. (tt, h))
      (λ _. if_elim HasNoReports (str_eq e.key "Escape") (λ _. h) (λ _. h))

fire_live-HasNoReports :
    (t : ℕ) (ts : List ℕ) (s : Keys) → HasNoReports s → HasNoReports (fire_live t ts s)
unfolding fire_live fire
fire_live-HasNoReports t [] s h = h
fire_live-HasNoReports t (u ∷ us) s h =
    if_elim HasNoReports (u == t) (λ _. clear_prefix-HasNoReports (clear_timeout t s) h)
      (λ _. fire_live-HasNoReports t us s h)

step-HasNoReports : (i : Input) (s : Keys) → IsPlainR i → HasNoReports s → HasNoReports (step i s)
unfolding step dispatch
step-HasNoReports (pressed e) s p h =
    on_key_down-HasNoReports e (on_search_key e s) p (on_search_key-HasNoReports e s h)
step-HasNoReports (elapsed t) s p h = fire_live-HasNoReports t s.timers s h
step-HasNoReports help_closed s p h = h

run_from-HasNoReports :
    (is : List Input) (s : Keys) → All IsPlainR is → HasNoReports s → HasNoReports (run is s)
unfolding run
run_from-HasNoReports [] s p h = h
run_from-HasNoReports (i ∷ more) s p h =
    run_from-HasNoReports more (step i s) p.1 (step-HasNoReports i s p.0 h)

-- Whatever keys are pressed, as long as `r` is pressed without a modifier, no shortcut ever goes to
-- the reports: the test for a refresh takes every plain `r`, the one after `g` too.
pub run-HasNoReports : (is : List Input) → All IsPlainR is → HasNoReports (run is start)
unfolding start
run-HasNoReports is p = run_from-HasNoReports is start p tt
