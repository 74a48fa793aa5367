-- ===== src/Onboarding/Stages.antt =====
-- The order of the wizard's steps.
use dtsys.Prelude.{
  ◌≡◌, ◌≤◌, String, Bool, true, false, not, List, [], ◌∷◌, Option, none, some, arith, ◌==◌,
}
use dtsys.Onboarding.{
  Wizard, first_stage, WizardView, go_home, shown, view_of, WizardEvent, started, continued,
  finished, token_granted, token_failed, devices_read, press_button, stay, advance, advance_all,
}

abbrev pub has_token : Option String → Bool
has_token none = false
has_token (some t) = true

-- There are four steps; the steps past the first have a token, and a token is asked for in the first only.
pub record IsStaged (s : Wizard) : Type 0 where
  pub bounded : s.step ≤ 3
  pub has_asked : has_token s.token ≡ not (s.step == 0)
  pub one_request : s.is_pending ≡ true → s.step ≡ 0

press_button-IsStaged : (e : WizardEvent) (s : Wizard) → IsStaged s → IsStaged (press_button e s)
unfolding press_button
press_button-IsStaged started s h = ground arith
press_button-IsStaged continued s h = ground arith
press_button-IsStaged finished s h = ground arith
press_button-IsStaged (token_granted token) s h = ground arith
press_button-IsStaged token_failed s h = ground arith
press_button-IsStaged (devices_read devices) s h = ground arith

advance-IsStaged : (e : WizardEvent) (s : Wizard) → IsStaged s → IsStaged (advance e s)
unfolding advance
advance-IsStaged e s h = go (view_of s)
  where
    go : (v : WizardView) → IsStaged (stay v e s)
    go go_home = h
    go (shown n) = press_button-IsStaged e s h

run_from : (es : List WizardEvent) (s : Wizard) → IsStaged s → IsStaged (advance_all es s)
unfolding advance_all
run_from [] s h = h
run_from (e ∷ es) s h = run_from es (advance e s) (advance-IsStaged e s h)

-- Over every run the wizard is in one of its four steps; a step past the first is reached only with a token, and
-- a token is asked for in the first step only, so at most once at a time.
pub advance_all-IsStaged :
    (for_admin : Bool) (es : List WizardEvent) → IsStaged (advance_all es (first_stage for_admin))
advance_all-IsStaged for_admin es = run_from es (first_stage for_admin) (ground arith)
