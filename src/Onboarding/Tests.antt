-- ===== src/Onboarding/Tests.antt =====
-- The wizard from its start to its end.
use dtsys.Prelude.{◌≡◌, refl, List, [], ◌∷◌, true}
use dtsys.Onboarding.{
  WizardEvent, started, continued, finished, token_granted, devices_read, first_stage, go_home,
  view_of, press_button, advance, advance_all,
}
use dtsys.Onboarding.Stages.{IsStaged, advance_all-IsStaged}

abbrev whole : List WizardEvent
whole =
    devices_read []
    ∷ started
    ∷ token_granted "t1"
    ∷ continued
    ∷ devices_read ("d1" ∷ [])
    ∷ finished
    ∷ []

at_end : (advance_all whole (first_stage true)).step ≡ 3
unfolding advance_all advance view_of press_button
at_end = refl

-- A device that enrolls while the token is shown ends the wizard.
ended_early :
    view_of (
      advance_all (started ∷ token_granted "t1" ∷ devices_read ("d1" ∷ []) ∷ []) (first_stage true))
    ≡ go_home
unfolding advance_all advance view_of press_button
ended_early = refl

advance_all-IsStaged_example : IsStaged (advance_all whole (first_stage true))
advance_all-IsStaged_example = advance_all-IsStaged true whole
