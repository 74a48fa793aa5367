-- ===== src/Onboarding.antt =====
-- The wizard for the first device (frontend/src/pages/Onboarding.tsx). The snippets for the installation are
-- left out.
pub mod Stages
mod Tests
use dtsys.Prelude.{
  ℕ, String, Bool, true, false, not, ◌&&◌, ◌||◌, List, [], ◌∷◌, Option, none, some, ◌==◌,
  if◌then◌else◌, ltb,
}

-- `devices` is what the query has read, `none` while it loads.
pub record Wizard : Type 0 where
  pub for_admin : Bool
  pub step : ℕ
  pub devices : Option (List String)
  pub token : Option String
  pub is_pending : Bool

abbrev pub first_stage : Bool → Wizard
first_stage for_admin = record {
  for_admin = for_admin;
  step = 0;
  devices = none;
  token = none;
  is_pending = false;
}

abbrev has_devices : Option (List String) → Bool
has_devices none = false
has_devices (some []) = false
has_devices (some (d ∷ ds)) = true

-- What is drawn: `Navigate` to the home page, or the step.
pub data WizardView : Type 0 where
  go_home : WizardView
  shown : ℕ → WizardView

unfoldable pub view_of : Wizard → WizardView
view_of s =
    if not s.for_admin
    then go_home
    else (if has_devices s.devices && ltb s.step 2 then go_home else shown s.step)

-- `refetchInterval`
abbrev pub poll_interval : Wizard → Option ℕ
poll_interval s = if ltb s.step 2 then none else some 5000

pub data WizardEvent : Type 0 where
  started continued finished : WizardEvent
  token_granted : String → WizardEvent
  token_failed : WizardEvent
  devices_read : List String → WizardEvent

-- The buttons of the steps, each where it is drawn and not disabled.
unfoldable pub press_button : WizardEvent → Wizard → Wizard
press_button started s =
    if s.step == 0 && not s.is_pending then record s { is_pending = true } else s
press_button continued s = if s.step == 1 then record s { step = 2 } else s
press_button finished s = if s.step == 2 && has_devices s.devices then record s { step = 3 } else s
press_button (token_granted token) s =
    if s.is_pending then record s { is_pending = false; token = some token; step = 1 } else s
press_button token_failed s = record s { is_pending = false }
press_button (devices_read devices) s = record s { devices = some devices }

-- The wizard is gone once it has led to the home page.
abbrev stay : WizardView → WizardEvent → Wizard → Wizard
stay go_home e s = s
stay (shown n) e s = press_button e s

unfoldable pub advance : WizardEvent → Wizard → Wizard
advance e s = stay (view_of s) e s

unfoldable pub advance_all : List WizardEvent → Wizard → Wizard
advance_all [] s = s
advance_all (e ∷ es) s = advance_all es (advance e s)
