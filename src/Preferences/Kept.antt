-- ===== src/Preferences/Kept.antt =====
-- What a load of the page finds of the preferences.
use dtsys.Prelude.{
  ◌≡◌, refl, String, false, List, [], ◌∷◌, Option, none, str_eq, ap, if_elim, subst, sym,
}
use dtsys.Prelude.Storage.{Storage, set_item, get_item-set_item}
use dtsys.Preferences.{
  Theme, dark, light, theme_text, theme_of_item, other_theme, is_dark, get_stored_theme, Branding,
  Preferences, stored_branding, load_page, toggle_theme, filled_name, save_branding, reset_branding,
  Change, theme_toggled, sidebar_opened, sidebar_closed, sidebar_toggled, form_opened, form_saved,
  form_reset, draft_edited, logo_set, favicon_loaded, favicon_removed, page_loaded, apply_change,
  apply_changes,
}

-- The document shows the theme, a load of the page would find the theme and the branding as they are, and the
-- company has a name.
abbrev pub IsKept : Preferences → Type 0
IsKept s =
    (s.has_dark_class ≡ is_dark s.theme)
    × (get_stored_theme s.items ≡ s.theme)
    × (stored_branding s.persisted ≡ s.branding)
    × (str_eq s.branding.company_name "" ≡ false)

filled_name_lem : (name : String) → str_eq (filled_name name) "" ≡ false
filled_name_lem name = if_elim (λ n. str_eq n "" ≡ false) (str_eq name "") (λ t. refl) (λ f. f)

other_again : (theme : Theme) → other_theme (other_theme theme) ≡ theme
other_again dark = refl
other_again light = refl

theme_found :
    (theme : Theme) (items : Storage)
    → get_stored_theme (set_item "dtsys-theme" (theme_text theme) items) ≡ theme
unfolding get_stored_theme
theme_found dark items =
    ap theme_of_item (get_item-set_item "dtsys-theme" "dtsys-theme" "dark" items)
theme_found light items =
    ap theme_of_item (get_item-set_item "dtsys-theme" "dtsys-theme" "light" items)

toggle_theme-IsKept : (s : Preferences) → IsKept s → IsKept (toggle_theme s)
unfolding toggle_theme
toggle_theme-IsKept s (a, b, c, d) = (refl, theme_found (other_theme s.theme) s.items, c, d)

load_page-IsKept :
    (items : Storage) (persisted : Option Branding)
    → str_eq (stored_branding persisted).company_name "" ≡ false
    → IsKept (load_page items persisted)
unfolding load_page
load_page-IsKept items persisted h = (refl, refl, refl, h)

apply_change-IsKept : (c : Change) (s : Preferences) → IsKept s → IsKept (apply_change c s)
unfolding apply_change save_branding reset_branding
apply_change-IsKept theme_toggled s h = toggle_theme-IsKept s h
apply_change-IsKept sidebar_opened s h = h
apply_change-IsKept sidebar_closed s h = h
apply_change-IsKept sidebar_toggled s h = h
apply_change-IsKept form_opened s h = h
apply_change-IsKept form_saved s (a, b, c, d) = (a, b, refl, filled_name_lem s.draft.company_name)
apply_change-IsKept form_reset s (a, b, c, d) = (a, b, refl, refl)
apply_change-IsKept (draft_edited draft) s h = h
apply_change-IsKept (logo_set url) s (a, b, c, d) = (a, b, refl, d)
apply_change-IsKept (favicon_loaded url) s (a, b, c, d) = (a, b, refl, d)
apply_change-IsKept favicon_removed s (a, b, c, d) = (a, b, refl, d)
apply_change-IsKept page_loaded s (a, b, c, d) =
    load_page-IsKept s.items s.persisted
      (subst (λ (x : Branding). str_eq x.company_name "" ≡ false) (sym c) d)

run_from : (cs : List Change) (s : Preferences) → IsKept s → IsKept (apply_changes cs s)
unfolding apply_changes
run_from [] s h = h
run_from (c ∷ cs) s h = run_from cs (apply_change c s) (apply_change-IsKept c s h)

-- In a browser without a saved branding, and whatever its other items are, after any changes, loads of the page
-- among them, the document shows the theme, a load of the page would find the theme and the branding as they
-- are, and the company has a name; and a second press of the theme's button undoes the first.
pub apply_changes-IsKept :
    (items : Storage) (cs : List Change)
    → IsKept (apply_changes cs (load_page items none))
      × ((toggle_theme (toggle_theme (apply_changes cs (load_page items none)))).theme
          ≡ (apply_changes cs (load_page items none)).theme)
unfolding toggle_theme
apply_changes-IsKept items cs = (
  run_from cs (load_page items none) (load_page-IsKept items none refl),
  other_again (apply_changes cs (load_page items none)).theme,
)
