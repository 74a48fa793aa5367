-- ===== src/Preferences/Tests.antt =====
-- The preferences over a few changes.
use dtsys.Prelude.{◌≡◌, refl, List, [], ◌∷◌, none, some}
use dtsys.Prelude.Storage.{get_item, set_item}
use dtsys.Preferences.{
  Change, theme_toggled, draft_edited, form_saved, favicon_loaded, favicon_removed, page_loaded,
  load_page, get_stored_theme, toggle_theme, apply_change, apply_changes, save_branding, light,
}
use dtsys.Preferences.Kept.{IsKept, apply_changes-IsKept}

abbrev changes : List Change
changes =
    theme_toggled
    ∷ draft_edited (record { company_name = ""; sidebar_label = "Fleet"; accent_color = "#000000" })
    ∷ form_saved
    ∷ page_loaded
    ∷ []

light_after : (apply_changes changes (load_page [] none)).theme ≡ light
unfolding apply_changes apply_change toggle_theme save_branding load_page get_stored_theme get_item
    set_item
light_after = refl

label_after : (apply_changes changes (load_page [] none)).branding.sidebar_label ≡ "Fleet"
unfolding apply_changes apply_change toggle_theme save_branding load_page
label_after = refl

-- The tab keeps the icon that has been removed.
icon_after :
    (apply_changes (favicon_loaded "data:x" ∷ favicon_removed ∷ []) (load_page [] none)).icon
    ≡ some "data:x"
unfolding apply_changes apply_change load_page
icon_after = refl

apply_changes-IsKept_example :
    IsKept (apply_changes changes (load_page [] none))
    × ((toggle_theme (toggle_theme (apply_changes changes (load_page [] none)))).theme
        ≡ (apply_changes changes (load_page [] none)).theme)
apply_changes-IsKept_example = apply_changes-IsKept [] changes
