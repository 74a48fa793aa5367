-- ===== src/Device/Edits/Tests.antt =====
-- The edits of the device page at concrete events.
use dtsys.Prelude.{
  ◌≡◌, ◌≤◌, refl, List, [], ◌∷◌, ◌++◌, some, none, false, All, length, if◌then◌else◌,
}
use dtsys.Prelude.Text.{Text, trim, trim_start, trim_end, is_filled}
use dtsys.Prelude.Sets.{add_value, add_values}
use dtsys.Device.Edits.{
  EditEvent, row_clicked, text_typed, row_left, answered, edit, edit_all, nothing_edited, add_tag,
  toggle_section, first_sections, overview_tab,
}
use dtsys.Device.Edits.Rows.{IsFrom, clicked_rows, edited_texts, edit_all-IsFrom}
use dtsys.Device.Edits.Labels.{includes_tag, add_tag_lem}

-- The answer to the first row's request closes the second row, with the text in it.
abbrev two_rows : List EditEvent
two_rows =
    row_clicked "location" "lab"
    ∷ text_typed "desk"
    ∷ row_left
    ∷ row_clicked "asset_tag" "a1"
    ∷ text_typed "a2"
    ∷ answered
    ∷ row_left
    ∷ []

second_row_lost : (edit_all two_rows nothing_edited).sent ≡ ("location", "desk") ∷ []
unfolding edit_all edit
second_row_lost = refl

edit_all-IsFrom_example :
    All
      (IsFrom (clicked_rows two_rows) (edited_texts two_rows))
      (edit_all two_rows nothing_edited).sent
    × ((edit_all two_rows nothing_edited).under_way
        ≤ length (edit_all two_rows nothing_edited).sent)
edit_all-IsFrom_example = edit_all-IsFrom two_rows

-- "lab" and " lab "
abbrev lab_tag : Text
lab_tag = 108 ∷ 97 ∷ 98 ∷ []

abbrev spaced_tag : Text
spaced_tag = 32 ∷ lab_tag ++ 32 ∷ []

same_tag_again : add_tag spaced_tag (some (lab_tag ∷ [])) ≡ some (lab_tag ∷ [])
unfolding add_tag add_values add_value trim trim_start trim_end
same_tag_again = refl

closed_section : toggle_section overview_tab first_sections overview_tab ≡ false
unfolding toggle_section
closed_section = refl

add_tag_lem_example : add_tag spaced_tag (some (lab_tag ∷ [])) ≡ (
    if is_filled (trim spaced_tag)
    then some (
        if includes_tag (trim spaced_tag) (lab_tag ∷ [])
        then lab_tag ∷ []
        else (lab_tag ∷ []) ++ trim spaced_tag ∷ [])
    else none)
add_tag_lem_example = add_tag_lem spaced_tag (lab_tag ∷ []) (tt, tt)
