-- ===== src/Device/Edits.antt =====
-- What the device page (frontend/src/pages/DeviceDetail.tsx) lets one edit: the rows of EditableInfoRow, the
-- tags, the groups, the forms, and the sections that are open.
pub mod Rows
pub mod Labels
mod Tests
use dtsys.Prelude.{
  get_or, ℕ, suc, ◌+◌, ◌-◌, String, Bool, true, false, not, ◌||◌, List, [], ◌∷◌, ◌++◌, Option, none,
  some, str_eq, if◌then◌else◌, filter, any, take, ltb,
}
use dtsys.Prelude.Text.{Text, text_eq, trim, is_filled}
use dtsys.Prelude.Sets.{set_of}
use dtsys.Api.{Value, text, no_fields, field, object}
use dtsys.Queries.{MutationUse}
use dtsys.Queries.Writes.{text_or_null, update_device_mutation}

-- editingField and fieldDraft; `sent` are the requests, the newest first, and `under_way` those without an
-- answer.
pub record Editing : Type 0 where
  pub editing_field : Option String
  pub field_draft : String
  pub under_way : ℕ
  pub sent : List (String × String)

abbrev pub nothing_edited : Editing
nothing_edited = record { editing_field = none; field_draft = ""; under_way = 0; sent = [] }

-- `onSave(draft)` of the row that is edited; there is none without one.
abbrev save_row : Option String → Editing → Editing
save_row none s = s
save_row (some name) s = record s {
  under_way = s.under_way + 1;
  sent = (name, s.field_draft) ∷ s.sent;
}

-- A click on a row, with its value; typing; the loss of the focus, or the Enter key; an answer to a request.
pub data EditEvent : Type 0 where
  row_clicked : String → String → EditEvent
  text_typed : String → EditEvent
  row_left answered : EditEvent

abbrev close_row : Editing → Editing
close_row s = record s { editing_field = none; under_way = s.under_way - 1 }

-- Typing needs an open row, and an answer a request under way. An answer closes the row that is open then.
unfoldable pub edit : EditEvent → Editing → Editing
edit (row_clicked name value) s = record s { editing_field = some name; field_draft = value }
edit (text_typed t) s = elim s.editing_field [ none ↦ s | some name ↦ record s { field_draft = t } ]
edit row_left s = save_row s.editing_field s
edit answered s = if ltb 0 s.under_way then close_row s else s

unfoldable pub edit_all : List EditEvent → Editing → Editing
edit_all [] s = s
edit_all (e ∷ es) s = edit_all es (edit e s)

-- The fields of a device that have a row; `none` is null or undefined.
pub record EditableDevice : Type 0 where
  pub serial_number : Option String
  pub manufacturer : Option String
  pub model_name : Option String
  pub location : Option String
  pub assigned_to : Option String
  pub asset_tag : Option String

-- The rows: the field, and the value that a click puts into the draft.
unfoldable pub editable_rows : EditableDevice → List (String × String)
editable_rows d =
    ("serial_number", get_or d.serial_number "")
    ∷ ("manufacturer", get_or d.manufacturer "")
    ∷ ("model_name", get_or d.model_name "")
    ∷ ("location", get_or d.location "")
    ∷ ("assigned_to", get_or d.assigned_to "")
    ∷ ("asset_tag", get_or d.asset_tag "")
    ∷ []

-- `updateDevice.mutateAsync({ [field]: value || null })`
abbrev pub save_request : String → String → String → MutationUse
save_request id name value =
    update_device_mutation id (object (field name (text_or_null value) no_fields))

-- addTag: what it sends, if it sends something.
unfoldable pub add_tag : Text → Option (List Text) → Option (List Text)
add_tag new_tag tags =
    let tag = trim new_tag in
    if is_filled tag then some (set_of text_eq (get_or tags [] ++ tag ∷ [])) else none

-- availableGroups, by their ids.
unfoldable pub available_groups : List String → List String → List String
available_groups groups device_groups =
    filter (λ group. not (any (λ member. str_eq member group) device_groups)) groups

-- What disables the button beside the choice of a group.
abbrev pub is_add_disabled : String → Bool → Bool
is_add_disabled selected_group_id is_pending = str_eq selected_group_id "" || is_pending

pub record MaintenanceForm : Type 0 where
  pub enabled : Bool
  pub reason : Text
  pub until : Text

-- The effect that fills the form; `slice(0, 16)` is the minute of the date.
unfoldable pub maintenance_form : Option Bool → Option Text → Option Text → MaintenanceForm
maintenance_form mode reason until = record {
  enabled = elim mode [ none ↦ false | some b ↦ b ];
  reason = get_or reason [];
  until = take 16 (get_or until []);
}

pub record MaintenanceBody : Type 0 where
  pub enabled : Bool
  pub reason : Option Text
  pub until : Option Text

abbrev filled_or_none : Text → Option Text
filled_or_none t = if is_filled t then some t else none

-- The body of updateMaintenance.
unfoldable pub maintenance_body : MaintenanceForm → MaintenanceBody
maintenance_body form = record {
  enabled = form.enabled;
  reason = filled_or_none form.reason;
  until = filled_or_none form.until;
}

pub data Tab : Type 0 where
  overview_tab software_tab events_tab commands_tab network_tab processes_tab config_tab : Tab

abbrev same_tab : Tab → Tab → Bool
same_tab overview_tab overview_tab = true
same_tab software_tab software_tab = true
same_tab events_tab events_tab = true
same_tab commands_tab commands_tab = true
same_tab network_tab network_tab = true
same_tab processes_tab processes_tab = true
same_tab config_tab config_tab = true
same_tab _ _ = false

-- openSections: the overview is open at first; a click on a section turns it.
abbrev pub first_sections : Tab → Bool
first_sections section = same_tab section overview_tab

unfoldable pub toggle_section : Tab → (Tab → Bool) → Tab → Bool
toggle_section section current other =
    if same_tab other section then not (current section) else current other
