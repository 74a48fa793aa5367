-- ===== src/Api/Fleet.antt =====
-- The requests about alerts, groups, the inventory, saved and scheduled commands, notification rules,
-- software and tags: the other files of frontend/src/api.
use dtsys.Prelude.{String, List, [], ◌∷◌}
use dtsys.Api.{
  Value, text, texts, Fields, no_fields, field, object, get, post, patch, delete, Request, plain,
  fetch, submit,
}

pub data AlertCall : Type 0 where
  list list_page : Fields → AlertCall
  resolve : String → AlertCall

unfoldable pub alert_request : AlertCall → Request
alert_request (list params) = fetch ("alerts" ∷ []) params
alert_request (list_page params) = fetch ("alerts" ∷ []) params
alert_request (resolve id) = plain post ("alerts" ∷ id ∷ "resolve" ∷ [])

pub data GroupCall : Type 0 where
  groups : GroupCall
  create_group : Value → GroupCall
  device_groups group_devices : String → GroupCall
  add_devices : String → List String → GroupCall
  remove_device : String → String → GroupCall

unfoldable pub group_request : GroupCall → Request
group_request groups = plain get ("groups" ∷ [])
group_request (create_group body) = submit post ("groups" ∷ []) body
group_request (device_groups device_id) = plain get ("groups" ∷ "device" ∷ device_id ∷ [])
group_request (group_devices group_id) = plain get ("groups" ∷ group_id ∷ "devices" ∷ [])
group_request (add_devices group_id device_ids) =
    submit post ("groups" ∷ group_id ∷ "devices" ∷ [])
      (object (field "device_ids" (texts device_ids) no_fields))
group_request (remove_device group_id device_id) =
    plain delete ("groups" ∷ group_id ∷ "devices" ∷ device_id ∷ [])

pub data InventoryCall : Type 0 where
  inventory : Fields → InventoryCall
  export_csv : InventoryCall

unfoldable pub inventory_request : InventoryCall → Request
inventory_request (inventory params) = fetch ("inventory" ∷ []) params
inventory_request export_csv = plain get ("inventory" ∷ "export.csv" ∷ [])

pub data RuleCall : Type 0 where
  rules : RuleCall
  create_rule : Value → RuleCall
  update_rule : String → Value → RuleCall

unfoldable pub rule_request : RuleCall → Request
rule_request rules = plain get ("notification-rules" ∷ [])
rule_request (create_rule body) = submit post ("notification-rules" ∷ []) body
rule_request (update_rule id body) = submit patch ("notification-rules" ∷ id ∷ []) body

pub data SavedCall : Type 0 where
  saved_commands : SavedCall
  create_saved : Value → SavedCall
  update_saved : String → Value → SavedCall
  delete_saved : String → SavedCall

unfoldable pub saved_request : SavedCall → Request
saved_request saved_commands = plain get ("saved-commands" ∷ [])
saved_request (create_saved body) = submit post ("saved-commands" ∷ []) body
saved_request (update_saved id body) = submit patch ("saved-commands" ∷ id ∷ []) body
saved_request (delete_saved id) = plain delete ("saved-commands" ∷ id ∷ [])

pub data ScheduledCall : Type 0 where
  scheduled_commands : ScheduledCall
  create_scheduled : Value → ScheduledCall
  update_scheduled : String → Value → ScheduledCall
  remove_scheduled : String → ScheduledCall

unfoldable pub scheduled_request : ScheduledCall → Request
scheduled_request scheduled_commands = plain get ("scheduled-commands" ∷ [])
scheduled_request (create_scheduled body) = submit post ("scheduled-commands" ∷ []) body
scheduled_request (update_scheduled id body) = submit patch ("scheduled-commands" ∷ id ∷ []) body
scheduled_request (remove_scheduled id) = plain delete ("scheduled-commands" ∷ id ∷ [])

pub data SoftwareCall : Type 0 where
  search : String → SoftwareCall
  pending tags : SoftwareCall
  dispatch_updates : List String → List String → SoftwareCall

-- softwareApi, softwareUpdatesApi and tagsApi.
unfoldable pub software_request : SoftwareCall → Request
software_request (search q) = fetch ("software" ∷ "search" ∷ []) (field "q" (text q) no_fields)
software_request pending = plain get ("software-updates" ∷ "pending" ∷ [])
software_request (dispatch_updates software_names device_ids) =
    submit post ("software-updates" ∷ "dispatch" ∷ []) (
      object (
        field "software_names" (texts software_names)
          (field "device_ids" (texts device_ids) no_fields)))
software_request tags = plain get ("tags" ∷ [])
