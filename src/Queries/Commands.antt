-- ===== src/Queries/Commands.antt =====
-- The mutations of the command pages, the settings and the device page, as in Queries/Writes.
use dtsys.Prelude.{
  get_or, String, Bool, false, List, [], ◌∷◌, Option, none, some, str_eq, if◌then◌else◌,
}
use dtsys.Api.{Value, null, flag, text, Fields, no_fields, field, object}
use dtsys.Api.Call.{admin, device, command, group, rule, saved, software, page}
use dtsys.Api.Accounts.{cleanup}
use dtsys.Api.Devices.{
  update_config, maintenance, request_screenshot, delete_ssh_key, disconnect, dispatch, bulk,
}
use dtsys.Api.Fleet.{
  create_group, add_devices, create_rule, update_rule, create_saved, update_saved, delete_saved,
  dispatch_updates,
}
use dtsys.Api.Pages.{create_policy, delete_policy, evaluate}
use dtsys.Queries.{word, MutationUse}
use dtsys.Queries.Writes.{text_or_null, one, one_of, enabled_body}

-- pages/CommandLibrary.tsx: `editing` is the id of the command under the form, if it is no new one.
abbrev pub upsert_mutation : Option String → Value → MutationUse
upsert_mutation none form = record {
  call = saved (create_saved form);
  stale = one "saved-commands";
}
upsert_mutation (some id) form = record {
  call = saved (update_saved id form);
  stale = one "saved-commands";
}

abbrev pub remove_saved_mutation : String → MutationUse
remove_saved_mutation id = record { call = saved (delete_saved id); stale = one "saved-commands" }

abbrev pub run_saved_mutation : String → String → Fields → MutationUse
run_saved_mutation device_id command_type payload = record {
  call = command (dispatch device_id command_type (some payload));
  stale = [];
}

-- pages/Compliance.tsx
abbrev pub create_policy_mutation : String → String → Value → MutationUse
create_policy_mutation name description rules = record {
  call = page (
      create_policy (
        object (
          field "name" (text name)
            (field "description" (text_or_null description) (field "rules" rules no_fields)))));
  stale = one "compliance-policies";
}

abbrev pub delete_policy_mutation : String → MutationUse
delete_policy_mutation id = record {
  call = page (delete_policy id);
  stale = one "compliance-policies";
}

abbrev pub evaluate_mutation : String → MutationUse
evaluate_mutation id = record { call = page (evaluate id); stale = one_of "compliance-results" id }

-- pages/Settings.tsx
pub record RuleForm : Type 0 where
  pub alert_type : String
  pub severity_min : String
  pub channel : String
  pub webhook_url : String
  pub email_address : String

abbrev pub rule_body : RuleForm → Value
rule_body form = object (
    field "alert_type" (text form.alert_type) (
      field "severity_min" (text form.severity_min) (
        field "channel" (text form.channel) (
          field "webhook_url"
            (if str_eq form.channel "webhook" then text form.webhook_url else null)
            (field "email_address"
              (if str_eq form.channel "email" then text form.email_address else null) no_fields)))))

abbrev pub create_rule_mutation : RuleForm → MutationUse
create_rule_mutation form = record {
  call = rule (create_rule (rule_body form));
  stale = one "notification-rules";
}

abbrev pub update_rule_mutation : String → Bool → MutationUse
update_rule_mutation id is_enabled = record {
  call = rule (update_rule id (enabled_body is_enabled));
  stale = one "notification-rules";
}

abbrev pub disconnect_mutation : String → MutationUse
disconnect_mutation id = record { call = device (disconnect id); stale = one "admin-connections" }

abbrev pub cleanup_mutation : MutationUse
cleanup_mutation = record { call = admin cleanup; stale = one "storage-stats" }

-- pages/DeviceDetail.tsx
abbrev pub save_config_mutation : String → Value → MutationUse
save_config_mutation id form = record {
  call = device (update_config id form);
  stale = one_of "device-config" id;
}

abbrev pub add_to_group_mutation : String → String → MutationUse
add_to_group_mutation group_id id = record {
  call = group (add_devices group_id (id ∷ []));
  stale = (word "device-groups" ∷ word id ∷ []) ∷ (word "groups" ∷ []) ∷ [];
}

abbrev pub screenshot_mutation : String → MutationUse
screenshot_mutation id = record {
  call = device (request_screenshot id);
  stale = one_of "device-screenshot" id;
}

abbrev pub update_agent_mutation : String → MutationUse
update_agent_mutation id = record {
  call = command (dispatch id "update" (some no_fields));
  stale = one_of "commands" id;
}

abbrev pub maintenance_mutation : String → Bool → String → String → MutationUse
maintenance_mutation id enabled reason until = record {
  call = device (
      maintenance id (
        object (
          field "enabled" (flag enabled) (
            field "reason" (text_or_null reason) (field "until" (text_or_null until) no_fields)))));
  stale = (word "device" ∷ word id ∷ []) ∷ (word "devices" ∷ []) ∷ [];
}

abbrev pub remove_ssh_key_mutation : String → String → MutationUse
remove_ssh_key_mutation id key_id = record {
  call = device (delete_ssh_key id key_id);
  stale = one_of "device-ssh-keys" id;
}

-- pages/SoftwareUpdates.tsx
abbrev pub dispatch_updates_mutation : List String → List String → MutationUse
dispatch_updates_mutation software_names device_ids = record {
  call = software (dispatch_updates software_names device_ids);
  stale = [];
}

-- components/layout/Sidebar.tsx
abbrev pub create_group_mutation : String → String → MutationUse
create_group_mutation name color = record {
  call =
      group
        (create_group (object (field "name" (text name) (field "color" (text color) no_fields))));
  stale = one "groups";
}

-- components/device/CommandPanel.tsx
abbrev pub dispatch_mutation : String → String → Option Fields → MutationUse
dispatch_mutation id command_type payload = record {
  call = command (dispatch id command_type (some (get_or payload no_fields)));
  stale = one_of "commands" id;
}

abbrev pub save_command_mutation : String → String → String → MutationUse
save_command_mutation name description command_text = record {
  call = saved (
      create_saved (
        object (
          field "name" (text name) (
            field "description" (text_or_null description) (
              field "command_type" (text "shell") (
                field "payload" (object (field "command" (text command_text) no_fields))
                  (field "is_global" (flag false) (field "device_id" null no_fields))))))));
  stale = one "saved-commands";
}

-- components/device/BulkCommandBar.tsx
abbrev pub bulk_mutation : List String → String → Option Fields → MutationUse
bulk_mutation ids command_type payload = record {
  call = command (bulk ids command_type (some (get_or payload no_fields)));
  stale = one "devices";
}

-- components/device/ProcessList.tsx
abbrev pub refresh_processes_mutation : String → MutationUse
refresh_processes_mutation id = record {
  call = command (dispatch id "request_process_list" none);
  stale = [];
}
