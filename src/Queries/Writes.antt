-- ===== src/Queries/Writes.antt =====
-- The mutations of the console, each as it stands in its component: its request, and the keys that its
-- `onSuccess` marks as stale. What else a success resets is left out.
use dtsys.Prelude.{String, Bool, true, List, [], ◌∷◌, some, str_eq, if◌then◌else◌}
use dtsys.Prelude.Storage.{is_truthy}
use dtsys.Api.{Value, null, flag, text, no_fields, field, object}
use dtsys.Api.Call.{admin, org, device, alert, scheduled, page}
use dtsys.Api.Accounts.{
  create_user, update_user, reset_user_password, delete_user, create, remove, invite_member,
  remove_member, update_member,
}
use dtsys.Api.Devices.{DeviceCall}
use dtsys.Api.Fleet.{resolve, create_scheduled, update_scheduled}
use dtsys.Api.Pages.{enrollment_token}
use dtsys.Queries.{Key, word, MutationUse}

-- `value || null`
abbrev pub text_or_null : String → Value
text_or_null s = if is_truthy (some s) then text s else null

abbrev pub one : String → List Key
one head = (word head ∷ []) ∷ []

abbrev pub one_of : String → String → List Key
one_of head id = (word head ∷ word id ∷ []) ∷ []

-- hooks/useDevices.ts
abbrev pub update_device_mutation : String → Value → MutationUse
update_device_mutation id body = record {
  call = device (DeviceCall.update id body);
  stale =
      (word "device" ∷ word id ∷ [])
      ∷ (word "devices" ∷ [])
      ∷ (word "inventory" ∷ [])
      ∷ (word "tags" ∷ [])
      ∷ [];
}

-- hooks/useAlerts.ts
abbrev pub resolve_alert_mutation : String → MutationUse
resolve_alert_mutation id = record { call = alert (resolve id); stale = one "alerts" }

-- pages/Users.tsx
abbrev pub invite_user_mutation : String → String → String → MutationUse
invite_user_mutation username password role = record {
  call = admin (
      create_user (
        object (
          field "username" (text username)
            (field "password" (text password) (field "role" (text role) no_fields)))));
  stale = one "admin-users";
}

abbrev pub update_user_mutation : String → Value → MutationUse
update_user_mutation id body = record {
  call = admin (update_user id body);
  stale = one "admin-users";
}

abbrev pub reset_password_mutation : String → String → MutationUse
reset_password_mutation id password = record {
  call = admin (reset_user_password id password);
  stale = one "admin-users";
}

abbrev pub delete_user_mutation : String → MutationUse
delete_user_mutation id = record { call = admin (delete_user id); stale = one "admin-users" }

-- pages/ScheduledCommands.tsx
pub record ScheduleForm : Type 0 where
  pub target : String
  pub device_id : String
  pub command_type : String
  pub cron_expression : String
  pub shell_command : String

abbrev pub schedule_body : ScheduleForm → Value
schedule_body form = object (
    field "device_id" (if str_eq form.target "all" then null else text form.device_id) (
      field "command_type" (text form.command_type) (
        field "cron_expression" (text form.cron_expression) (
          field "payload"
            (object (
              if str_eq form.command_type "shell"
              then field "command" (text form.shell_command) no_fields
              else no_fields))
            (field "is_enabled" (flag true) no_fields)))))

abbrev pub create_schedule_mutation : ScheduleForm → MutationUse
create_schedule_mutation form = record {
  call = scheduled (create_scheduled (schedule_body form));
  stale = one "scheduled-commands";
}

abbrev pub enabled_body : Bool → Value
enabled_body is_enabled = object (field "is_enabled" (flag is_enabled) no_fields)

abbrev pub toggle_schedule_mutation : String → Bool → MutationUse
toggle_schedule_mutation id is_enabled = record {
  call = scheduled (update_scheduled id (enabled_body is_enabled));
  stale = one "scheduled-commands";
}

-- pages/Inventory.tsx
abbrev pub update_field_mutation : String → String → String → MutationUse
update_field_mutation id name value = record {
  call = device (DeviceCall.update id (object (field name (text_or_null value) no_fields)));
  stale = (word "inventory" ∷ []) ∷ (word "device" ∷ []) ∷ [];
}

-- pages/Onboarding.tsx
abbrev pub token_mutation : MutationUse
token_mutation = record { call = page enrollment_token; stale = [] }

-- pages/Organizations.tsx
abbrev pub invite_mutation : String → String → String → MutationUse
invite_mutation id username role = record {
  call = org (
      invite_member id
        (object (field "username" (text username) (field "role" (text role) no_fields))));
  stale = one_of "org-members" id;
}

abbrev pub remove_member_mutation : String → String → MutationUse
remove_member_mutation id user = record {
  call = org (remove_member id user);
  stale = one_of "org-members" id;
}

abbrev pub change_role_mutation : String → String → String → MutationUse
change_role_mutation id user role = record {
  call = org (update_member id user (object (field "role" (text role) no_fields)));
  stale = one_of "org-members" id;
}

abbrev pub create_org_mutation : String → String → MutationUse
create_org_mutation name slug = record {
  call = org (create (object (field "name" (text name) (field "slug" (text slug) no_fields))));
  stale = one "organizations";
}

abbrev pub delete_org_mutation : String → MutationUse
delete_org_mutation id = record { call = org (remove id); stale = one "organizations" }
