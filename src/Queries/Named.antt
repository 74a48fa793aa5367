-- ===== src/Queries/Named.antt =====
-- The resources that the path of a request names: those of the longest path of a resource that it begins with;
-- and where this is a whole path, of one device, the list of the devices as well. The latest metric of a device
-- and the results of policies, which are only read at their paths, are left out.
use dtsys.Prelude.{String, List, [], ◌∷◌, str_eq, if◌then◌else◌}
use dtsys.Queries.Resources.{
  Resource, devices_data, one_data, metrics_data, alerts_data, tags_data, groups_data,
  group_devices_data, updates_data, users_data, schedules_data, organizations_data, members_data,
  saved_data, policies_data, inventory_data, rules_data, audit_data, audit_entries_data,
  auth_config_data, connections_data, storage_data, software_data, version_data, config_data,
  screenshot_data, uptime_data, ssh_keys_data, commands_data, network_data, processes_data,
  agent_logs_data, events_data, catalog_data, device_groups_data,
}

-- What lies below a device.
abbrev pub part_named : String → String → List Resource
part_named id word =
    if str_eq word "network"
    then network_data id ∷ []
    else if str_eq word "metrics"
    then metrics_data id ∷ []
    else if str_eq word "commands"
    then commands_data id ∷ []
    else if str_eq word "software"
    then software_data id ∷ []
    else if str_eq word "events"
    then events_data id ∷ []
    else if str_eq word "config"
    then config_data id ∷ []
    else if str_eq word "screenshot"
    then screenshot_data id ∷ []
    else if str_eq word "processes"
    then processes_data id ∷ []
    else if str_eq word "ssh-keys"
    then ssh_keys_data id ∷ []
    else if str_eq word "uptime-history"
    then uptime_data id ∷ []
    else if str_eq word "agent-logs"
    then agent_logs_data id ∷ []
    else one_data id ∷ []

abbrev pub device_named : List String → List Resource
device_named [] = devices_data ∷ []
device_named (id ∷ []) = one_data id ∷ devices_data ∷ []
device_named (id ∷ word ∷ rest) = part_named id word

-- `/groups/{id}/devices`, and `/groups/device/{id}`.
abbrev pub group_named : List String → List Resource
group_named [] = groups_data ∷ []
group_named (id ∷ []) = groups_data ∷ []
group_named (id ∷ word ∷ rest) =
    if str_eq word "devices"
    then group_devices_data id ∷ []
    else if str_eq id "device"
    then device_groups_data word ∷ []
    else groups_data ∷ []

abbrev pub organization_named : List String → List Resource
organization_named [] = organizations_data ∷ []
organization_named (id ∷ []) = organizations_data ∷ []
organization_named (id ∷ word ∷ rest) =
    if str_eq word "members" then members_data id ∷ [] else organizations_data ∷ []

abbrev pub admin_named : List String → List Resource
admin_named [] = []
admin_named (word ∷ rest) =
    if str_eq word "users"
    then users_data ∷ []
    else if str_eq word "audit-log"
    then audit_data ∷ []
    else if str_eq word "auth-config"
    then auth_config_data ∷ []
    else if str_eq word "connections"
    then connections_data ∷ []
    else if str_eq word "storage-stats"
    then storage_data ∷ []
    else []

abbrev pub under_word : String → Resource → List String → List Resource
under_word name r [] = []
under_word name r (word ∷ rest) = if str_eq word name then r ∷ [] else []

unfoldable pub named : List String → List Resource
named [] = []
named (word ∷ rest) =
    if str_eq word "devices"
    then device_named rest
    else if str_eq word "groups"
    then group_named rest
    else if str_eq word "organizations"
    then organization_named rest
    else if str_eq word "admin"
    then admin_named rest
    else if str_eq word "alerts"
    then alerts_data ∷ []
    else if str_eq word "tags"
    then tags_data ∷ []
    else if str_eq word "software-updates"
    then under_word "pending" updates_data rest
    else if str_eq word "scheduled-commands"
    then schedules_data ∷ []
    else if str_eq word "saved-commands"
    then saved_data ∷ []
    else if str_eq word "compliance"
    then under_word "policies" policies_data rest
    else if str_eq word "inventory"
    then inventory_data ∷ []
    else if str_eq word "notification-rules"
    then rules_data ∷ []
    else if str_eq word "audit"
    then audit_entries_data ∷ []
    else if str_eq word "agent"
    then under_word "version" version_data rest
    else if str_eq word "software"
    then under_word "search" catalog_data rest
    else []
