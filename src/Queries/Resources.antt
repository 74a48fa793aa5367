-- ===== src/Queries/Resources.antt =====
-- What the server keeps and the console shows: the resources that its queries read, with the path of
-- each and the key that the keys of its queries begin with.
use dtsys.Prelude.{String, List, [], ◌∷◌}
use dtsys.Queries.{Key, word}

pub data Resource : Type 0 where
  devices_data : Resource
  one_data : String → Resource
  metrics_data : String → Resource
  last_metric_data : String → Resource
  alerts_data : Resource
  tags_data : Resource
  groups_data : Resource
  group_devices_data : String → Resource
  updates_data : Resource
  users_data : Resource
  schedules_data : Resource
  organizations_data : Resource
  members_data : String → Resource
  saved_data : Resource
  policies_data : Resource
  results_data : String → Resource
  inventory_data : Resource
  rules_data : Resource
  audit_data : Resource
  audit_entries_data : Resource
  auth_config_data : Resource
  connections_data : Resource
  storage_data : Resource
  software_data : String → Resource
  version_data : Resource
  config_data : String → Resource
  device_groups_data : String → Resource
  screenshot_data : String → Resource
  uptime_data : String → Resource
  ssh_keys_data : String → Resource
  commands_data : String → Resource
  network_data : String → Resource
  processes_data : String → Resource
  agent_logs_data : String → Resource
  events_data : String → Resource
  catalog_data : Resource

abbrev pub path_of : Resource → List String
path_of devices_data = "devices" ∷ []
path_of (one_data id) = "devices" ∷ id ∷ []
path_of (metrics_data id) = "devices" ∷ id ∷ "metrics" ∷ []
path_of (last_metric_data id) = "devices" ∷ id ∷ "metrics" ∷ "latest" ∷ []
path_of alerts_data = "alerts" ∷ []
path_of tags_data = "tags" ∷ []
path_of groups_data = "groups" ∷ []
path_of (group_devices_data id) = "groups" ∷ id ∷ "devices" ∷ []
path_of updates_data = "software-updates" ∷ "pending" ∷ []
path_of users_data = "admin" ∷ "users" ∷ []
path_of schedules_data = "scheduled-commands" ∷ []
path_of organizations_data = "organizations" ∷ []
path_of (members_data id) = "organizations" ∷ id ∷ "members" ∷ []
path_of saved_data = "saved-commands" ∷ []
path_of policies_data = "compliance" ∷ "policies" ∷ []
path_of (results_data id) = "compliance" ∷ "results" ∷ []
path_of inventory_data = "inventory" ∷ []
path_of rules_data = "notification-rules" ∷ []
path_of audit_data = "admin" ∷ "audit-log" ∷ []
path_of audit_entries_data = "audit" ∷ []
path_of auth_config_data = "admin" ∷ "auth-config" ∷ []
path_of connections_data = "admin" ∷ "connections" ∷ []
path_of storage_data = "admin" ∷ "storage-stats" ∷ []
path_of (software_data id) = "devices" ∷ id ∷ "software" ∷ []
path_of version_data = "agent" ∷ "version" ∷ []
path_of (config_data id) = "devices" ∷ id ∷ "config" ∷ []
path_of (device_groups_data id) = "groups" ∷ "device" ∷ id ∷ []
path_of (screenshot_data id) = "devices" ∷ id ∷ "screenshot" ∷ []
path_of (uptime_data id) = "devices" ∷ id ∷ "uptime-history" ∷ []
path_of (ssh_keys_data id) = "devices" ∷ id ∷ "ssh-keys" ∷ []
path_of (commands_data id) = "devices" ∷ id ∷ "commands" ∷ []
path_of (network_data id) = "devices" ∷ id ∷ "network" ∷ []
path_of (processes_data id) = "devices" ∷ id ∷ "processes" ∷ []
path_of (agent_logs_data id) = "devices" ∷ id ∷ "agent-logs" ∷ []
path_of (events_data id) = "devices" ∷ id ∷ "events" ∷ []
path_of catalog_data = "software" ∷ "search" ∷ []

-- The empty key stands for what the requests of the mutations do not name.
abbrev pub family : Resource → Key
family devices_data = word "devices" ∷ []
family (one_data id) = word "device" ∷ word id ∷ []
family (metrics_data id) = []
family (last_metric_data id) = []
family alerts_data = word "alerts" ∷ []
family tags_data = word "tags" ∷ []
family groups_data = word "groups" ∷ []
family (group_devices_data id) = word "groups" ∷ word id ∷ []
family updates_data = []
family users_data = word "admin-users" ∷ []
family schedules_data = word "scheduled-commands" ∷ []
family organizations_data = word "organizations" ∷ []
family (members_data id) = word "org-members" ∷ word id ∷ []
family saved_data = word "saved-commands" ∷ []
family policies_data = word "compliance-policies" ∷ []
family (results_data id) = word "compliance-results" ∷ word id ∷ []
family inventory_data = word "inventory" ∷ []
family rules_data = word "notification-rules" ∷ []
family audit_data = []
family audit_entries_data = []
family auth_config_data = []
family connections_data = word "admin-connections" ∷ []
family storage_data = word "storage-stats" ∷ []
family (software_data id) = []
family version_data = []
family (config_data id) = word "device-config" ∷ word id ∷ []
family (device_groups_data id) = word "device-groups" ∷ word id ∷ []
family (screenshot_data id) = word "device-screenshot" ∷ word id ∷ []
family (uptime_data id) = []
family (ssh_keys_data id) = word "device-ssh-keys" ∷ word id ∷ []
family (commands_data id) = word "commands" ∷ word id ∷ []
family (network_data id) = []
family (processes_data id) = word "device-processes" ∷ word id ∷ []
family (agent_logs_data id) = []
family (events_data id) = []
family catalog_data = []
