-- ===== src/Api/Handlers.antt =====
-- Which function of the server each call of frontend/src/api is meant for; those of the pages
-- themselves stand in Api/Pages.
use dtsys.Prelude.{◌≢◌, String, List, [], ◌∷◌}
use dtsys.Api.Accounts.{
  AdminCall, users, auth_config, connections, storage_stats, cleanup, create_user, update_user,
  reset_user_password, delete_user, audit_log, audit_log_page, AuthCall, login, refresh, OrgCall,
  create, remove, list_members, switch, invite_member, remove_member, update_member,
}
use dtsys.Api.Devices.{
  DeviceCall, get_one, network, ssh_keys, processes, agent_logs, screenshot, request_screenshot,
  config, disconnect, revoke, delete_ssh_key, uptime_history, update_config, maintenance,
  CommandCall, dispatch, bulk, list_for, get_command, MetricCall, history, latest,
}
use dtsys.Api.Fleet.{
  AlertCall, list_page, resolve, GroupCall, groups, create_group, device_groups, group_devices,
  add_devices, remove_device, InventoryCall, inventory, export_csv, RuleCall, rules, create_rule,
  update_rule, SavedCall, saved_commands, create_saved, update_saved, delete_saved, ScheduledCall,
  scheduled_commands, create_scheduled, update_scheduled, remove_scheduled, SoftwareCall, search,
  pending, tags, dispatch_updates,
}
use dtsys.Api.Call.{
  ApiCall, admin, auth, org, agent_version, device, command, metric, alert, group, stock, rule,
  saved, scheduled, software, page,
}
use dtsys.Api.Pages.{page_handler, page_ids}

abbrev pub admin_handler : AdminCall → String
admin_handler users = "admin.list_users"
admin_handler (create_user body) = "admin.create_user"
admin_handler (update_user id body) = "admin.update_user"
admin_handler (reset_user_password id password) = "admin.reset_user_password"
admin_handler (delete_user id) = "admin.delete_user"
admin_handler (audit_log params) = "admin.get_audit_log"
admin_handler (audit_log_page params) = "admin.get_audit_log"
admin_handler auth_config = "admin.get_auth_config"
admin_handler connections = "admin.get_live_connections"
admin_handler storage_stats = "admin.get_storage_stats"
admin_handler cleanup = "admin.cleanup_now"

abbrev pub auth_handler : AuthCall → String
auth_handler (login username password) = "auth.login"
auth_handler (refresh token) = "auth.refresh"

abbrev pub org_handler : OrgCall → String
org_handler OrgCall.list = "organizations.list_orgs"
org_handler (create body) = "organizations.create_org"
org_handler (OrgCall.update id body) = "organizations.update_org"
org_handler (remove id) = "organizations.delete_org"
org_handler (list_members id) = "organizations.list_members"
org_handler (switch id) = "organizations.switch_org"
org_handler (invite_member id body) = "organizations.invite_member"
org_handler (remove_member id user) = "organizations.remove_member"
org_handler (update_member id user body) = "organizations.update_member"

abbrev pub device_handler : DeviceCall → String
device_handler (DeviceCall.list tag text) = "devices.list_devices"
device_handler (get_one id) = "devices.get_device"
device_handler (network id) = "devices.get_device_network"
device_handler (ssh_keys id) = "devices.get_device_ssh_keys"
device_handler (processes id) = "devices.get_device_processes"
device_handler (agent_logs id) = "devices.get_agent_logs"
device_handler (screenshot id) = "devices.get_screenshot"
device_handler (request_screenshot id) = "devices.request_screenshot"
device_handler (config id) = "devices.get_device_config"
device_handler (disconnect id) = "devices.disconnect_device"
device_handler (revoke id) = "devices.revoke_device"
device_handler (delete_ssh_key id key) = "devices.delete_device_ssh_key"
device_handler (uptime_history id days) = "devices.get_uptime_history"
device_handler (update_config id body) = "devices.update_device_config"
device_handler (DeviceCall.update id body) = "devices.update_device"
device_handler (maintenance id body) = "devices.set_device_maintenance"

abbrev pub command_handler : CommandCall → String
command_handler (dispatch id type payload) = "commands.dispatch_command"
command_handler (bulk ids type payload) = "commands_bulk.dispatch_bulk_command"
command_handler (list_for id) = "commands.list_commands"
command_handler (get_command id key) = "commands.get_command"

abbrev pub metric_handler : MetricCall → String
metric_handler (history id hours) = "metrics.get_metrics"
metric_handler (latest id) = "metrics.get_latest_metric"

abbrev pub alert_handler : AlertCall → String
alert_handler (AlertCall.list params) = "alerts.list_alerts"
alert_handler (list_page params) = "alerts.list_alerts"
alert_handler (resolve id) = "alerts.resolve_alert"

abbrev pub group_handler : GroupCall → String
group_handler groups = "groups.list_groups"
group_handler (create_group body) = "groups.create_group"
group_handler (device_groups id) = "groups.list_device_groups"
group_handler (group_devices id) = "groups.list_group_devices"
group_handler (add_devices id devices) = "groups.add_devices_to_group"
group_handler (remove_device id key) = "groups.remove_device_from_group"

abbrev pub stock_handler : InventoryCall → String
stock_handler (inventory params) = "inventory.list_inventory"
stock_handler export_csv = "inventory.export_inventory_csv"

abbrev pub rule_handler : RuleCall → String
rule_handler rules = "notification_rules.list_notification_rules"
rule_handler (create_rule body) = "notification_rules.create_notification_rule"
rule_handler (update_rule id body) = "notification_rules.update_notification_rule"

abbrev pub saved_handler : SavedCall → String
saved_handler saved_commands = "saved_commands.list_saved_commands"
saved_handler (create_saved body) = "saved_commands.create_saved_command"
saved_handler (update_saved id body) = "saved_commands.update_saved_command"
saved_handler (delete_saved id) = "saved_commands.delete_saved_command"

abbrev pub scheduled_handler : ScheduledCall → String
scheduled_handler scheduled_commands = "scheduled_commands.list_scheduled_commands"
scheduled_handler (create_scheduled body) = "scheduled_commands.create_scheduled_command"
scheduled_handler (update_scheduled id body) = "scheduled_commands.update_scheduled_command"
scheduled_handler (remove_scheduled id) = "scheduled_commands.delete_scheduled_command"

abbrev pub software_handler : SoftwareCall → String
software_handler (search q) = "software_catalog.search_software_explicit"
software_handler pending = "software_updates.get_pending_updates"
software_handler tags = "tags.list_tags"
software_handler (dispatch_updates names ids) = "software_updates.dispatch_updates"

abbrev pub handler : ApiCall → String
handler (agent_version platform arch) = "agent.get_agent_version"
handler (admin c) = admin_handler c
handler (auth c) = auth_handler c
handler (org c) = org_handler c
handler (device c) = device_handler c
handler (command c) = command_handler c
handler (metric c) = metric_handler c
handler (alert c) = alert_handler c
handler (group c) = group_handler c
handler (stock c) = stock_handler c
handler (rule c) = rule_handler c
handler (saved c) = saved_handler c
handler (scheduled c) = scheduled_handler c
handler (software c) = software_handler c
handler (page c) = page_handler c

-- The ids that stand at the second place of a path, where the server's paths also have words.
abbrev pub device_ids : DeviceCall → List String
device_ids (DeviceCall.list tag text) = []
device_ids (get_one id) = id ∷ []
device_ids (network id) = id ∷ []
device_ids (ssh_keys id) = id ∷ []
device_ids (processes id) = id ∷ []
device_ids (agent_logs id) = id ∷ []
device_ids (screenshot id) = id ∷ []
device_ids (request_screenshot id) = id ∷ []
device_ids (config id) = id ∷ []
device_ids (disconnect id) = id ∷ []
device_ids (revoke id) = id ∷ []
device_ids (delete_ssh_key id key) = id ∷ []
device_ids (uptime_history id days) = id ∷ []
device_ids (update_config id body) = id ∷ []
device_ids (DeviceCall.update id body) = id ∷ []
device_ids (maintenance id body) = id ∷ []

abbrev pub command_ids : CommandCall → List String
command_ids (dispatch id type payload) = id ∷ []
command_ids (bulk ids type payload) = []
command_ids (list_for id) = id ∷ []
command_ids (get_command id key) = id ∷ []

abbrev pub metric_ids : MetricCall → List String
metric_ids (history id hours) = id ∷ []
metric_ids (latest id) = id ∷ []

abbrev pub group_ids : GroupCall → List String
group_ids groups = []
group_ids (create_group body) = []
group_ids (device_groups id) = id ∷ []
group_ids (group_devices id) = id ∷ []
group_ids (add_devices id devices) = id ∷ []
group_ids (remove_device id key) = id ∷ []

abbrev pub ids_of : ApiCall → List String
ids_of (device c) = device_ids c
ids_of (command c) = command_ids c
ids_of (metric c) = metric_ids c
ids_of (group c) = group_ids c
ids_of (page c) = page_ids c
ids_of _ = []

-- Not a word of the server's paths.
pub record IsId (id : String) : Type 0 where
  pub not_register : id ≢ "register"
  pub not_by_fingerprint : id ≢ "by-fingerprint"
  pub not_devices : id ≢ "devices"
