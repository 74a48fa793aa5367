-- ===== src/Api/Served.antt =====
-- The requests of frontend/src/api against the routes of server/app/api/v1/router.py.
use dtsys.Prelude.{All, sym, ◌≡◌, ◌≢◌, refl, String, false, some, arith, str_eq, str_eq_iff}
use dtsys.Api.Accounts.{
  AdminCall, users, auth_config, connections, storage_stats, cleanup, create_user, update_user,
  reset_user_password, delete_user, audit_log, audit_log_page, admin_request, AuthCall, login,
  refresh, auth_request, OrgCall, create, remove, list_members, switch, invite_member,
  remove_member, update_member, org_request, agent_version_request,
}
use dtsys.Api.Devices.{
  DeviceCall, get_one, network, ssh_keys, processes, agent_logs, screenshot, request_screenshot,
  config, disconnect, revoke, delete_ssh_key, uptime_history, update_config, maintenance,
  device_request, CommandCall, dispatch, bulk, list_for, get_command, command_request, MetricCall,
  history, latest, metric_request,
}
use dtsys.Api.Fleet.{
  AlertCall, list_page, resolve, alert_request, GroupCall, groups, create_group, device_groups,
  group_devices, add_devices, remove_device, group_request, InventoryCall, inventory, export_csv,
  inventory_request, RuleCall, rules, create_rule, update_rule, rule_request, SavedCall,
  saved_commands, create_saved, update_saved, delete_saved, saved_request, ScheduledCall,
  scheduled_commands, create_scheduled, update_scheduled, remove_scheduled, scheduled_request,
  SoftwareCall, search, pending, tags, dispatch_updates, software_request,
}
use dtsys.Api.Routes.{routes, serve, path_matches}
use dtsys.Api.Call.{
  ApiCall, admin, auth, org, agent_version, device, command, metric, alert, group, stock, rule,
  saved, scheduled, software, page, api_request,
}
use dtsys.Api.Pages.{
  PageCall, policies, enrollment_token, plain_version, policy_results, delete_policy, evaluate,
  device_software, create_policy, software_page, events_page, add_user, audit_entries, audit_export,
  alert_stream, activity_stream, audit_stream, agent_download, page_request, page_handler, page_ids,
}
use dtsys.Api.Handlers.{
  admin_handler, auth_handler, org_handler, device_handler, command_handler, metric_handler,
  alert_handler, group_handler, stock_handler, rule_handler, saved_handler, scheduled_handler,
  software_handler, handler, ids_of, device_ids, command_ids, metric_ids, group_ids, IsId,
}

differ : (a b : String) → a ≢ b → str_eq a b ≡ false
differ a b h = ground (arith, str_eq_iff a b)

apart :
    (id : String)
    → IsId id
    → (str_eq "register" id ≡ false)
      × (str_eq "by-fingerprint" id ≡ false)
      × (str_eq id "devices" ≡ false)
      × (str_eq "devices" id ≡ false)
apart id h = (
  differ "register" id (λ e. h.not_register (sym e)),
  differ "by-fingerprint" id (λ e. h.not_by_fingerprint (sym e)),
  differ id "devices" h.not_devices,
  differ "devices" id (λ e. h.not_devices (sym e)),
)

admin_served : (c : AdminCall) → serve routes (admin_request c) ≡ some (admin_handler c)
unfolding admin_request serve path_matches
admin_served users = refl
admin_served (create_user body) = refl
admin_served (update_user id body) = refl
admin_served (reset_user_password id password) = refl
admin_served (delete_user id) = refl
admin_served (audit_log params) = refl
admin_served (audit_log_page params) = refl
admin_served auth_config = refl
admin_served connections = refl
admin_served storage_stats = refl
admin_served cleanup = refl

auth_served : (c : AuthCall) → serve routes (auth_request c) ≡ some (auth_handler c)
unfolding auth_request serve path_matches
auth_served (login username password) = refl
auth_served (refresh token) = refl

org_served : (c : OrgCall) → serve routes (org_request c) ≡ some (org_handler c)
unfolding org_request serve path_matches
org_served OrgCall.list = refl
org_served (create body) = refl
org_served (OrgCall.update id body) = refl
org_served (remove id) = refl
org_served (list_members id) = refl
org_served (switch id) = refl
org_served (invite_member id body) = refl
org_served (remove_member id user) = refl
org_served (update_member id user body) = refl

device_served :
    (c : DeviceCall)
    → All IsId (device_ids c)
    → serve routes (device_request c) ≡ some (device_handler c)
unfolding device_request serve path_matches
device_served (DeviceCall.list tag text) h = refl
device_served (get_one id) h = ground (arith, apart id h.0)
device_served (network id) h = ground (arith, apart id h.0)
device_served (ssh_keys id) h = ground (arith, apart id h.0)
device_served (processes id) h = ground (arith, apart id h.0)
device_served (agent_logs id) h = ground (arith, apart id h.0)
device_served (screenshot id) h = ground (arith, apart id h.0)
device_served (request_screenshot id) h = ground (arith, apart id h.0)
device_served (config id) h = ground (arith, apart id h.0)
device_served (disconnect id) h = ground (arith, apart id h.0)
device_served (revoke id) h = ground (arith, apart id h.0)
device_served (delete_ssh_key id key) h = ground (arith, apart id h.0)
device_served (uptime_history id days) h = ground (arith, apart id h.0)
device_served (update_config id body) h = ground (arith, apart id h.0)
device_served (DeviceCall.update id body) h = ground (arith, apart id h.0)
device_served (maintenance id body) h = ground (arith, apart id h.0)

command_served :
    (c : CommandCall)
    → All IsId (command_ids c)
    → serve routes (command_request c) ≡ some (command_handler c)
unfolding command_request serve path_matches
command_served (dispatch id type payload) h = ground (arith, apart id h.0)
command_served (bulk ids type payload) h = refl
command_served (list_for id) h = ground (arith, apart id h.0)
command_served (get_command id key) h = ground (arith, apart id h.0)

metric_served :
    (c : MetricCall)
    → All IsId (metric_ids c)
    → serve routes (metric_request c) ≡ some (metric_handler c)
unfolding metric_request serve path_matches
metric_served (history id hours) h = ground (arith, apart id h.0)
metric_served (latest id) h = ground (arith, apart id h.0)

alert_served : (c : AlertCall) → serve routes (alert_request c) ≡ some (alert_handler c)
unfolding alert_request serve path_matches
alert_served (AlertCall.list params) = refl
alert_served (list_page params) = refl
alert_served (resolve id) = refl

group_served :
    (c : GroupCall)
    → All IsId (group_ids c)
    → serve routes (group_request c) ≡ some (group_handler c)
unfolding group_request serve path_matches
group_served groups h = refl
group_served (create_group body) h = refl
group_served (device_groups id) h = ground (arith, apart id h.0)
group_served (group_devices id) h = ground (arith, apart id h.0)
group_served (add_devices id devices) h = ground (arith, apart id h.0)
group_served (remove_device id key) h = ground (arith, apart id h.0)

stock_served : (c : InventoryCall) → serve routes (inventory_request c) ≡ some (stock_handler c)
unfolding inventory_request serve path_matches
stock_served (inventory params) = refl
stock_served export_csv = refl

rule_served : (c : RuleCall) → serve routes (rule_request c) ≡ some (rule_handler c)
unfolding rule_request serve path_matches
rule_served rules = refl
rule_served (create_rule body) = refl
rule_served (update_rule id body) = refl

saved_served : (c : SavedCall) → serve routes (saved_request c) ≡ some (saved_handler c)
unfolding saved_request serve path_matches
saved_served saved_commands = refl
saved_served (create_saved body) = refl
saved_served (update_saved id body) = refl
saved_served (delete_saved id) = refl

scheduled_served :
    (c : ScheduledCall) → serve routes (scheduled_request c) ≡ some (scheduled_handler c)
unfolding scheduled_request serve path_matches
scheduled_served scheduled_commands = refl
scheduled_served (create_scheduled body) = refl
scheduled_served (update_scheduled id body) = refl
scheduled_served (remove_scheduled id) = refl

software_served : (c : SoftwareCall) → serve routes (software_request c) ≡ some (software_handler c)
unfolding software_request serve path_matches
software_served (search q) = refl
software_served pending = refl
software_served tags = refl
software_served (dispatch_updates names ids) = refl

page_served :
    (c : PageCall) → All IsId (page_ids c) → serve routes (page_request c) ≡ some (page_handler c)
unfolding page_request serve path_matches
page_served policies h = refl
page_served enrollment_token h = refl
page_served plain_version h = refl
page_served (policy_results id) h = refl
page_served (delete_policy id) h = refl
page_served (evaluate id) h = refl
page_served (device_software id) h = ground (arith, apart id h.0)
page_served (create_policy body) h = refl
page_served (software_page id n size text) h = ground (arith, apart id h.0)
page_served (events_page id n size) h = ground (arith, apart id h.0)
page_served (add_user body) h = refl
page_served (audit_entries params) h = refl
page_served (audit_export params) h = refl
page_served alert_stream h = refl
page_served activity_stream h = refl
page_served (audit_stream token) h = refl
page_served (agent_download platform arch) h = refl

-- Every request that the console sends below /api/v1 reaches a route of the server, and the first route that matches it is
-- that of the function the call is meant for, if the ids behind /devices and /groups are not words of
-- the server's paths.
pub request_served :
    (c : ApiCall) → All IsId (ids_of c) → serve routes (api_request c) ≡ some (handler c)
unfolding api_request
request_served (agent_version platform arch) h =
    unfold agent_version_request serve path_matches in refl
request_served (group c) h = group_served c h
request_served (admin c) h = admin_served c
request_served (auth c) h = auth_served c
request_served (org c) h = org_served c
request_served (device c) h = device_served c h
request_served (command c) h = command_served c h
request_served (metric c) h = metric_served c h
request_served (alert c) h = alert_served c
request_served (stock c) h = stock_served c
request_served (rule c) h = rule_served c
request_served (saved c) h = saved_served c
request_served (scheduled c) h = scheduled_served c
request_served (software c) h = software_served c
request_served (page c) h = page_served c h
