-- ===== src/Queries/Paths.antt =====
-- Which resource each query reads.
use dtsys.Prelude.{◌≡◌, refl, true, false}
use dtsys.Api.Call.{api_request}
use dtsys.Api.Accounts.{admin_request, org_request, agent_version_request}
use dtsys.Api.Devices.{device_request, command_request, metric_request}
use dtsys.Api.Fleet.{
  alert_request, group_request, inventory_request, rule_request, saved_request, scheduled_request,
  software_request,
}
use dtsys.Api.Pages.{page_request}
use dtsys.Queries.Resources.{
  Resource, path_of, devices_data, one_data, metrics_data, last_metric_data, alerts_data, tags_data,
  groups_data, group_devices_data, updates_data, users_data, schedules_data, organizations_data,
  members_data, saved_data, policies_data, results_data, inventory_data, rules_data, audit_data,
  audit_entries_data, auth_config_data, connections_data, storage_data, software_data, version_data,
  config_data, device_groups_data, screenshot_data, uptime_data, ssh_keys_data, commands_data,
  network_data, processes_data, agent_logs_data, events_data, catalog_data,
}
use dtsys.Queries.Reads.{
  Query, query_request, device_list, one_device, metric_history, latest_metric, alert_list,
  scheduled_devices, library_devices, report_devices, onboarding_devices, custom_devices,
  home_devices, tag_list, group_list, devices_of_group, pending_updates, user_list, schedules,
  organizations, organization_page, members, saved_list, compliance_policies, compliance_results,
  alert_page, stock_list, rule_list, audit_page, auth_settings, live_connections, storage,
  audit_search, report_alerts, report_metrics, report_software, newest_version, device_config,
  group_choice, groups_of_device, screenshot_of, history_of, keys_of, version_for, commands_of,
  saved_panel, network_of, processes_of, events_of, software_of, card_alerts, card_metrics,
  found_devices, found_software, compared_device, compared_alerts, compared_metric,
  compared_software,
}

abbrev pub resource_of : Query → Resource
resource_of (device_list tag) = devices_data
resource_of (one_device id) = one_data id
resource_of (metric_history id hours) = metrics_data id
resource_of (latest_metric id) = last_metric_data id
resource_of (alert_list params) = alerts_data
resource_of scheduled_devices = devices_data
resource_of library_devices = devices_data
resource_of report_devices = devices_data
resource_of (onboarding_devices is_admin step) = devices_data
resource_of (home_devices is_admin) = devices_data
resource_of custom_devices = devices_data
resource_of tag_list = tags_data
resource_of group_list = groups_data
resource_of (devices_of_group id) = group_devices_data id
resource_of pending_updates = updates_data
resource_of (user_list is_admin) = users_data
resource_of schedules = schedules_data
resource_of (organizations username) = organizations_data
resource_of organization_page = organizations_data
resource_of (members id) = members_data id
resource_of saved_list = saved_data
resource_of compliance_policies = policies_data
resource_of (compliance_results id expanded) = results_data id
resource_of (alert_page n show_resolved) = alerts_data
resource_of (stock_list assigned_to expiring_only) = inventory_data
resource_of (rule_list is_admin) = rules_data
resource_of (audit_page is_admin action n) = audit_data
resource_of (auth_settings is_admin) = auth_config_data
resource_of (live_connections is_admin) = connections_data
resource_of (storage is_admin) = storage_data
resource_of (audit_search filters n) = audit_entries_data
resource_of (report_alerts id) = alerts_data
resource_of (report_metrics id hours) = metrics_data id
resource_of (report_software id) = software_data id
resource_of newest_version = version_data
resource_of (device_config id) = config_data id
resource_of group_choice = groups_data
resource_of (groups_of_device id) = device_groups_data id
resource_of (screenshot_of id is_capturing) = screenshot_data id
resource_of (history_of id) = uptime_data id
resource_of (keys_of id) = ssh_keys_data id
resource_of (version_for os_type arch is_loaded) = version_data
resource_of (commands_of id) = commands_data id
resource_of saved_panel = saved_data
resource_of (network_of id) = network_data id
resource_of (processes_of id active) = processes_data id
resource_of (events_of id true n) = agent_logs_data id
resource_of (events_of id false n) = events_data id
resource_of (software_of id n found) = software_data id
resource_of (card_alerts id status) = alerts_data
resource_of (card_metrics id status) = metrics_data id
resource_of (found_devices is_asked query) = devices_data
resource_of (found_software is_asked query) = catalog_data
resource_of (compared_device id) = one_data id
resource_of (compared_alerts id) = alerts_data
resource_of (compared_metric id) = last_metric_data id
resource_of (compared_software id) = software_data id

-- The request of a query reads the path of its resource.
pub query_request-path : (q : Query) → (query_request q).path ≡ path_of (resource_of q)
unfolding query_request api_request admin_request org_request agent_version_request device_request
    command_request metric_request alert_request group_request inventory_request rule_request
    saved_request scheduled_request software_request page_request
query_request-path (device_list tag) = refl
query_request-path (one_device id) = refl
query_request-path (metric_history id hours) = refl
query_request-path (latest_metric id) = refl
query_request-path (alert_list params) = refl
query_request-path scheduled_devices = refl
query_request-path library_devices = refl
query_request-path report_devices = refl
query_request-path (onboarding_devices is_admin step) = refl
query_request-path (home_devices is_admin) = refl
query_request-path custom_devices = refl
query_request-path tag_list = refl
query_request-path group_list = refl
query_request-path (devices_of_group id) = refl
query_request-path pending_updates = refl
query_request-path (user_list is_admin) = refl
query_request-path schedules = refl
query_request-path (organizations username) = refl
query_request-path organization_page = refl
query_request-path (members id) = refl
query_request-path saved_list = refl
query_request-path compliance_policies = refl
query_request-path (compliance_results id expanded) = refl
query_request-path (alert_page n show_resolved) = refl
query_request-path (stock_list assigned_to expiring_only) = refl
query_request-path (rule_list is_admin) = refl
query_request-path (audit_page is_admin action n) = refl
query_request-path (auth_settings is_admin) = refl
query_request-path (live_connections is_admin) = refl
query_request-path (storage is_admin) = refl
query_request-path (audit_search filters n) = refl
query_request-path (report_alerts id) = refl
query_request-path (report_metrics id hours) = refl
query_request-path (report_software id) = refl
query_request-path newest_version = refl
query_request-path (device_config id) = refl
query_request-path group_choice = refl
query_request-path (groups_of_device id) = refl
query_request-path (screenshot_of id is_capturing) = refl
query_request-path (history_of id) = refl
query_request-path (keys_of id) = refl
query_request-path (version_for os_type arch is_loaded) = refl
query_request-path (commands_of id) = refl
query_request-path saved_panel = refl
query_request-path (network_of id) = refl
query_request-path (processes_of id active) = refl
query_request-path (events_of id true n) = refl
query_request-path (events_of id false n) = refl
query_request-path (software_of id n found) = refl
query_request-path (card_alerts id status) = refl
query_request-path (card_metrics id status) = refl
query_request-path (found_devices is_asked query) = refl
query_request-path (found_software is_asked query) = refl
query_request-path (compared_device id) = refl
query_request-path (compared_alerts id) = refl
query_request-path (compared_metric id) = refl
query_request-path (compared_software id) = refl
