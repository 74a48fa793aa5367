-- ===== src/Queries/Reads.antt =====
-- Any query of the console, with what it asks and under which key the answer is kept. The public status
-- page, which asks outside of the API, is left out.
use dtsys.Prelude.{ℕ, String, Bool, Option}
use dtsys.Types.{DeviceStatus}
use dtsys.Api.{Fields, Request}
use dtsys.Api.Call.{api_request}
use dtsys.Queries.{QueryUse}
use dtsys.Queries.Fleet.{
  device_list_query, one_device_query, metric_history_query, latest_metric_query, alert_list_query,
  report_devices_query, onboarding_devices_query, custom_devices_query, home_devices_query,
  tag_list_query, group_list_query, devices_of_group_query, alert_page_query, stock_list_query,
  report_alerts_query, report_metrics_query, report_software_query,
}
use dtsys.Queries.Accounts.{
  AuditFilters, scheduled_devices_query, library_devices_query, pending_updates_query,
  user_list_query, schedules_query, organizations_query, organization_page_query, members_query,
  saved_list_query, compliance_policies_query, compliance_results_query, rule_list_query,
  audit_page_query, auth_settings_query, live_connections_query, storage_query, audit_search_query,
  newest_version_query,
}
use dtsys.Queries.Panels.{
  OsType, device_config_query, group_choice_query, groups_of_device_query, screenshot_of_query,
  history_of_query, keys_of_query, version_for_query, commands_of_query, saved_panel_query,
  network_of_query, processes_of_query, events_of_query, software_of_query, card_alerts_query,
  card_metrics_query, found_devices_query, found_software_query, compared_device_query,
  compared_alerts_query, compared_metric_query, compared_software_query,
}

pub data Query : Type 0 where
  device_list : Option String → Query
  one_device : String → Query
  metric_history : String → ℕ → Query
  latest_metric : String → Query
  alert_list : Option Fields → Query
  scheduled_devices : Query
  library_devices : Query
  report_devices : Query
  onboarding_devices : Bool → ℕ → Query
  custom_devices : Query
  home_devices : Bool → Query
  tag_list : Query
  group_list : Query
  devices_of_group : String → Query
  pending_updates : Query
  user_list : Bool → Query
  schedules : Query
  organizations : Option String → Query
  organization_page : Query
  members : String → Query
  saved_list : Query
  compliance_policies : Query
  compliance_results : String → Bool → Query
  alert_page : ℕ → Bool → Query
  stock_list : String → Bool → Query
  rule_list : Bool → Query
  audit_page : Bool → String → ℕ → Query
  auth_settings : Bool → Query
  live_connections : Bool → Query
  storage : Bool → Query
  audit_search : AuditFilters → ℕ → Query
  report_alerts : String → Query
  report_metrics : String → ℕ → Query
  report_software : String → Query
  newest_version : Query
  device_config : String → Query
  group_choice : Query
  groups_of_device : String → Query
  screenshot_of : String → Bool → Query
  history_of : String → Query
  keys_of : String → Query
  version_for : Option OsType → Option String → Bool → Query
  commands_of : String → Query
  saved_panel : Query
  network_of : String → Query
  processes_of : String → Bool → Query
  events_of : String → Bool → ℕ → Query
  software_of : String → ℕ → String → Query
  card_alerts : String → DeviceStatus → Query
  card_metrics : String → DeviceStatus → Query
  found_devices : Bool → String → Query
  found_software : Bool → String → Query
  compared_device : String → Query
  compared_alerts : String → Query
  compared_metric : String → Query
  compared_software : String → Query

abbrev pub use_of : Query → QueryUse
use_of (device_list tag) = device_list_query tag
use_of (one_device id) = one_device_query id
use_of (metric_history id hours) = metric_history_query id hours
use_of (latest_metric id) = latest_metric_query id
use_of (alert_list params) = alert_list_query params
use_of scheduled_devices = scheduled_devices_query
use_of library_devices = library_devices_query
use_of report_devices = report_devices_query
use_of (onboarding_devices is_admin step) = onboarding_devices_query is_admin step
use_of (home_devices is_admin) = home_devices_query is_admin
use_of custom_devices = custom_devices_query
use_of tag_list = tag_list_query
use_of group_list = group_list_query
use_of (devices_of_group id) = devices_of_group_query id
use_of pending_updates = pending_updates_query
use_of (user_list is_admin) = user_list_query is_admin
use_of schedules = schedules_query
use_of (organizations username) = organizations_query username
use_of organization_page = organization_page_query
use_of (members id) = members_query id
use_of saved_list = saved_list_query
use_of compliance_policies = compliance_policies_query
use_of (compliance_results id expanded) = compliance_results_query id expanded
use_of (alert_page n show_resolved) = alert_page_query n show_resolved
use_of (stock_list assigned_to expiring_only) = stock_list_query assigned_to expiring_only
use_of (rule_list is_admin) = rule_list_query is_admin
use_of (audit_page is_admin action n) = audit_page_query is_admin action n
use_of (auth_settings is_admin) = auth_settings_query is_admin
use_of (live_connections is_admin) = live_connections_query is_admin
use_of (storage is_admin) = storage_query is_admin
use_of (audit_search filters n) = audit_search_query filters n
use_of (report_alerts id) = report_alerts_query id
use_of (report_metrics id hours) = report_metrics_query id hours
use_of (report_software id) = report_software_query id
use_of newest_version = newest_version_query
use_of (device_config id) = device_config_query id
use_of group_choice = group_choice_query
use_of (groups_of_device id) = groups_of_device_query id
use_of (screenshot_of id is_capturing) = screenshot_of_query id is_capturing
use_of (history_of id) = history_of_query id
use_of (keys_of id) = keys_of_query id
use_of (version_for os_type arch is_loaded) = version_for_query os_type arch is_loaded
use_of (commands_of id) = commands_of_query id
use_of saved_panel = saved_panel_query
use_of (network_of id) = network_of_query id
use_of (processes_of id active) = processes_of_query id active
use_of (events_of id agent n) = events_of_query id agent n
use_of (software_of id n found) = software_of_query id n found
use_of (card_alerts id status) = card_alerts_query id status
use_of (card_metrics id status) = card_metrics_query id status
use_of (found_devices is_asked query) = found_devices_query is_asked query
use_of (found_software is_asked query) = found_software_query is_asked query
use_of (compared_device id) = compared_device_query id
use_of (compared_alerts id) = compared_alerts_query id
use_of (compared_metric id) = compared_metric_query id
use_of (compared_software id) = compared_software_query id

-- The request behind a query.
unfoldable pub query_request : Query → Request
query_request q = api_request (use_of q).call
