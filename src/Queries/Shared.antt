-- ===== src/Queries/Shared.antt =====
-- Two queries under one key.
use dtsys.Prelude.{◌≡◌, refl, sym, ap, ◌∙◌, true, false, none, some, some_inj, str_eq}
use dtsys.Queries.Panels.{windows, linux, macos}
use dtsys.Queries.Reads.{
  Query, use_of, device_list, one_device, metric_history, latest_metric, alert_list,
  scheduled_devices, library_devices, report_devices, onboarding_devices, custom_devices,
  home_devices, tag_list, group_list, devices_of_group, pending_updates, user_list, schedules,
  organizations, organization_page, members, saved_list, compliance_policies, compliance_results,
  alert_page, stock_list, rule_list, audit_page, auth_settings, live_connections, storage,
  audit_search, report_alerts, report_metrics, report_software, newest_version, device_config,
  group_choice, groups_of_device, screenshot_of, history_of, keys_of, version_for, commands_of,
  saved_panel, network_of, processes_of, events_of, software_of, card_alerts, card_metrics,
  found_devices, found_software, compared_device, compared_alerts, compared_metric,
  compared_software,
}
use dtsys.Queries.Keys.{
  is_page_word, devices_call, device_call, metrics_call, alerts_call, groups_call, filters_of,
  search_call, audit_call, reports_call, platform_of, arch_of, version_call, events_call,
  software_call, inventory_call, found_call, by_id, call_under, call_of_key,
}

-- A tag that no page uses as the name of its own list, and a device whose id is not "latest".
abbrev pub IsApart : Query → Type 0
IsApart (device_list none) = Unit
IsApart (device_list (some tag)) = is_page_word tag ≡ false
IsApart (card_metrics id status) = str_eq id "latest" ≡ false
IsApart _ = Unit

call_of_query_key : (q : Query) → IsApart q → call_of_key (use_of q).key ≡ some (use_of q).call
unfolding call_of_key call_under devices_call device_call metrics_call alerts_call groups_call
    filters_of search_call audit_call reports_call platform_of arch_of version_call events_call
    software_call inventory_call found_call by_id
call_of_query_key (device_list none) h = refl
call_of_query_key (device_list (some tag)) h = rw h refl
call_of_query_key (one_device id) h = refl
call_of_query_key (metric_history id hours) h = refl
call_of_query_key (latest_metric id) h = refl
call_of_query_key (alert_list none) h = refl
call_of_query_key (alert_list (some params)) h = refl
call_of_query_key scheduled_devices h = refl
call_of_query_key library_devices h = refl
call_of_query_key report_devices h = refl
call_of_query_key (onboarding_devices is_admin step) h = refl
call_of_query_key (home_devices is_admin) h = refl
call_of_query_key custom_devices h = refl
call_of_query_key tag_list h = refl
call_of_query_key group_list h = refl
call_of_query_key (devices_of_group id) h = refl
call_of_query_key pending_updates h = refl
call_of_query_key (user_list is_admin) h = refl
call_of_query_key schedules h = refl
call_of_query_key (organizations username) h = refl
call_of_query_key organization_page h = refl
call_of_query_key (members id) h = refl
call_of_query_key saved_list h = refl
call_of_query_key compliance_policies h = refl
call_of_query_key (compliance_results id expanded) h = refl
call_of_query_key (alert_page n show_resolved) h = refl
call_of_query_key (stock_list assigned_to expiring_only) h = refl
call_of_query_key (rule_list is_admin) h = refl
call_of_query_key (audit_page is_admin action n) h = refl
call_of_query_key (auth_settings is_admin) h = refl
call_of_query_key (live_connections is_admin) h = refl
call_of_query_key (storage is_admin) h = refl
call_of_query_key (audit_search filters n) h = refl
call_of_query_key (report_alerts id) h = refl
call_of_query_key (report_metrics id hours) h = refl
call_of_query_key (report_software id) h = refl
call_of_query_key newest_version h = refl
call_of_query_key (device_config id) h = refl
call_of_query_key group_choice h = refl
call_of_query_key (groups_of_device id) h = refl
call_of_query_key (screenshot_of id is_capturing) h = refl
call_of_query_key (history_of id) h = refl
call_of_query_key (keys_of id) h = refl
call_of_query_key (version_for none none c) h = refl
call_of_query_key (version_for none (some arch) c) h = refl
call_of_query_key (version_for (some windows) none c) h = refl
call_of_query_key (version_for (some windows) (some arch) c) h = refl
call_of_query_key (version_for (some macos) none c) h = refl
call_of_query_key (version_for (some macos) (some arch) c) h = refl
call_of_query_key (version_for (some linux) none c) h = refl
call_of_query_key (version_for (some linux) (some arch) c) h = refl
call_of_query_key (commands_of id) h = refl
call_of_query_key saved_panel h = refl
call_of_query_key (network_of id) h = refl
call_of_query_key (processes_of id active) h = refl
call_of_query_key (events_of id true n) h = refl
call_of_query_key (events_of id false n) h = refl
call_of_query_key (software_of id n found) h = refl
call_of_query_key (card_alerts id status) h = refl
call_of_query_key (card_metrics id status) h = rw h refl
call_of_query_key (found_devices is_asked query) h = refl
call_of_query_key (found_software is_asked query) h = refl
call_of_query_key (compared_device id) h = refl
call_of_query_key (compared_alerts id) h = refl
call_of_query_key (compared_metric id) h = refl
call_of_query_key (compared_software id) h = refl

-- Two queries of the console below /api/v1 that share a key send the same call, so that the cache never shows one page
-- what another one asked for; for tags other than the names under which pages keep the list of the
-- devices, and for devices whose id is not "latest".
pub shared_key_lem :
    (q r : Query)
    → IsApart q
    → IsApart r
    → (use_of q).key ≡ (use_of r).key
    → (use_of q).call ≡ (use_of r).call
shared_key_lem q r h k e =
    some_inj (sym (call_of_query_key q h) ∙ (ap call_of_key e ∙ call_of_query_key r k))
