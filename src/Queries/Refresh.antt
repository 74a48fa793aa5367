-- ===== src/Queries/Refresh.antt =====
-- What is asked for again after a mutation.
use dtsys.Prelude.{
  ◌≡◌, refl, sym, subst, inl, inr, Bool, true, false, List, [], ◌++◌, append_assoc, All, IsIn,
  All-IsIn, ap, ◌∙◌, none, some,
}
use dtsys.Queries.{Key}
use dtsys.Queries.Reads.{
  Query, use_of, device_list, one_device, metric_history, latest_metric, alert_list,
  scheduled_devices, library_devices, report_devices, onboarding_devices, custom_devices,
  home_devices, tag_list, group_list, devices_of_group, pending_updates, user_list, schedules,
  organizations, organization_page, members, saved_list, compliance_policies, compliance_results,
  alert_page, stock_list, rule_list, audit_page, auth_settings, live_connections, storage,
  audit_search, report_alerts, report_metrics, report_software, newest_version, device_config,
  group_choice, groups_of_device, screenshot_of, history_of, keys_of, version_for, commands_of,
  saved_panel, network_of, processes_of, events_of, software_of, card_alerts, card_metrics,
  found_devices, found_software, compared_device, compared_alerts, compared_metric,
  compared_software,
}
use dtsys.Queries.Resources.{Resource, family}
use dtsys.Queries.Paths.{resource_of}
use dtsys.Queries.Named.{named}
use dtsys.Api.Call.{api_request}
use dtsys.Api.Accounts.{admin_request, org_request}
use dtsys.Api.Devices.{device_request, command_request}
use dtsys.Api.Fleet.{
  alert_request, group_request, rule_request, saved_request, scheduled_request, software_request,
}
use dtsys.Api.Pages.{page_request}
use dtsys.Queries.Changes.{
  Mutation, mutation_of, mutation_path, update_device_done, resolve_alert_done, invite_user_done,
  update_user_done, reset_password_done, delete_user_done, create_schedule_done,
  toggle_schedule_done, update_field_done, token_done, invite_done, remove_member_done,
  change_role_done, create_org_done, delete_org_done, upsert_done, remove_saved_done,
  run_saved_done, create_policy_done, delete_policy_done, evaluate_done, create_rule_done,
  update_rule_done, disconnect_done, cleanup_done, save_config_done, add_to_group_done,
  screenshot_done, update_agent_done, maintenance_done, remove_ssh_key_done, dispatch_updates_done,
  create_group_done, dispatch_done, save_command_done, bulk_done, refresh_processes_done,
}

-- The search overlay and the comparison keep devices under keys of their own.
abbrev pub IsInFamily : Query → Type 0
IsInFamily (found_devices asked query) = ⊥
IsInFamily (compared_device id) = ⊥
IsInFamily _ = Unit

query_key_lem :
    (q : Query) → IsInFamily q → (rest : Key) × ((use_of q).key ≡ family (resource_of q) ++ rest)
query_key_lem (device_list tag) h = (_, refl)
query_key_lem (one_device id) h = (_, refl)
query_key_lem (metric_history id hours) h = (_, refl)
query_key_lem (latest_metric id) h = (_, refl)
query_key_lem (alert_list params) h = (_, refl)
query_key_lem scheduled_devices h = (_, refl)
query_key_lem library_devices h = (_, refl)
query_key_lem report_devices h = (_, refl)
query_key_lem (onboarding_devices is_admin step) h = (_, refl)
query_key_lem (home_devices is_admin) h = (_, refl)
query_key_lem custom_devices h = (_, refl)
query_key_lem tag_list h = (_, refl)
query_key_lem group_list h = (_, refl)
query_key_lem (devices_of_group id) h = (_, refl)
query_key_lem pending_updates h = (_, refl)
query_key_lem (user_list is_admin) h = (_, refl)
query_key_lem schedules h = (_, refl)
query_key_lem (organizations username) h = (_, refl)
query_key_lem organization_page h = (_, refl)
query_key_lem (members id) h = (_, refl)
query_key_lem saved_list h = (_, refl)
query_key_lem compliance_policies h = (_, refl)
query_key_lem (compliance_results id expanded) h = (_, refl)
query_key_lem (alert_page n show_resolved) h = (_, refl)
query_key_lem (stock_list assigned_to expiring_only) h = (_, refl)
query_key_lem (rule_list is_admin) h = (_, refl)
query_key_lem (audit_page is_admin action n) h = (_, refl)
query_key_lem (auth_settings is_admin) h = (_, refl)
query_key_lem (live_connections is_admin) h = (_, refl)
query_key_lem (storage is_admin) h = (_, refl)
query_key_lem (audit_search filters n) h = (_, refl)
query_key_lem (report_alerts id) h = (_, refl)
query_key_lem (report_metrics id hours) h = (_, refl)
query_key_lem (report_software id) h = (_, refl)
query_key_lem newest_version h = (_, refl)
query_key_lem (device_config id) h = (_, refl)
query_key_lem group_choice h = (_, refl)
query_key_lem (groups_of_device id) h = (_, refl)
query_key_lem (screenshot_of id is_capturing) h = (_, refl)
query_key_lem (history_of id) h = (_, refl)
query_key_lem (keys_of id) h = (_, refl)
query_key_lem (version_for os_type arch is_loaded) h = (_, refl)
query_key_lem (commands_of id) h = (_, refl)
query_key_lem saved_panel h = (_, refl)
query_key_lem (network_of id) h = (_, refl)
query_key_lem (processes_of id active) h = (_, refl)
query_key_lem (events_of id true n) h = (_, refl)
query_key_lem (events_of id false n) h = (_, refl)
query_key_lem (software_of id n found) h = (_, refl)
query_key_lem (card_alerts id status) h = (_, refl)
query_key_lem (card_metrics id status) h = (_, refl)
query_key_lem (found_devices is_asked query) h = elim h [ ]
query_key_lem (found_software is_asked query) h = (_, refl)
query_key_lem (compared_device id) h = elim h [ ]
query_key_lem (compared_alerts id) h = (_, refl)
query_key_lem (compared_metric id) h = (_, refl)
query_key_lem (compared_software id) h = (_, refl)

-- Mutations that do not mark all that their requests name: the inventory's edit does not mark the lists of
-- devices, a saved command and the refreshed processes do not mark the commands, and a disconnection marks the
-- list of connections only.
abbrev pub IsRefreshing : Mutation → Type 0
IsRefreshing (update_field_done id b c) = ⊥
IsRefreshing (run_saved_done id b c) = ⊥
IsRefreshing (refresh_processes_done id) = ⊥
IsRefreshing (disconnect_done id) = ⊥
IsRefreshing _ = Unit

-- A key that a mutation marks, in front of the keys of a resource.
abbrev IsMarked : List Key → Resource → Type 0
IsMarked stale r = (k : Key) × (rest : Key) × IsIn k stale × (family r ≡ k ++ rest)

named-IsMarked :
    (m : Mutation) → IsRefreshing m → All (IsMarked (mutation_of m).stale) (named (mutation_path m))
unfolding named mutation_path api_request admin_request org_request device_request command_request
    alert_request group_request rule_request saved_request scheduled_request software_request
    page_request
named-IsMarked (update_device_done id b) h =
    ((_, [], inl refl, refl), ((_, [], inr (inl refl), refl), tt))
named-IsMarked (resolve_alert_done id) h = ((_, [], inl refl, refl), tt)
named-IsMarked (invite_user_done id b c) h = ((_, [], inl refl, refl), tt)
named-IsMarked (update_user_done id b) h = ((_, [], inl refl, refl), tt)
named-IsMarked (reset_password_done id b) h = ((_, [], inl refl, refl), tt)
named-IsMarked (delete_user_done id) h = ((_, [], inl refl, refl), tt)
named-IsMarked (create_schedule_done id) h = ((_, [], inl refl, refl), tt)
named-IsMarked (toggle_schedule_done id b) h = ((_, [], inl refl, refl), tt)
named-IsMarked (update_field_done id b c) h = elim h [ ]
named-IsMarked token_done h = tt
named-IsMarked (invite_done id b c) h = ((_, [], inl refl, refl), tt)
named-IsMarked (remove_member_done id b) h = ((_, [], inl refl, refl), tt)
named-IsMarked (change_role_done id b c) h = ((_, [], inl refl, refl), tt)
named-IsMarked (create_org_done id b) h = ((_, [], inl refl, refl), tt)
named-IsMarked (delete_org_done id) h = ((_, [], inl refl, refl), tt)
named-IsMarked (upsert_done none b) h = ((_, [], inl refl, refl), tt)
named-IsMarked (upsert_done (some id) b) h = ((_, [], inl refl, refl), tt)
named-IsMarked (remove_saved_done id) h = ((_, [], inl refl, refl), tt)
named-IsMarked (run_saved_done id b c) h = elim h [ ]
named-IsMarked (create_policy_done id b c) h = ((_, [], inl refl, refl), tt)
named-IsMarked (delete_policy_done id) h = ((_, [], inl refl, refl), tt)
named-IsMarked (evaluate_done id) h = tt
named-IsMarked (create_rule_done id) h = ((_, [], inl refl, refl), tt)
named-IsMarked (update_rule_done id b) h = ((_, [], inl refl, refl), tt)
named-IsMarked (disconnect_done id) h = elim h [ ]
named-IsMarked cleanup_done h = tt
named-IsMarked (save_config_done id b) h = ((_, [], inl refl, refl), tt)
named-IsMarked (add_to_group_done id b) h = ((_, _, inr (inl refl), refl), tt)
named-IsMarked (screenshot_done id) h = ((_, [], inl refl, refl), tt)
named-IsMarked (update_agent_done id) h = ((_, [], inl refl, refl), tt)
named-IsMarked (maintenance_done id b c d) h = ((_, [], inl refl, refl), tt)
named-IsMarked (remove_ssh_key_done id b) h = ((_, [], inl refl, refl), tt)
named-IsMarked (dispatch_updates_done id b) h = tt
named-IsMarked (create_group_done id b) h = ((_, [], inl refl, refl), tt)
named-IsMarked (dispatch_done id b c) h = ((_, [], inl refl, refl), tt)
named-IsMarked (save_command_done id b c) h = ((_, [], inl refl, refl), tt)
named-IsMarked (bulk_done id b c) h = tt
named-IsMarked (refresh_processes_done id) h = elim h [ ]

-- Where invalidateQueries marks every key that begins with the given one: a mutation that is answered
-- marks the key of each query that reads a resource which the path of its request names. Left out are the
-- inventory's edit, the run of a saved command, the refresh of the processes and the disconnection, and the
-- devices of the search overlay and of the comparison.
pub refresh_lem :
    (marks : Key → Key → Bool) (law : (k rest : Key) → marks k (k ++ rest) ≡ true) (m : Mutation)
    (q : Query)
    → IsRefreshing m
    → IsInFamily q
    → IsIn (resource_of q) (named (mutation_path m))
    → (k : Key) × IsIn k (mutation_of m).stale × (marks k (use_of q).key ≡ true)
refresh_lem marks law m q h f is_in =
    let (rest, e) = query_key_lem q f in
    let (k, mid, mem, g) =
      All-IsIn (IsMarked (mutation_of m).stale) (resource_of q) (named (mutation_path m))
        (named-IsMarked m h) is_in in
    let whole : (use_of q).key ≡ k ++ (mid ++ rest) =
      e ∙ (ap (λ l. l ++ rest) g ∙ append_assoc k mid rest) in
    (k, mem, subst (λ l. marks k l ≡ true) (sym whole) (law k (mid ++ rest)))
