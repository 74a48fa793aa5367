-- ===== src/Queries/Keys.antt =====
-- What the console asks for under a key, read off the key alone.
use dtsys.Prelude.{String, Bool, [], ◌∷◌, Option, none, some, str_eq, if◌then◌else◌, any}
use dtsys.Api.{Fields, no_fields}
use dtsys.Api.Call.{
  ApiCall, admin, org, agent_version, device, command, metric, alert, group, stock, rule, saved,
  scheduled, software, page,
}
use dtsys.Api.Accounts.{
  users, auth_config, connections, storage_stats, audit_log_page, list_members, OrgCall,
}
use dtsys.Api.Devices.{
  DeviceCall, get_one, config, screenshot, uptime_history, ssh_keys, network, processes, agent_logs,
  list_for, history, latest,
}
use dtsys.Api.Fleet.{
  AlertCall, list_page, groups, device_groups, group_devices, inventory, rules, saved_commands,
  scheduled_commands, search, pending, tags,
}
use dtsys.Api.Pages.{
  policies, policy_results, device_software, software_page, events_page, audit_entries,
  plain_version,
}
use dtsys.Api.{field, Value}
use dtsys.Queries.{Part, Key, word, count, switch, shape, absent}
use dtsys.Queries.Fleet.{alert_page_fields, stock_fields, report_fields}
use dtsys.Queries.Accounts.{audit_page_fields, audit_search_fields, AuditFilters}
use dtsys.Queries.Panels.{card_fields, compare_fields}

-- The words that pages put where the list of the devices has a tag.
abbrev pub is_page_word : String → Bool
is_page_word tag = any (str_eq tag) (
    "all" ∷ "scheduled" ∷ "library" ∷ "reports" ∷ "onboarding" ∷ "custom-dashboard" ∷ "home-route"
    ∷ [])

unfoldable pub devices_call : Key → Option ApiCall
devices_call (word tag ∷ []) =
    some (device (DeviceCall.list (if is_page_word tag then none else some tag) none))
devices_call _ = none

unfoldable pub device_call : Key → Option ApiCall
device_call (word id ∷ []) = some (device (get_one id))
device_call (word a ∷ word id ∷ []) = some (device (get_one id))
device_call _ = none

unfoldable pub metrics_call : Key → Option ApiCall
metrics_call (word id ∷ count hours ∷ []) = some (metric (history id (some hours)))
metrics_call (word a ∷ word b ∷ []) =
    some (metric (if str_eq b "latest" then latest a else history b (some 1)))
metrics_call (word a ∷ word id ∷ word b ∷ []) = some (metric (latest id))
metrics_call _ = none

unfoldable pub alerts_call : Key → Option ApiCall
alerts_call (absent ∷ []) = some (alert (AlertCall.list no_fields))
alerts_call (shape params ∷ []) = some (alert (AlertCall.list params))
alerts_call (word a ∷ count n ∷ switch resolved ∷ []) =
    some (alert (list_page (alert_page_fields n resolved)))
alerts_call (word a ∷ word id ∷ []) = some (
    alert (
      AlertCall.list (
        if str_eq a "reports"
        then report_fields id
        else (if str_eq a "device-card" then card_fields id else compare_fields id))))
alerts_call _ = none

unfoldable pub groups_call : Key → Option ApiCall
groups_call [] = some (group groups)
groups_call (word id ∷ word a ∷ []) = some (group (group_devices id))
groups_call _ = none

unfoldable pub filters_of : Fields → Option AuditFilters
filters_of
      (field a (Value.text action) (
        field b (Value.text username) (
          field c
            (Value.text resource_type)
            (field d (Value.text since) (field e (Value.text until) no_fields))))) =
    some record {
      action = action;
      username = username;
      resource_type = resource_type;
      since = since;
      until = until;
    }
filters_of _ = none

unfoldable pub search_call : Option AuditFilters → (AuditFilters → ApiCall) → Option ApiCall
search_call none f = none
search_call (some filters) f = some (f filters)

unfoldable pub audit_call : Key → Option ApiCall
audit_call (word action ∷ count n ∷ []) = some (admin (audit_log_page (audit_page_fields action n)))
audit_call (shape filters ∷ count n ∷ []) =
    search_call (filters_of filters) (λ f. page (audit_entries (audit_search_fields f n)))
audit_call _ = none

unfoldable pub reports_call : Key → Option ApiCall
reports_call (word a ∷ word id ∷ count hours ∷ []) = some (metric (history id (some hours)))
reports_call (word a ∷ word id ∷ []) = some (page (device_software id))
reports_call _ = none

unfoldable pub platform_of : Part → Option String
platform_of (word os) =
    some
      (if str_eq os "windows" then "windows" else (if str_eq os "macos" then "darwin" else "linux"))
platform_of _ = some "linux"

unfoldable pub arch_of : Part → Option String
arch_of (word arch) = some arch
arch_of _ = some "amd64"

unfoldable pub version_call : Key → Option ApiCall
version_call [] = some (page plain_version)
version_call (os ∷ arch ∷ []) = some (agent_version (platform_of os) (arch_of arch))
version_call _ = none

unfoldable pub events_call : Key → Option ApiCall
events_call (word id ∷ word mode ∷ count n ∷ []) =
    some (if str_eq mode "agent" then device (agent_logs id) else page (events_page id n 50))
events_call _ = none

unfoldable pub software_call : Key → Option ApiCall
software_call (word id ∷ count n ∷ word text ∷ []) =
    some (page (software_page id n 100 (some text)))
software_call (word a ∷ word id ∷ []) = some (page (device_software id))
software_call _ = none

unfoldable pub inventory_call : Key → Option ApiCall
inventory_call (word assigned ∷ switch expiring ∷ []) =
    some (stock (inventory (stock_fields assigned expiring)))
inventory_call _ = none

unfoldable pub found_call : Key → Option ApiCall
found_call (word kind ∷ word text ∷ []) = some (
    if str_eq kind "devices"
    then device (DeviceCall.list none (some text))
    else software (search text))
found_call _ = none

-- A query about one thing that is given by its id.
unfoldable pub by_id : (String → ApiCall) → Key → Option ApiCall
by_id f (word id ∷ []) = some (f id)
by_id f _ = none

-- What a key with the given first word is asked for.
unfoldable pub call_under : String → Key → Option ApiCall
call_under head rest =
    if str_eq head "devices"
    then devices_call rest
    else (if str_eq head "device"
        then device_call rest
        else (if str_eq head "metrics"
            then metrics_call rest
            else (if str_eq head "alerts"
                then alerts_call rest
                else (if str_eq head "groups"
                    then groups_call rest
                    else (if str_eq head "audit-log"
                        then audit_call rest
                        else (if str_eq head "reports"
                            then reports_call rest
                            else (if str_eq head "agent-version"
                                then version_call rest
                                else (if str_eq head "events"
                                    then events_call rest
                                    else (if str_eq head "software"
                                        then software_call rest
                                        else (if str_eq head "inventory"
                                            then inventory_call rest
                                            else (if str_eq head "global-search"
                                                then found_call rest
                                                else (if str_eq head "tags"
                                                    then some (software tags)
                                                    else (if str_eq head "software-updates"
                                                        then some (software pending)
                                                        else (if str_eq head "admin-users"
                                                            then some (admin users)
                                                            else (if str_eq head
                                                            "scheduled-commands"
                                                            then some (scheduled scheduled_commands)
                                                            else (if str_eq head "organizations"
                                                            then some (org OrgCall.list)
                                                            else (if str_eq head "saved-commands"
                                                            then some (saved saved_commands)
                                                            else (if str_eq head
                                                            "compliance-policies"
                                                            then some (page policies)
                                                            else (if str_eq head
                                                            "notification-rules"
                                                            then some (rule rules)
                                                            else (if str_eq head "auth-config"
                                                            then some (admin auth_config)
                                                            else (if str_eq head "admin-connections"
                                                            then some (admin connections)
                                                            else (if str_eq head "storage-stats"
                                                            then some (admin storage_stats)
                                                            else (if str_eq head "org-members"
                                                            then by_id (λ id. org (list_members id))
                                                            rest
                                                            else (if str_eq head
                                                            "compliance-results"
                                                            then by_id
                                                            (λ id. page (policy_results id)) rest
                                                            else (if str_eq head "device-config"
                                                            then by_id (λ id. device (config id))
                                                            rest
                                                            else (if str_eq head "device-groups"
                                                            then by_id
                                                            (λ id. group (device_groups id)) rest
                                                            else (if str_eq head "device-screenshot"
                                                            then by_id
                                                            (λ id. device (screenshot id)) rest
                                                            else (if str_eq head
                                                            "device-uptime-history"
                                                            then by_id
                                                            (λ id. device (uptime_history id none))
                                                            rest
                                                            else (if str_eq head "device-ssh-keys"
                                                            then by_id (λ id. device (ssh_keys id))
                                                            rest
                                                            else (if str_eq head "commands"
                                                            then by_id (λ id. command (list_for id))
                                                            rest
                                                            else (if str_eq head "device-network"
                                                            then by_id (λ id. device (network id))
                                                            rest
                                                            else (if str_eq head "device-processes"
                                                            then by_id (λ id. device (processes id))
                                                            rest
                                                            else none))))))))))))))))))))))))))))))))

unfoldable pub call_of_key : Key → Option ApiCall
call_of_key (word head ∷ rest) = call_under head rest
call_of_key _ = none
