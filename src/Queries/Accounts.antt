-- ===== src/Queries/Accounts.antt =====
-- The queries of the pages about users, organisations, commands, policies and settings, each as it
-- stands there.
use dtsys.Prelude.{ℕ, ◌-◌, ◌*◌, String, Bool, true, [], ◌∷◌, Option, none, some}
use dtsys.Prelude.Storage.{is_truthy}
use dtsys.Api.{Fields, no_fields, field, number, text, when_truthy}
use dtsys.Api.Call.{admin, org, device, rule, saved, scheduled, software, page}
use dtsys.Api.Accounts.{
  users, auth_config, connections, storage_stats, audit_log_page, list_members, OrgCall,
}
use dtsys.Api.Devices.{DeviceCall}
use dtsys.Api.Fleet.{rules, saved_commands, scheduled_commands, pending}
use dtsys.Api.Pages.{policies, policy_results, audit_entries, plain_version}
use dtsys.Queries.{word, count, shape, QueryUse}

-- The queries' parameters, where a page builds them.
abbrev pub audit_page_fields : String → ℕ → Fields
audit_page_fields action n =
    when_truthy "action" (some action)
      (field "limit" (number 25) (field "skip" (number ((n - 1) * 25)) no_fields))

pub record AuditFilters : Type 0 where
  pub action : String
  pub username : String
  pub resource_type : String
  pub since : String
  pub until : String

abbrev pub filter_fields : AuditFilters → Fields
filter_fields f = field "action" (text f.action) (
    field "username" (text f.username) (
      field "resource_type" (text f.resource_type)
        (field "since" (text f.since) (field "until" (text f.until) no_fields))))

abbrev pub audit_search_fields : AuditFilters → ℕ → Fields
audit_search_fields f n = field "limit" (number 50) (
    field "offset" (number (n * 50)) (
      when_truthy "action" (some f.action) (
        when_truthy "username" (some f.username) (
          when_truthy "resource_type" (some f.resource_type)
            (when_truthy "since" (some f.since) (when_truthy "until" (some f.until) no_fields))))))

abbrev pub scheduled_devices_query : QueryUse
scheduled_devices_query = record {
  key = word "devices" ∷ word "scheduled" ∷ [];
  call = device (DeviceCall.list none none);
  enabled = true;
  refetch_interval = none;
}

abbrev pub library_devices_query : QueryUse
library_devices_query = record {
  key = word "devices" ∷ word "library" ∷ [];
  call = device (DeviceCall.list none none);
  enabled = true;
  refetch_interval = none;
}

abbrev pub pending_updates_query : QueryUse
pending_updates_query = record {
  key = word "software-updates" ∷ word "pending" ∷ [];
  call = software pending;
  enabled = true;
  refetch_interval = (some 60000);
}

abbrev pub user_list_query : Bool → QueryUse
user_list_query is_admin = record {
  key = word "admin-users" ∷ [];
  call = admin users;
  enabled = is_admin;
  refetch_interval = none;
}

abbrev pub schedules_query : QueryUse
schedules_query = record {
  key = word "scheduled-commands" ∷ [];
  call = scheduled scheduled_commands;
  enabled = true;
  refetch_interval = none;
}

abbrev pub organizations_query : Option String → QueryUse
organizations_query username = record {
  key = word "organizations" ∷ [];
  call = org OrgCall.list;
  enabled = is_truthy username;
  refetch_interval = none;
}

abbrev pub organization_page_query : QueryUse
organization_page_query = record {
  key = word "organizations" ∷ [];
  call = org OrgCall.list;
  enabled = true;
  refetch_interval = none;
}

abbrev pub members_query : String → QueryUse
members_query id = record {
  key = word "org-members" ∷ word id ∷ [];
  call = org (list_members id);
  enabled = true;
  refetch_interval = none;
}

abbrev pub saved_list_query : QueryUse
saved_list_query = record {
  key = word "saved-commands" ∷ [];
  call = saved saved_commands;
  enabled = true;
  refetch_interval = none;
}

abbrev pub compliance_policies_query : QueryUse
compliance_policies_query = record {
  key = word "compliance-policies" ∷ [];
  call = page policies;
  enabled = true;
  refetch_interval = none;
}

abbrev pub compliance_results_query : String → Bool → QueryUse
compliance_results_query id expanded = record {
  key = word "compliance-results" ∷ word id ∷ [];
  call = page (policy_results id);
  enabled = expanded;
  refetch_interval = none;
}

abbrev pub rule_list_query : Bool → QueryUse
rule_list_query is_admin = record {
  key = word "notification-rules" ∷ [];
  call = rule rules;
  enabled = is_admin;
  refetch_interval = none;
}

abbrev pub audit_page_query : Bool → String → ℕ → QueryUse
audit_page_query is_admin action n = record {
  key = word "audit-log" ∷ word action ∷ count n ∷ [];
  call = admin (audit_log_page (audit_page_fields action n));
  enabled = is_admin;
  refetch_interval = (some 30000);
}

abbrev pub auth_settings_query : Bool → QueryUse
auth_settings_query is_admin = record {
  key = word "auth-config" ∷ [];
  call = admin auth_config;
  enabled = is_admin;
  refetch_interval = none;
}

abbrev pub live_connections_query : Bool → QueryUse
live_connections_query is_admin = record {
  key = word "admin-connections" ∷ [];
  call = admin connections;
  enabled = is_admin;
  refetch_interval = (some 10000);
}

abbrev pub storage_query : Bool → QueryUse
storage_query is_admin = record {
  key = word "storage-stats" ∷ [];
  call = admin storage_stats;
  enabled = is_admin;
  refetch_interval = none;
}

abbrev pub audit_search_query : AuditFilters → ℕ → QueryUse
audit_search_query filters n = record {
  key = word "audit-log" ∷ shape (filter_fields filters) ∷ count n ∷ [];
  call = page (audit_entries (audit_search_fields filters n));
  enabled = true;
  refetch_interval = none;
}

abbrev pub newest_version_query : QueryUse
newest_version_query = record {
  key = word "agent-version" ∷ [];
  call = page plain_version;
  enabled = true;
  refetch_interval = none;
}
