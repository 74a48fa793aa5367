-- ===== src/Api/Routes.antt =====
-- The routes of server/app/api/v1/router.py in the order of their registration, each with the function
-- that answers it. A request goes to the first route with its method and a matching path.
use dtsys.Prelude.{
  String, Bool, true, false, ◌&&◌, List, [], ◌∷◌, Option, none, some, str_eq, if◌then◌else◌,
}
use dtsys.Api.{Method, get, post, put, patch, delete, Request}

pub data Segment : Type 0 where
  word : String → Segment
  any_id : Segment

pub data Route : Type 0 where
  route : Method → List Segment → String → Route

abbrev same_method : Method → Method → Bool
same_method get get = true
same_method post post = true
same_method put put = true
same_method patch patch = true
same_method delete delete = true
same_method _ _ = false

unfoldable pub path_matches : List Segment → List String → Bool
path_matches [] [] = true
path_matches [] (s ∷ ss) = false
path_matches (t ∷ ts) [] = false
path_matches (word w ∷ ts) (s ∷ ss) = str_eq w s && path_matches ts ss
path_matches (any_id ∷ ts) (s ∷ ss) = path_matches ts ss

unfoldable pub serve : List Route → Request → Option String
serve [] r = none
serve (route m ts name ∷ rest) r =
    let later = serve rest r in
    if same_method m r.method && path_matches ts r.path then some name else later

abbrev pub routes : List Route
routes =
    route post (word "auth" ∷ word "login" ∷ []) "auth.login"
    ∷ route post (word "auth" ∷ word "refresh" ∷ []) "auth.refresh"
    ∷ route post (word "auth" ∷ word "logout" ∷ []) "auth.logout"
    ∷ route post (word "devices" ∷ word "register" ∷ []) "devices.register_device"
    ∷ route get (word "devices" ∷ []) "devices.list_devices"
    ∷ route get (word "devices" ∷ word "by-fingerprint" ∷ any_id ∷ [])
        "devices.get_device_by_fingerprint"
    ∷ route get (word "devices" ∷ any_id ∷ []) "devices.get_device"
    ∷ route get (word "devices" ∷ any_id ∷ word "network" ∷ []) "devices.get_device_network"
    ∷ route patch (word "devices" ∷ any_id ∷ []) "devices.update_device"
    ∷ route post (word "devices" ∷ any_id ∷ word "maintenance" ∷ [])
        "devices.set_device_maintenance"
    ∷ route get (word "devices" ∷ any_id ∷ word "config" ∷ []) "devices.get_device_config"
    ∷ route post (word "devices" ∷ any_id ∷ word "config" ∷ []) "devices.update_device_config"
    ∷ route delete (word "devices" ∷ any_id ∷ []) "devices.revoke_device"
    ∷ route post (word "devices" ∷ any_id ∷ word "rotate-key" ∷ []) "devices.rotate_device_key"
    ∷ route post (word "devices" ∷ any_id ∷ word "screenshot" ∷ word "request" ∷ [])
        "devices.request_screenshot"
    ∷ route get (word "devices" ∷ any_id ∷ word "screenshot" ∷ []) "devices.get_screenshot"
    ∷ route get (word "devices" ∷ any_id ∷ word "processes" ∷ []) "devices.get_device_processes"
    ∷ route get (word "devices" ∷ any_id ∷ word "ssh-keys" ∷ []) "devices.get_device_ssh_keys"
    ∷ route delete (word "devices" ∷ any_id ∷ word "ssh-keys" ∷ any_id ∷ [])
        "devices.delete_device_ssh_key"
    ∷ route get (word "devices" ∷ any_id ∷ word "uptime-history" ∷ []) "devices.get_uptime_history"
    ∷ route get (word "devices" ∷ any_id ∷ word "agent-logs" ∷ []) "devices.get_agent_logs"
    ∷ route post (word "devices" ∷ any_id ∷ word "disconnect" ∷ []) "devices.disconnect_device"
    ∷ route get (word "devices" ∷ any_id ∷ word "metrics" ∷ []) "metrics.get_metrics"
    ∷ route get (word "devices" ∷ any_id ∷ word "metrics" ∷ word "latest" ∷ [])
        "metrics.get_latest_metric"
    ∷ route post (word "devices" ∷ any_id ∷ word "commands" ∷ []) "commands.dispatch_command"
    ∷ route get (word "devices" ∷ any_id ∷ word "commands" ∷ []) "commands.list_commands"
    ∷ route get (word "devices" ∷ any_id ∷ word "commands" ∷ any_id ∷ []) "commands.get_command"
    ∷ route post (word "commands" ∷ word "bulk" ∷ []) "commands_bulk.dispatch_bulk_command"
    ∷ route get (word "alerts" ∷ []) "alerts.list_alerts"
    ∷ route post (word "alerts" ∷ any_id ∷ word "resolve" ∷ []) "alerts.resolve_alert"
    ∷ route get (word "devices" ∷ any_id ∷ word "software" ∷ []) "software.get_software_inventory"
    ∷ route get (word "devices" ∷ any_id ∷ word "events" ∷ []) "events.get_events"
    ∷ route get (word "events" ∷ word "stream" ∷ []) "event_stream.stream_alerts"
    ∷ route get (word "events" ∷ word "activity-stream" ∷ []) "activity_stream.stream_activity"
    ∷ route post (word "admin" ∷ word "users" ∷ []) "admin.create_user"
    ∷ route get (word "admin" ∷ word "users" ∷ []) "admin.list_users"
    ∷ route patch (word "admin" ∷ word "users" ∷ any_id ∷ []) "admin.update_user"
    ∷ route patch (word "admin" ∷ word "users" ∷ any_id ∷ word "password" ∷ [])
        "admin.reset_user_password"
    ∷ route delete (word "admin" ∷ word "users" ∷ any_id ∷ []) "admin.delete_user"
    ∷ route post (word "admin" ∷ word "enrollment-tokens" ∷ []) "admin.generate_enrollment_token"
    ∷ route get (word "admin" ∷ word "audit-log" ∷ []) "admin.get_audit_log"
    ∷ route get (word "admin" ∷ word "auth-config" ∷ []) "admin.get_auth_config"
    ∷ route get (word "admin" ∷ word "connections" ∷ []) "admin.get_live_connections"
    ∷ route get (word "admin" ∷ word "storage-stats" ∷ []) "admin.get_storage_stats"
    ∷ route post (word "admin" ∷ word "cleanup" ∷ []) "admin.cleanup_now"
    ∷ route get (word "agent" ∷ word "version" ∷ []) "agent.get_agent_version"
    ∷ route get (word "agent" ∷ word "download" ∷ []) "agent.download_agent"
    ∷ route get (word "downloads" ∷ any_id ∷ []) "downloads.download_agent"
    ∷ route post (word "enroll" ∷ []) "enroll.enroll_device"
    ∷ route get (word "tags" ∷ []) "tags.list_tags"
    ∷ route get (word "groups" ∷ []) "groups.list_groups"
    ∷ route post (word "groups" ∷ []) "groups.create_group"
    ∷ route patch (word "groups" ∷ any_id ∷ []) "groups.update_group"
    ∷ route delete (word "groups" ∷ any_id ∷ []) "groups.delete_group"
    ∷ route post (word "groups" ∷ any_id ∷ word "devices" ∷ []) "groups.add_devices_to_group"
    ∷ route delete (word "groups" ∷ any_id ∷ word "devices" ∷ any_id ∷ [])
        "groups.remove_device_from_group"
    ∷ route get (word "groups" ∷ any_id ∷ word "devices" ∷ []) "groups.list_group_devices"
    ∷ route get (word "groups" ∷ word "device" ∷ any_id ∷ []) "groups.list_device_groups"
    ∷ route get (word "inventory" ∷ []) "inventory.list_inventory"
    ∷ route get (word "inventory" ∷ word "export.csv" ∷ []) "inventory.export_inventory_csv"
    ∷ route get (word "saved-commands" ∷ []) "saved_commands.list_saved_commands"
    ∷ route post (word "saved-commands" ∷ []) "saved_commands.create_saved_command"
    ∷ route patch (word "saved-commands" ∷ any_id ∷ []) "saved_commands.update_saved_command"
    ∷ route delete (word "saved-commands" ∷ any_id ∷ []) "saved_commands.delete_saved_command"
    ∷ route get (word "scheduled-commands" ∷ []) "scheduled_commands.list_scheduled_commands"
    ∷ route post (word "scheduled-commands" ∷ []) "scheduled_commands.create_scheduled_command"
    ∷ route patch (word "scheduled-commands" ∷ any_id ∷ [])
        "scheduled_commands.update_scheduled_command"
    ∷ route delete (word "scheduled-commands" ∷ any_id ∷ [])
        "scheduled_commands.delete_scheduled_command"
    ∷ route get (word "notification-rules" ∷ []) "notification_rules.list_notification_rules"
    ∷ route post (word "notification-rules" ∷ []) "notification_rules.create_notification_rule"
    ∷ route patch (word "notification-rules" ∷ any_id ∷ [])
        "notification_rules.update_notification_rule"
    ∷ route get (word "software" ∷ []) "software_catalog.search_software"
    ∷ route get (word "software" ∷ word "search" ∷ []) "software_catalog.search_software_explicit"
    ∷ route get (word "software-updates" ∷ word "pending" ∷ [])
        "software_updates.get_pending_updates"
    ∷ route post (word "software-updates" ∷ word "dispatch" ∷ [])
        "software_updates.dispatch_updates"
    ∷ route post (word "organizations" ∷ []) "organizations.create_org"
    ∷ route get (word "organizations" ∷ []) "organizations.list_orgs"
    ∷ route get (word "organizations" ∷ any_id ∷ []) "organizations.get_org"
    ∷ route patch (word "organizations" ∷ any_id ∷ []) "organizations.update_org"
    ∷ route delete (word "organizations" ∷ any_id ∷ []) "organizations.delete_org"
    ∷ route get (word "organizations" ∷ any_id ∷ word "members" ∷ []) "organizations.list_members"
    ∷ route post (word "organizations" ∷ any_id ∷ word "members" ∷ []) "organizations.invite_member"
    ∷ route delete (word "organizations" ∷ any_id ∷ word "members" ∷ any_id ∷ [])
        "organizations.remove_member"
    ∷ route patch (word "organizations" ∷ any_id ∷ word "members" ∷ any_id ∷ [])
        "organizations.update_member"
    ∷ route get (word "organizations" ∷ any_id ∷ word "devices" ∷ [])
        "organizations.list_org_devices"
    ∷ route post (word "organizations" ∷ any_id ∷ word "switch" ∷ []) "organizations.switch_org"
    ∷ route post (word "push-tokens" ∷ []) "push_tokens.register_push_token"
    ∷ route delete (word "push-tokens" ∷ any_id ∷ []) "push_tokens.unregister_push_token"
    ∷ route get (word "compliance" ∷ word "policies" ∷ []) "compliance.list_policies"
    ∷ route post (word "compliance" ∷ word "policies" ∷ []) "compliance.create_policy"
    ∷ route get (word "compliance" ∷ word "policies" ∷ any_id ∷ []) "compliance.get_policy"
    ∷ route patch (word "compliance" ∷ word "policies" ∷ any_id ∷ []) "compliance.update_policy"
    ∷ route delete (word "compliance" ∷ word "policies" ∷ any_id ∷ []) "compliance.delete_policy"
    ∷ route get (word "compliance" ∷ word "results" ∷ []) "compliance.list_results"
    ∷ route post (word "compliance" ∷ word "evaluate" ∷ any_id ∷ []) "compliance.trigger_evaluation"
    ∷ route get (word "audit" ∷ []) "audit.list_audit_logs"
    ∷ route get (word "audit" ∷ word "export" ∷ word "csv" ∷ []) "audit.export_audit_csv"
    ∷ route get (word "audit" ∷ word "stream" ∷ []) "audit.audit_stream"
    ∷ []
