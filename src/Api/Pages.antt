-- ===== src/Api/Pages.antt =====
-- The requests that the console sends past frontend/src/api: those of Compliance, Onboarding, Settings, Reports,
-- DeviceCompare, AuditLog, Downloads and the device's software and event tables, and the three streams
-- (hooks/useSSE.ts, hooks/useActivityStream.ts, AuditLog). The Authorization header is left out.
use dtsys.Prelude.{get_or, ℕ, ◌-◌, ◌*◌, String, List, [], ◌∷◌, Option}
use dtsys.Api.{
  Value, text, number, Fields, no_fields, field, get, post, delete, Request, plain, fetch, submit,
  when_truthy,
}

pub data PageCall : Type 0 where
  policies enrollment_token plain_version : PageCall
  policy_results delete_policy evaluate device_software : String → PageCall
  create_policy : Value → PageCall
  software_page : String → ℕ → ℕ → Option String → PageCall
  events_page : String → ℕ → ℕ → PageCall
  add_user : Value → PageCall
  audit_entries audit_export : Fields → PageCall
  alert_stream activity_stream : PageCall
  audit_stream : Option String → PageCall
  agent_download : String → String → PageCall

-- `skip` and `limit` of the page at hand.
abbrev pub page_fields : ℕ → ℕ → Fields → Fields
page_fields page size rest =
    field "skip" (number ((page - 1) * size)) (field "limit" (number size) rest)

unfoldable pub page_request : PageCall → Request
page_request policies = plain get ("compliance" ∷ "policies" ∷ [])
page_request enrollment_token = plain post ("admin" ∷ "enrollment-tokens" ∷ [])
page_request plain_version = plain get ("agent" ∷ "version" ∷ [])
page_request (policy_results id) =
    fetch ("compliance" ∷ "results" ∷ []) (field "policy_id" (text id) no_fields)
page_request (delete_policy id) = plain delete ("compliance" ∷ "policies" ∷ id ∷ [])
page_request (evaluate id) = plain post ("compliance" ∷ "evaluate" ∷ id ∷ [])
page_request (device_software id) = plain get ("devices" ∷ id ∷ "software" ∷ [])
page_request (create_policy body) = submit post ("compliance" ∷ "policies" ∷ []) body
page_request (software_page id page size search) =
    fetch ("devices" ∷ id ∷ "software" ∷ [])
      (page_fields page size (when_truthy "search" search no_fields))
page_request (events_page id page size) =
    fetch ("devices" ∷ id ∷ "events" ∷ []) (page_fields page size no_fields)
page_request (add_user body) = submit post ("admin" ∷ "users" ∷ []) body
page_request (audit_entries params) = fetch ("audit" ∷ []) params
page_request (audit_export params) = fetch ("audit" ∷ "export" ∷ "csv" ∷ []) params
page_request alert_stream = plain get ("events" ∷ "stream" ∷ [])
page_request activity_stream = plain get ("events" ∷ "activity-stream" ∷ [])
page_request (audit_stream token) =
    fetch ("audit" ∷ "stream" ∷ []) (field "token" (text (get_or token "")) no_fields)
page_request (agent_download platform arch) =
    fetch ("agent" ∷ "download" ∷ [])
      (field "platform" (text platform) (field "arch" (text arch) no_fields))

-- The function of the server that each is meant for.
abbrev pub page_handler : PageCall → String
page_handler policies = "compliance.list_policies"
page_handler enrollment_token = "admin.generate_enrollment_token"
page_handler plain_version = "agent.get_agent_version"
page_handler (policy_results id) = "compliance.list_results"
page_handler (delete_policy id) = "compliance.delete_policy"
page_handler (evaluate id) = "compliance.trigger_evaluation"
page_handler (device_software id) = "software.get_software_inventory"
page_handler (create_policy body) = "compliance.create_policy"
page_handler (software_page id page size search) = "software.get_software_inventory"
page_handler (events_page id page size) = "events.get_events"
page_handler (add_user body) = "admin.create_user"
page_handler (audit_entries params) = "audit.list_audit_logs"
page_handler (audit_export params) = "audit.export_audit_csv"
page_handler alert_stream = "event_stream.stream_alerts"
page_handler activity_stream = "activity_stream.stream_activity"
page_handler (audit_stream token) = "audit.audit_stream"
page_handler (agent_download platform arch) = "agent.download_agent"

abbrev pub page_ids : PageCall → List String
page_ids (device_software id) = id ∷ []
page_ids (software_page id page size search) = id ∷ []
page_ids (events_page id page size) = id ∷ []
page_ids _ = []
