-- ===== src/Api/Devices.antt =====
-- The requests about one device or the list of them: frontend/src/api/{devices,commands,metrics}.ts.
use dtsys.Prelude.{get_or, ℕ, String, List, [], ◌∷◌, Option}
use dtsys.Api.{
  Value, text, texts, number, Fields, no_fields, field, object, get, post, patch, delete, Request,
  plain, fetch, submit, when_truthy,
}

pub data DeviceCall : Type 0 where
  list : Option String → Option String → DeviceCall
  get_one network ssh_keys processes agent_logs screenshot request_screenshot : String → DeviceCall
  config disconnect revoke : String → DeviceCall
  delete_ssh_key : String → String → DeviceCall
  uptime_history : String → Option ℕ → DeviceCall
  update_config update maintenance : String → Value → DeviceCall

unfoldable pub device_request : DeviceCall → Request
device_request (list tag search) =
    fetch ("devices" ∷ []) (when_truthy "tag" tag (when_truthy "search" search no_fields))
device_request (get_one id) = plain get ("devices" ∷ id ∷ [])
device_request (network id) = plain get ("devices" ∷ id ∷ "network" ∷ [])
device_request (ssh_keys id) = plain get ("devices" ∷ id ∷ "ssh-keys" ∷ [])
device_request (delete_ssh_key device_id key_id) =
    plain delete ("devices" ∷ device_id ∷ "ssh-keys" ∷ key_id ∷ [])
device_request (processes id) = plain get ("devices" ∷ id ∷ "processes" ∷ [])
device_request (agent_logs id) = plain get ("devices" ∷ id ∷ "agent-logs" ∷ [])
device_request (screenshot id) = plain get ("devices" ∷ id ∷ "screenshot" ∷ [])
device_request (request_screenshot id) = plain post ("devices" ∷ id ∷ "screenshot" ∷ "request" ∷ [])
device_request (uptime_history id days) =
    fetch ("devices" ∷ id ∷ "uptime-history" ∷ [])
      (field "days" (number (get_or days 30)) no_fields)
device_request (config id) = plain get ("devices" ∷ id ∷ "config" ∷ [])
device_request (update_config id body) = submit post ("devices" ∷ id ∷ "config" ∷ []) body
device_request (update id body) = submit patch ("devices" ∷ id ∷ []) body
device_request (maintenance id body) = submit post ("devices" ∷ id ∷ "maintenance" ∷ []) body
device_request (disconnect id) = plain post ("devices" ∷ id ∷ "disconnect" ∷ [])
device_request (revoke id) = plain delete ("devices" ∷ id ∷ [])

pub data CommandCall : Type 0 where
  dispatch : String → String → Option Fields → CommandCall
  bulk : List String → String → Option Fields → CommandCall
  list_for : String → CommandCall
  get_command : String → String → CommandCall

unfoldable pub command_request : CommandCall → Request
command_request (dispatch device_id command_type payload) =
    submit post ("devices" ∷ device_id ∷ "commands" ∷ []) (
      object (
        field "command_type" (text command_type)
          (field "payload" (object (get_or payload no_fields)) no_fields)))
command_request (bulk device_ids command_type payload) = submit post ("commands" ∷ "bulk" ∷ []) (
    object (
      field "device_ids" (texts device_ids) (
        field "command_type" (text command_type)
          (field "payload" (object (get_or payload no_fields)) no_fields))))
command_request (list_for device_id) = plain get ("devices" ∷ device_id ∷ "commands" ∷ [])
command_request (get_command device_id command_id) =
    plain get ("devices" ∷ device_id ∷ "commands" ∷ command_id ∷ [])

pub data MetricCall : Type 0 where
  history : String → Option ℕ → MetricCall
  latest : String → MetricCall

unfoldable pub metric_request : MetricCall → Request
metric_request (history device_id hours) =
    fetch ("devices" ∷ device_id ∷ "metrics" ∷ [])
      (field "hours" (number (get_or hours 24)) no_fields)
metric_request (latest device_id) = plain get ("devices" ∷ device_id ∷ "metrics" ∷ "latest" ∷ [])
