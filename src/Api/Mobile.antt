-- ===== src/Api/Mobile.antt =====
-- The requests of the mobile application (mobile/src/api/commands.ts and mobile/src/screens), and
-- which of them the routes of the server answer.
use dtsys.Prelude.{◌≡◌, refl, arith, ℕ, String, false, [], ◌∷◌, Option, none, some}
use dtsys.Api.{
  flag, text, number, Fields, no_fields, field, object, get, post, Request, plain, fetch, submit,
}
use dtsys.Api.Routes.{routes, serve, path_matches}

-- The text of a device in a query is its id.
pub data MobileCall : Type 0 where
  devices alert_counts all_alerts : MobileCall
  device latest_metric device_alerts resolve_alert command : String → MobileCall
  commands : String → ℕ → MobileCall
  dispatch : String → String → Fields → MobileCall

unfoldable pub mobile_request : MobileCall → Request
mobile_request devices = plain get ("devices" ∷ [])
mobile_request alert_counts =
    fetch ("alerts" ∷ []) (field "resolved" (flag false) (field "limit" (number 500) no_fields))
mobile_request all_alerts =
    fetch ("alerts" ∷ []) (field "resolved" (flag false) (field "limit" (number 200) no_fields))
mobile_request (device id) = plain get ("devices" ∷ id ∷ [])
mobile_request (latest_metric id) = plain get ("metrics" ∷ id ∷ "latest" ∷ [])
mobile_request (device_alerts id) = fetch ("alerts" ∷ []) (
    field "device_id" (text id)
      (field "resolved" (flag false) (field "limit" (number 20) no_fields)))
mobile_request (resolve_alert id) = plain post ("alerts" ∷ id ∷ "resolve" ∷ [])
mobile_request (command id) = plain get ("commands" ∷ id ∷ [])
mobile_request (commands id limit) =
    fetch ("commands" ∷ []) (field "device_id" (text id) (field "limit" (number limit) no_fields))
mobile_request (dispatch id command_type payload) = submit post ("commands" ∷ []) (
    object (
      field "device_id" (text id)
        (field "command_type" (text command_type) (field "payload" (object payload) no_fields))))

-- What answers: nothing does for the readings and the commands.
abbrev pub mobile_handler : MobileCall → Option String
mobile_handler devices = some "devices.list_devices"
mobile_handler alert_counts = some "alerts.list_alerts"
mobile_handler all_alerts = some "alerts.list_alerts"
mobile_handler (device id) = some "devices.get_device"
mobile_handler (latest_metric id) = none
mobile_handler (device_alerts id) = some "alerts.list_alerts"
mobile_handler (resolve_alert id) = some "alerts.resolve_alert"
mobile_handler (command id) = none
mobile_handler (commands id limit) = none
mobile_handler (dispatch id command_type payload) = none

-- The server answers the mobile application's requests about devices and alerts, and has no route for
-- those about the latest readings and about commands.
pub mobile_served : (c : MobileCall) → serve routes (mobile_request c) ≡ mobile_handler c
unfolding mobile_request serve path_matches
mobile_served devices = refl
mobile_served alert_counts = refl
mobile_served all_alerts = refl
mobile_served (device id) = ground arith
mobile_served (latest_metric id) = refl
mobile_served (device_alerts id) = refl
mobile_served (resolve_alert id) = refl
mobile_served (command id) = refl
mobile_served (commands id limit) = refl
mobile_served (dispatch id command_type payload) = refl
