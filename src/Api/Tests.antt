-- ===== src/Api/Tests.antt =====
-- The theorem about the routes at a concrete call.
use dtsys.Prelude.{◌≡◌, String, some, arith, str_eq_iff}
use dtsys.Api.{no_fields}
use dtsys.Api.Mobile.{dispatch, mobile_request, mobile_handler, mobile_served}
use dtsys.Api.Fleet.{device_groups}
use dtsys.Api.Call.{group, api_request}
use dtsys.Api.Handlers.{IsId}
use dtsys.Api.Routes.{routes, serve}
use dtsys.Api.Served.{request_served}

abbrev device_id : String
device_id = "0b0f7a52"

device_id-IsId : IsId device_id
device_id-IsId = record {
  not_register = ground (arith, str_eq_iff device_id "register");
  not_by_fingerprint = ground (arith, str_eq_iff device_id "by-fingerprint");
  not_devices = ground (arith, str_eq_iff device_id "devices");
}

request_served_example :
    serve routes (api_request (group (device_groups device_id))) ≡ some "groups.list_device_groups"
request_served_example = request_served (group (device_groups device_id)) (device_id-IsId, tt)

mobile_served_example :
    serve routes (mobile_request (dispatch device_id "reboot" no_fields))
    ≡ mobile_handler (dispatch device_id "reboot" no_fields)
mobile_served_example = mobile_served (dispatch device_id "reboot" no_fields)
