-- ===== src/Api/Call.antt =====
-- Any call of a function of frontend/src/api or of a page's or a hook's own, and the request that it sends.
use dtsys.Prelude.{String, Option}
use dtsys.Api.{Request}
use dtsys.Api.Accounts.{
  AdminCall, admin_request, AuthCall, auth_request, OrgCall, org_request, agent_version_request,
}
use dtsys.Api.Devices.{
  DeviceCall, device_request, CommandCall, command_request, MetricCall, metric_request,
}
use dtsys.Api.Fleet.{
  AlertCall, alert_request, GroupCall, group_request, InventoryCall, inventory_request, RuleCall,
  rule_request, SavedCall, saved_request, ScheduledCall, scheduled_request, SoftwareCall,
  software_request,
}
use dtsys.Api.Pages.{PageCall, page_request}

-- A call of one of the functions of frontend/src/api, or a request that a page or a hook sends itself.
pub data ApiCall : Type 0 where
  admin : AdminCall → ApiCall
  auth : AuthCall → ApiCall
  org : OrgCall → ApiCall
  agent_version : Option String → Option String → ApiCall
  device : DeviceCall → ApiCall
  command : CommandCall → ApiCall
  metric : MetricCall → ApiCall
  alert : AlertCall → ApiCall
  group : GroupCall → ApiCall
  stock : InventoryCall → ApiCall
  rule : RuleCall → ApiCall
  saved : SavedCall → ApiCall
  scheduled : ScheduledCall → ApiCall
  software : SoftwareCall → ApiCall
  page : PageCall → ApiCall

unfoldable pub api_request : ApiCall → Request
api_request (admin c) = admin_request c
api_request (auth c) = auth_request c
api_request (org c) = org_request c
api_request (agent_version platform arch) = agent_version_request platform arch
api_request (device c) = device_request c
api_request (command c) = command_request c
api_request (metric c) = metric_request c
api_request (alert c) = alert_request c
api_request (group c) = group_request c
api_request (stock c) = inventory_request c
api_request (rule c) = rule_request c
api_request (saved c) = saved_request c
api_request (scheduled c) = scheduled_request c
api_request (software c) = software_request c
api_request (page c) = page_request c
