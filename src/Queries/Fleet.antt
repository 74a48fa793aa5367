-- ===== src/Queries/Fleet.antt =====
-- The queries of the hooks (frontend/src/hooks) and of the pages about the devices, each as it stands there.
use dtsys.Prelude.{
  get_or, ℕ, ◌-◌, ◌*◌, String, Bool, true, false, [], ◌∷◌, Option, none, some, if◌then◌else◌, leb,
  str_eq,
}
use dtsys.Prelude.Storage.{is_truthy}
use dtsys.Api.{Fields, no_fields, field, number, text, flag, when_truthy}
use dtsys.Api.Call.{device, metric, alert, group, stock, software, page}
use dtsys.Api.Devices.{DeviceCall, get_one, history, latest}
use dtsys.Api.Fleet.{AlertCall, list_page, groups, group_devices, inventory, tags}
use dtsys.Api.Pages.{device_software}
use dtsys.Queries.{word, count, switch, QueryUse, shape_of}

-- The queries' parameters, where a page builds them.
abbrev pub alert_page_fields : ℕ → Bool → Fields
alert_page_fields n true =
    field "limit" (number 20) (field "skip" (number ((n - 1) * 20)) no_fields)
alert_page_fields n false =
    field "resolved" (flag false)
      (field "limit" (number 20) (field "skip" (number ((n - 1) * 20)) no_fields))

abbrev pub stock_fields : String → Bool → Fields
stock_fields assigned_to true =
    when_truthy "assigned_to" (some assigned_to)
      (field "warranty_expiring_days" (number 90) no_fields)
stock_fields assigned_to false = when_truthy "assigned_to" (some assigned_to) no_fields

abbrev pub report_fields : String → Fields
report_fields id =
    field "limit" (number 1000)
      (if str_eq id "all" then no_fields else field "device_id" (text id) no_fields)

-- A query for each of some devices is made for a list that is then not empty.
abbrev pub device_list_query : Option String → QueryUse
device_list_query tag = record {
  key = word "devices" ∷ word (get_or tag "all") ∷ [];
  call = device (DeviceCall.list tag none);
  enabled = true;
  refetch_interval = (some 30000);
}

abbrev pub one_device_query : String → QueryUse
one_device_query id = record {
  key = word "device" ∷ word id ∷ [];
  call = device (get_one id);
  enabled = true;
  refetch_interval = (some 15000);
}

abbrev pub metric_history_query : String → ℕ → QueryUse
metric_history_query id hours = record {
  key = word "metrics" ∷ word id ∷ count hours ∷ [];
  call = metric (history id (some hours));
  enabled = is_truthy (some id);
  refetch_interval = (some 60000);
}

abbrev pub latest_metric_query : String → QueryUse
latest_metric_query id = record {
  key = word "metrics" ∷ word id ∷ word "latest" ∷ [];
  call = metric (latest id);
  enabled = is_truthy (some id);
  refetch_interval = (some 30000);
}

abbrev pub alert_list_query : Option Fields → QueryUse
alert_list_query params = record {
  key = word "alerts" ∷ shape_of params ∷ [];
  call = alert (AlertCall.list (get_or params no_fields));
  enabled = true;
  refetch_interval = (some 30000);
}

abbrev pub report_devices_query : QueryUse
report_devices_query = record {
  key = word "devices" ∷ word "reports" ∷ [];
  call = device (DeviceCall.list none none);
  enabled = true;
  refetch_interval = none;
}

abbrev pub onboarding_devices_query : Bool → ℕ → QueryUse
onboarding_devices_query is_admin step = record {
  key = word "devices" ∷ word "onboarding" ∷ [];
  call = device (DeviceCall.list none none);
  enabled = is_admin;
  refetch_interval = (if leb 2 step then some 5000 else none);
}

abbrev pub home_devices_query : Bool → QueryUse
home_devices_query is_admin = record {
  key = word "devices" ∷ word "home-route" ∷ [];
  call = device (DeviceCall.list none none);
  enabled = is_admin;
  refetch_interval = none;
}

abbrev pub custom_devices_query : QueryUse
custom_devices_query = record {
  key = word "devices" ∷ word "custom-dashboard" ∷ [];
  call = device (DeviceCall.list none none);
  enabled = true;
  refetch_interval = none;
}

abbrev pub tag_list_query : QueryUse
tag_list_query = record {
  key = word "tags" ∷ [];
  call = software tags;
  enabled = true;
  refetch_interval = none;
}

abbrev pub group_list_query : QueryUse
group_list_query = record {
  key = word "groups" ∷ [];
  call = group groups;
  enabled = true;
  refetch_interval = none;
}

abbrev pub devices_of_group_query : String → QueryUse
devices_of_group_query id = record {
  key = word "groups" ∷ word id ∷ word "devices" ∷ [];
  call = group (group_devices id);
  enabled = is_truthy (some id);
  refetch_interval = none;
}

abbrev pub alert_page_query : ℕ → Bool → QueryUse
alert_page_query n show_resolved = record {
  key = word "alerts" ∷ word "page" ∷ count n ∷ switch show_resolved ∷ [];
  call = alert (list_page (alert_page_fields n show_resolved));
  enabled = true;
  refetch_interval = none;
}

abbrev pub stock_list_query : String → Bool → QueryUse
stock_list_query assigned_to expiring_only = record {
  key = word "inventory" ∷ word assigned_to ∷ switch expiring_only ∷ [];
  call = stock (inventory (stock_fields assigned_to expiring_only));
  enabled = true;
  refetch_interval = none;
}

abbrev pub report_alerts_query : String → QueryUse
report_alerts_query id = record {
  key = word "alerts" ∷ word "reports" ∷ word id ∷ [];
  call = alert (AlertCall.list (report_fields id));
  enabled = true;
  refetch_interval = none;
}

abbrev pub report_metrics_query : String → ℕ → QueryUse
report_metrics_query id hours = record {
  key = word "reports" ∷ word "metrics" ∷ word id ∷ count hours ∷ [];
  call = metric (history id (some hours));
  enabled = true;
  refetch_interval = none;
}

abbrev pub report_software_query : String → QueryUse
report_software_query id = record {
  key = word "reports" ∷ word "software" ∷ word id ∷ [];
  call = page (device_software id);
  enabled = true;
  refetch_interval = none;
}
