-- ===== src/Queries/Panels.antt =====
-- The queries of the device page, its panels, the search overlay and the comparison, each as it stands
-- there.
use dtsys.Prelude.{get_or, ℕ, String, Bool, true, false, [], ◌∷◌, Option, none, some, if◌then◌else◌}
use dtsys.Prelude.Storage.{is_truthy}
use dtsys.Types.{DeviceStatus, online, offline, alert as alert_status}
use dtsys.Api.{Fields, no_fields, field, number, text, flag}
use dtsys.Api.Call.{
  ApiCall, agent_version, device, command, metric, alert, group, saved, software, page,
}
use dtsys.Api.Devices.{
  DeviceCall, get_one, config, screenshot, uptime_history, ssh_keys, network, processes, agent_logs,
  list_for, history, latest,
}
use dtsys.Api.Fleet.{AlertCall, groups, device_groups, saved_commands, search}
use dtsys.Api.Pages.{device_software, software_page, events_page}
use dtsys.Queries.{Part, word, count, absent, QueryUse, text_part}

pub data OsType : Type 0 where
  windows linux macos : OsType

-- mapPlatform, on the texts that `os_type` can hold.
abbrev pub map_platform : Option OsType → String
map_platform none = "linux"
map_platform (some windows) = "windows"
map_platform (some macos) = "darwin"
map_platform (some linux) = "linux"

abbrev pub os_part : Option OsType → Part
os_part none = absent
os_part (some windows) = word "windows"
os_part (some macos) = word "macos"
os_part (some linux) = word "linux"

abbrev pub event_mode : Bool → String
event_mode true = "agent"
event_mode false = "system"

abbrev pub event_call : String → Bool → ℕ → ApiCall
event_call id true n = device (agent_logs id)
event_call id false n = page (events_page id n 50)

abbrev pub card_fields : String → Fields
card_fields id = field "device_id" (text id) (field "resolved" (flag false) no_fields)

abbrev pub compare_fields : String → Fields
compare_fields id =
    field "device_id" (text id)
      (field "resolved" (flag false) (field "limit" (number 200) no_fields))

abbrev pub is_alert : DeviceStatus → Bool
is_alert alert_status = true
is_alert online = false
is_alert offline = false

abbrev pub is_online : DeviceStatus → Bool
is_online online = true
is_online offline = false
is_online alert_status = false

-- A query for each of some devices is made for a list that is then not empty.
abbrev pub device_config_query : String → QueryUse
device_config_query id = record {
  key = word "device-config" ∷ word id ∷ [];
  call = device (config id);
  enabled = is_truthy (some id);
  refetch_interval = none;
}

abbrev pub group_choice_query : QueryUse
group_choice_query = record {
  key = word "groups" ∷ [];
  call = group groups;
  enabled = true;
  refetch_interval = none;
}

abbrev pub groups_of_device_query : String → QueryUse
groups_of_device_query id = record {
  key = word "device-groups" ∷ word id ∷ [];
  call = group (device_groups id);
  enabled = is_truthy (some id);
  refetch_interval = none;
}

abbrev pub screenshot_of_query : String → Bool → QueryUse
screenshot_of_query id is_capturing = record {
  key = word "device-screenshot" ∷ word id ∷ [];
  call = device (screenshot id);
  enabled = is_truthy (some id);
  refetch_interval = (if is_capturing then some 3000 else none);
}

abbrev pub history_of_query : String → QueryUse
history_of_query id = record {
  key = word "device-uptime-history" ∷ word id ∷ [];
  call = device (uptime_history id none);
  enabled = is_truthy (some id);
  refetch_interval = none;
}

abbrev pub keys_of_query : String → QueryUse
keys_of_query id = record {
  key = word "device-ssh-keys" ∷ word id ∷ [];
  call = device (ssh_keys id);
  enabled = is_truthy (some id);
  refetch_interval = none;
}

abbrev pub version_for_query : Option OsType → Option String → Bool → QueryUse
version_for_query os_type arch is_loaded = record {
  key = word "agent-version" ∷ os_part os_type ∷ text_part arch ∷ [];
  call = agent_version (some (map_platform os_type)) (some (get_or arch "amd64"));
  enabled = is_loaded;
  refetch_interval = none;
}

abbrev pub commands_of_query : String → QueryUse
commands_of_query id = record {
  key = word "commands" ∷ word id ∷ [];
  call = command (list_for id);
  enabled = true;
  refetch_interval = (some 5000);
}

abbrev pub saved_panel_query : QueryUse
saved_panel_query = record {
  key = word "saved-commands" ∷ word "panel" ∷ [];
  call = saved saved_commands;
  enabled = true;
  refetch_interval = none;
}

abbrev pub network_of_query : String → QueryUse
network_of_query id = record {
  key = word "device-network" ∷ word id ∷ [];
  call = device (network id);
  enabled = is_truthy (some id);
  refetch_interval = (some 60000);
}

abbrev pub processes_of_query : String → Bool → QueryUse
processes_of_query id active = record {
  key = word "device-processes" ∷ word id ∷ [];
  call = device (processes id);
  enabled = active;
  refetch_interval = (if active then some 60000 else none);
}

abbrev pub events_of_query : String → Bool → ℕ → QueryUse
events_of_query id agent n = record {
  key = word "events" ∷ word id ∷ word (event_mode agent) ∷ count n ∷ [];
  call = event_call id agent n;
  enabled = true;
  refetch_interval = (some 30000);
}

abbrev pub software_of_query : String → ℕ → String → QueryUse
software_of_query id n found = record {
  key = word "software" ∷ word id ∷ count n ∷ word found ∷ [];
  call = page (software_page id n 100 (some found));
  enabled = true;
  refetch_interval = (some 120000);
}

abbrev pub card_alerts_query : String → DeviceStatus → QueryUse
card_alerts_query id status = record {
  key = word "alerts" ∷ word "device-card" ∷ word id ∷ [];
  call = alert (AlertCall.list (card_fields id));
  enabled = is_alert status;
  refetch_interval = (some 30000);
}

abbrev pub card_metrics_query : String → DeviceStatus → QueryUse
card_metrics_query id status = record {
  key = word "metrics" ∷ word "sparkline" ∷ word id ∷ [];
  call = metric (history id (some 1));
  enabled = is_online status;
  refetch_interval = (some 120000);
}

abbrev pub found_devices_query : Bool → String → QueryUse
found_devices_query is_asked query = record {
  key = word "global-search" ∷ word "devices" ∷ word query ∷ [];
  call = device (DeviceCall.list none (some query));
  enabled = is_asked;
  refetch_interval = none;
}

abbrev pub found_software_query : Bool → String → QueryUse
found_software_query is_asked query = record {
  key = word "global-search" ∷ word "software" ∷ word query ∷ [];
  call = software (search query);
  enabled = is_asked;
  refetch_interval = none;
}

abbrev pub compared_device_query : String → QueryUse
compared_device_query id = record {
  key = word "device" ∷ word "compare" ∷ word id ∷ [];
  call = device (get_one id);
  enabled = true;
  refetch_interval = none;
}

abbrev pub compared_alerts_query : String → QueryUse
compared_alerts_query id = record {
  key = word "alerts" ∷ word "compare" ∷ word id ∷ [];
  call = alert (AlertCall.list (compare_fields id));
  enabled = true;
  refetch_interval = none;
}

abbrev pub compared_metric_query : String → QueryUse
compared_metric_query id = record {
  key = word "metrics" ∷ word "compare" ∷ word id ∷ word "latest" ∷ [];
  call = metric (latest id);
  enabled = true;
  refetch_interval = none;
}

abbrev pub compared_software_query : String → QueryUse
compared_software_query id = record {
  key = word "software" ∷ word "compare" ∷ word id ∷ [];
  call = page (device_software id);
  enabled = true;
  refetch_interval = none;
}
