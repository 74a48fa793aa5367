-- ===== src/Overview.antt =====
-- The list of devices (frontend/src/pages/Dashboard.tsx): its filters, its figures and the selection that
-- the bar of bulk commands works on. `settle` is the effect that drops selected devices which are gone.
pub mod Choice
mod Tests
use dtsys.Prelude.{
  get_or, ℕ, String, Bool, true, false, not, ◌&&◌, ◌||◌, List, [], ◌∷◌, ◌++◌, Option, none, some,
  str_eq, if◌then◌else◌, filter, any, length, leb,
}
use dtsys.Prelude.Text.{Text, text_eq, includes_text, is_filled}
use dtsys.Types.{same_status, DeviceStatus, online, offline, alert}

-- What the list reads of a device.
pub record ListedDevice : Type 0 where
  pub id : String
  pub hostname : Text
  pub label : Option Text
  pub ip_address : Option Text
  pub status : DeviceStatus
  pub tags : List Text

pub data Filter : Type 0 where
  all : Filter
  only : DeviceStatus → Filter

abbrev pub passes : Filter → ListedDevice → Bool
passes all d = true
passes (only status) d = same_status d.status status

abbrev pub has_tag : Text → ListedDevice → Bool
has_tag tag d = not (is_filled tag) || any (text_eq tag) d.tags

abbrev pub is_match : (Text → Text) → Text → ListedDevice → Bool
is_match to_lower_case search d =
    not (is_filled search)
    || includes_text (to_lower_case search) (to_lower_case d.hostname)
    || includes_text (to_lower_case search) (to_lower_case (get_or d.label []))
    || includes_text search (get_or d.ip_address [])

-- The devices that are drawn.
unfoldable pub shown_devices :
    (Text → Text) → Text → Filter → Text → List ListedDevice → List ListedDevice
shown_devices to_lower_case tag status search devices =
    filter (is_match to_lower_case search) (filter (passes status) (filter (has_tag tag) devices))

-- The figures above the list.
unfoldable pub count_status : DeviceStatus → List ListedDevice → ℕ
count_status status devices =
    length (filter (λ (d : ListedDevice). same_status d.status status) devices)

pub record Overview : Type 0 where
  pub selected_group : String
  pub devices : List ListedDevice
  pub group_devices : List ListedDevice
  pub selected_ids : List String

-- sourceDevices
abbrev pub source_devices : Overview → List ListedDevice
source_devices s = if str_eq s.selected_group "" then s.devices else s.group_devices

abbrev pub is_listed : List ListedDevice → String → Bool
is_listed devices id = any (λ (d : ListedDevice). str_eq d.id id) devices

unfoldable pub settle : Overview → Overview
settle s = record s { selected_ids = filter (is_listed (source_devices s)) s.selected_ids }

abbrev pub includes_id : List String → String → Bool
includes_id ids id = any (λ i. str_eq i id) ids

unfoldable pub toggle_selected : String → List String → List String
toggle_selected id current =
    if includes_id current id then filter (λ i. not (str_eq i id)) current else current ++ id ∷ []

-- A device's box is ticked; the bar clears the selection; the queries answer; another group is chosen.
pub data ListEvent : Type 0 where
  toggled : ListedDevice → ListEvent
  cleared : ListEvent
  listed group_listed : List ListedDevice → ListEvent
  grouped : String → ListEvent

unfoldable pub handle : ListEvent → Overview → Overview
handle (toggled d) s = record s { selected_ids = toggle_selected d.id s.selected_ids }
handle cleared s = record s { selected_ids = [] }
handle (listed devices) s = record s { devices = devices }
handle (group_listed devices) s = record s { group_devices = devices }
handle (grouped id) s = record s { selected_group = id }

unfoldable pub step : ListEvent → Overview → Overview
step event s = settle (handle event s)

unfoldable pub run : List ListEvent → Overview → Overview
run [] s = s
run (event ∷ events) s = run events (step event s)

abbrev pub first_overview : Overview
first_overview = record { selected_group = ""; devices = []; group_devices = []; selected_ids = [] }

-- The bar of bulk commands is drawn for two devices and more.
abbrev pub shows_bar : Overview → Bool
shows_bar s = leb 2 (length s.selected_ids)
