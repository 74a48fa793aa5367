-- ===== src/Network.antt =====
-- The grouping of the network map (frontend/src/pages/NetworkMap.tsx). An address is the list of its
-- UTF-16 code units. The places of the nodes on the drawing are left out.
pub mod Groups
mod Tests
use dtsys.Prelude.{
  ℕ, String, Bool, true, false, ◌&&◌, List, [], ◌∷◌, ◌++◌, Option, none, some, ◌==◌, if◌then◌else◌,
  filter,
}
use dtsys.Types.{same_status, DeviceStatus, online, offline, alert}
use dtsys.Prelude.Text.{Text, text_eq, split_at}

-- What the map reads of a device.
pub record MapDevice : Type 0 where
  pub id : String
  pub status : DeviceStatus
  pub ip_address : Option Text

pub data StatusFilter : Type 0 where
  all : StatusFilter
  only : DeviceStatus → StatusFilter

unfoldable pub visible_devices : StatusFilter → List MapDevice → List MapDevice
visible_devices all devices = devices
visible_devices (only status) devices = filter (λ device. same_status device.status status) devices

-- `split('/')[0]`
unfoldable pub before_slash : Text → Text
before_slash [] = []
before_slash (c ∷ s) = let rest = before_slash s in if c == b'/' then [] else c ∷ rest

-- 'unknown', or the first three parts with ".0/24".
pub data Subnet : Type 0 where
  unknown : Subnet
  subnet : Text → Text → Text → Subnet

unfoldable pub subnet_of_parts : List Text → Subnet
subnet_of_parts (a ∷ b ∷ c ∷ d ∷ []) = subnet a b c
subnet_of_parts _ = unknown

unfoldable pub subnet_of : Option Text → Subnet
subnet_of none = unknown
subnet_of (some []) = unknown
subnet_of (some (c ∷ s)) = subnet_of_parts (split_at b'.' (before_slash (c ∷ s)))

abbrev pub same_subnet : Subnet → Subnet → Bool
same_subnet unknown unknown = true
same_subnet unknown (subnet x y z) = false
same_subnet (subnet a b c) unknown = false
same_subnet (subnet a b c) (subnet x y z) = text_eq a x && (text_eq b y && text_eq c z)

pub record SubnetGroup : Type 0 where
  pub key : Subnet
  pub members : List MapDevice

-- `groups.set(key, [...(groups.get(key) ?? []), device])`: a new key goes to the end.
unfoldable pub add_device : MapDevice → List SubnetGroup → List SubnetGroup
add_device device [] = record { key = subnet_of device.ip_address; members = device ∷ [] } ∷ []
add_device device (g ∷ gs) =
    let rest = add_device device gs in
    if same_subnet g.key (subnet_of device.ip_address)
    then record g { members = g.members ++ device ∷ [] } ∷ gs
    else g ∷ rest

unfoldable pub add_devices : List MapDevice → List SubnetGroup → List SubnetGroup
add_devices [] groups = groups
add_devices (device ∷ devices) groups = add_devices devices (add_device device groups)

unfoldable pub subnet_groups : StatusFilter → List MapDevice → List SubnetGroup
subnet_groups status devices = add_devices (visible_devices status devices) []
