-- ===== src/Types.antt =====
-- The records that the server sends and the pages share (frontend/src/types/index.ts). A field that
-- may be `null` or `undefined` is an `Option`; dates are ISO texts.
use dtsys.Prelude.{String, Bool, true, false, Option}

pub data Severity : Type 0 where
  info warning critical : Severity

pub record Alert : Type 0 where
  pub id : String
  pub device_id : String
  pub alert_type : String
  pub severity : Severity
  pub message : String
  pub is_resolved : Bool
  pub created_at : String
  pub resolved_at : Option String

pub data DeviceStatus : Type 0 where
  online offline alert : DeviceStatus

abbrev pub same_status : DeviceStatus → DeviceStatus → Bool
same_status online online = true
same_status offline offline = true
same_status alert alert = true
same_status _ _ = false
