-- ===== src/Store/Endpoint.antt =====
-- crates/nac-store/src/endpoint.rs: the endpoint record. A UUID and a time are numbers, and a JSON
-- value is of a type that stands for serde_json's.
use lentropy.Common.{ℕ, Option, Bool, Text, String}
use lentropy.Common.Int.{ℤ}

pub record EndpointRow (Json : Type 0) : Type 0 where
  pub id : ℕ
  pub mac_address : Text
  pub ip_address : Option Text
  pub hostname : Option Text
  pub os_family : Option Text
  pub os_version : Option Text
  pub device_type : Option Text
  pub vendor : Option Text
  pub vlan_id : Option ℤ
  pub switch_port : Option Text
  pub interface : Option Text
  pub username : Option Text
  pub status : String
  pub first_seen : ℕ
  pub last_seen : ℕ
  pub is_compliant : Option Bool
  pub last_posture_check : Option ℕ
  pub assigned_policy_id : Option ℕ
  pub policy_exempt : Bool
  pub posture_sw : Option Json
  pub posture_missing_patches : ℤ
  pub posture_usb_enabled : Option Bool
  pub posture_bluetooth : Option Bool
  pub posture_folder_sharing : Option Bool
  pub posture_os_version : Option Text
  pub agent_id : Option Text
