-- ===== src/PolicyEngine.antt =====
-- crates/nac-policy-engine/src/lib.rs and rule.rs: the decisions, the context of an evaluation, and
-- the rules with their conditions. The evaluator is in the module below.
pub mod Evaluator
pub mod Priority
use lentropy.Common.{ℕ, Bool, Option, List, Text, String}
use lentropy.Common.Int.{ℤ}

pub data PolicyError : Type 0 where
  unknown_policy : Text → PolicyError
  evaluation : Text → PolicyError
  serialization : PolicyError

pub data PolicyDecision : Type 0 where
  allow : PolicyDecision
  allow_vlan : ℕ → PolicyDecision
  quarantine : ℕ → Text → PolicyDecision
  deny : Text → PolicyDecision

pub record PolicyContext : Type 0 where
  pub mac_address : Text
  pub ip_address : Option Text
  pub hostname : Option Text
  pub os_family : Option Text
  pub device_type : Option Text
  pub username : Option Text
  pub groups : List Text
  pub is_compliant : Option Bool
  pub switch_port : Option Text

-- `Vec<Condition>` inside `Condition` is the second type of the block.
mutual
  pub data Condition : Type 0 where
    os_family : Text → Condition
    user_group : List Text → Condition
    compliant : Bool → Condition
    device_type : Text → Condition
    and : Conditions → Condition
    or : Conditions → Condition
    not : Condition → Condition
    mac_list : List Text → Condition
    os_version_below : Text → Condition
    os_version_at_least : Text → Condition
    software_installed : Text → Condition
    software_not_installed : Text → Condition
    has_missing_patches : Condition
    usb_enabled : Condition
    bluetooth_enabled : Condition
    folder_sharing_enabled : Condition
    mac_blacklist : List Text → Condition

  pub data Conditions : Type 0 where
    nil : Conditions
    cons : Condition → Conditions → Conditions

pub record PolicyRule : Type 0 where
  pub name : Text
  pub priority : ℤ
  pub condition : Condition
  pub decision : PolicyDecision
