-- ===== src/Store/Posture.antt =====
-- crates/nac-store/src/posture.rs: the compliance policy of the posture reports. `contains` is
-- `str::contains`, with the part that is looked for last.
pub mod Compliance
use lentropy.Common.{ℕ, Bool, true, false, not, ◌&&◌, ◌||◌, List, [], ◌∷◌, Text, any, if◌then◌else◌}
use lentropy.Common.Int.{ℤ}

pub record SoftwareItem : Type 0 where
  pub name : Text
  pub version : Text

pub record PatchItem : Type 0 where
  pub kb_id : Text
  pub description : Text

pub record PostureReport : Type 0 where
  pub device_id : Text
  pub os : Text
  pub os_version : Text
  pub installed_software : List SoftwareItem
  pub missing_patches : List PatchItem
  pub usb_enabled : Bool
  pub bluetooth_enabled : Bool
  pub folder_sharing_enabled : Bool
  pub timestamp : ℤ

pub record CompliancePolicy : Type 0 where
  pub required_software : List Text
  pub require_patches : Bool
  pub allow_usb : Bool
  pub allow_bluetooth : Bool
  pub allow_folder_sharing : Bool

abbrev pub default_policy : CompliancePolicy
default_policy = record {
  required_software = [];
  require_patches = true;
  allow_usb = true;
  allow_bluetooth = true;
  allow_folder_sharing = false;
}

abbrev pub is_empty {ℓ} : {A : Type ℓ} → List A → Bool
is_empty [] = true
is_empty (x ∷ xs) = false

module _ (to_lowercase : Text → Text) (contains : Text → Text → Bool) where
  abbrev pub installed : List SoftwareItem → Text → Bool
  installed software req = any (λ s. contains (to_lowercase s.name) (to_lowercase req)) software

  -- The loop over the required names; it goes on with the other checks.
  unfoldable pub software_loop : List Text → List SoftwareItem → Bool → Bool
  software_loop [] software rest = rest
  software_loop (req ∷ reqs) software rest =
      let later = software_loop reqs software rest in
      if not (installed software req) then false else later

  unfoldable pub evaluate : CompliancePolicy → PostureReport → Bool
  unfolding software_loop
  evaluate p report = software_loop p.required_software report.installed_software (
      if p.require_patches && not (is_empty report.missing_patches)
      then false
      else if not p.allow_usb && report.usb_enabled
      then false
      else if not p.allow_bluetooth && report.bluetooth_enabled
      then false
      else if not p.allow_folder_sharing && report.folder_sharing_enabled
      then false
      else true)
