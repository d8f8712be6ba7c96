-- ===== src/PolicyManager/PostureReports.antt =====
-- services/policy-manager/src/posture_handler.rs: the handler of posture reports.
use lentropy.Common.{
  ℕ, ◌-◌, ◌%◌, ◌^◌, Bool, not, Option, none, some, List, [], ◌∷◌, codes, String, str_eq, ltb,
  if◌then◌else◌, length, or_else, unwrap_or,
}
use lentropy.Common.Int.{ℤ, pos, negsuc}
use lentropy.Exec.{pure, when, ◌>>=◌}
use lentropy.PolicyEngine.{PolicyContext, PolicyRule}
use lentropy.Store.Endpoint.{EndpointRow}
use lentropy.Store.Policy.{decision_to_status}
use lentropy.Store.Posture.{PostureReport, default_policy, evaluate, is_empty}
use lentropy.Store.Database.{Platform, Db, bool, number, name, text}
use lentropy.Store.Endpoints.{
  PostureFields, find_by_mac, set_status, set_compliance, update_posture_fields,
}
use lentropy.Store.Logs.{log, save}
use lentropy.Store.Policies.{load_rules}
use lentropy.PolicyManager.Commands.{evaluate_rules, send}

-- `n as i32` of a length.
abbrev pub as_i32 : ℕ → ℤ
as_i32 n = let m = n % 2 ^ 32 in if ltb m (2 ^ 31) then pos m else negsuc (2 ^ 32 - 1 - m)

module _ {Json : Type 0} (platform : Platform Json) where
  abbrev pub fields_of : PostureReport → PostureFields Json
  fields_of report = record {
    sw = unwrap_or (platform.software_to_value report.installed_software) platform.null_value;
    missing_patches = as_i32 (length report.missing_patches);
    usb_enabled = report.usb_enabled;
    bluetooth = report.bluetooth_enabled;
    folder_sharing = report.folder_sharing_enabled;
    os_version = report.os_version;
  }

  abbrev pub log_report : PostureReport → EndpointRow Json → Bool → Db Json (Unit {0})
  log_report report endpoint is_compliant =
      log platform "posture_report" (some endpoint.id) (codes "agent-gateway") (
        ("mac", text report.device_id)
        ∷ ("is_compliant", bool is_compliant)
        ∷ ("missing_patches", number (length report.missing_patches))
        ∷ ("usb_enabled", bool report.usb_enabled)
        ∷ [])

  abbrev pub log_change : PostureReport → EndpointRow Json → Bool → String → Db Json (Unit {0})
  log_change report endpoint is_compliant new_status =
      log platform "posture_status_change" (some endpoint.id) (codes "policy-manager") (
        ("mac", text report.device_id)
        ∷ ("old_status", name endpoint.status)
        ∷ ("new_status", name new_status)
        ∷ ("is_compliant", bool is_compliant)
        ∷ [])

  abbrev pub context_of : PostureReport → EndpointRow Json → Bool → PolicyContext
  context_of report endpoint is_compliant = record {
    mac_address = endpoint.mac_address;
    ip_address = endpoint.ip_address;
    hostname = endpoint.hostname;
    os_family = or_else endpoint.os_family (some report.os);
    device_type = endpoint.device_type;
    username = endpoint.username;
    groups = [];
    is_compliant = some is_compliant;
    switch_port = endpoint.switch_port;
  }

  -- The step 7; the action of the command is the status.
  unfoldable pub change_status :
      PostureReport → EndpointRow Json → Bool → String → Db Json (Unit {0})
  change_status report endpoint is_compliant new_status = do
    u ← set_status platform endpoint.id new_status
    v ← log_change report endpoint is_compliant new_status
    send platform endpoint.mac_address (unwrap_or endpoint.ip_address []) new_status none

  -- The steps 6 and 7, under the policies that were loaded.
  unfoldable pub apply_posture :
      PostureReport → EndpointRow Json → Bool → List PolicyRule → Db Json (Unit {0})
  unfolding change_status
  apply_posture report endpoint is_compliant rules = do
    decision ← evaluate_rules platform rules (context_of report endpoint is_compliant)
    let new_status = decision_to_status decision
    when (not (str_eq endpoint.status new_status))
        (change_status report endpoint is_compliant new_status)

  -- The steps behind the look-up.
  unfoldable pub record_posture : PostureReport → EndpointRow Json → Db Json (Unit {0})
  unfolding apply_posture
  record_posture report endpoint = do
    let is_compliant = evaluate platform.to_lowercase platform.contains default_policy report
    s ← save platform endpoint.id report is_compliant
    c ← set_compliance platform endpoint.id is_compliant
    f ← update_posture_fields platform endpoint.id (fields_of report)
    l ← log_report report endpoint is_compliant
    rules ← load_rules platform
    if is_empty rules then pure tt else apply_posture report endpoint is_compliant rules

  abbrev pub record_found : PostureReport → Option (EndpointRow Json) → Db Json (Unit {0})
  record_found report none = pure tt
  record_found report (some endpoint) = record_posture report endpoint

  unfoldable pub process_posture : PostureReport → Db Json (Unit {0})
  unfolding record_posture
  process_posture report = find_by_mac platform report.device_id >>= record_found report
