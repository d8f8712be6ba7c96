-- ===== src/PolicyManager/Detected.antt =====
-- services/policy-manager/src/consumer.rs: the handler of detected endpoints.
use lentropy.Common.{
  Bool, false, not, ◌&&◌, ◌||◌, Option, none, some, List, [], ◌∷◌, ◌++◌, codes, Text, String,
  str_eq, if◌then◌else◌, and_then,
}
use lentropy.Common.Int.{ℤ}
use lentropy.Exec.{pure, attempt, when, ◌>>=◌}
use lentropy.PolicyEngine.{PolicyDecision, quarantine, PolicyContext, PolicyRule}
use lentropy.Store.Endpoint.{EndpointRow}
use lentropy.Store.Policy.{decision_to_status}
use lentropy.Store.Posture.{is_empty}
use lentropy.Store.Database.{Platform, Db, SessionRow, name, text, value_of}
use lentropy.Store.Endpoints.{UpsertEndpoint, upsert, find_by_mac, set_status}
use lentropy.Store.Sessions.{create, find_active_by_endpoint}
use lentropy.Store.Logs.{log}
use lentropy.Store.Policies.{load_rules}
use lentropy.PolicyManager.Commands.{
  strip_cidr, map_some, flatten, is_some, option_text_eq, non_empty, as_i16, evaluate_rules,
  publish_if_known,
}

pub record EndpointDetectedEvent : Type 0 where
  pub mac_address : Text
  pub ip_address : Text
  pub interface : Text
  pub source : Text
  pub timestamp : ℤ
  pub hostname : Option Text
  pub os_family : Option Text
  pub os_version : Option Text
  pub device_type : Option Text
  pub vendor : Option Text

abbrev pub upsert_of : EndpointDetectedEvent → UpsertEndpoint
upsert_of event = record {
  mac_address = event.mac_address;
  ip_address = non_empty event.ip_address;
  hostname = event.hostname;
  os_family = event.os_family;
  os_version = event.os_version;
  device_type = event.device_type;
  vendor = event.vendor;
  interface = non_empty event.interface;
  agent_id = none;
}

abbrev pub quarantine_vlan : PolicyDecision → Option ℤ
quarantine_vlan (quarantine vlan reason) = some (as_i16 vlan)
quarantine_vlan _ = none

module _ {Json : Type 0} where
  abbrev pub context_of : EndpointRow Json → PolicyContext
  context_of row = record {
    mac_address = row.mac_address;
    ip_address = row.ip_address;
    hostname = row.hostname;
    os_family = row.os_family;
    device_type = row.device_type;
    username = row.username;
    groups = [];
    is_compliant = none;
    switch_port = row.switch_port;
  }

  unfoldable pub has_login : EndpointRow Json → Bool
  has_login row = str_eq row.status "allowed" && is_some row.username

  module _ (platform : Platform Json) where
    abbrev active_session : Option SessionRow → Bool
    active_session none = false
    active_session (some s) = str_eq s.state "active"

    unfoldable pub already_authenticated : EndpointRow Json → Db Json Bool
    unfolding has_login
    already_authenticated row =
        if has_login row
        then (attempt (find_active_by_endpoint platform row.id) >>= λ found.
            pure (active_session (flatten found)))
        else pure false

    abbrev pub log_detected :
        EndpointDetectedEvent → EndpointRow Json → Option Text → Db Json (Unit {0})
    log_detected event row new_ip =
        log platform "endpoint_detected" (some row.id) (codes "sensor/" ++ event.source) (
          ("mac", text row.mac_address)
          ∷ ("ip", value_of new_ip)
          ∷ ("source", text event.source)
          ∷ ("os_family", value_of row.os_family)
          ∷ ("device_type", value_of row.device_type)
          ∷ [])

    abbrev pub log_ip_changed : EndpointRow Json → Option Text → Option Text → Db Json (Unit {0})
    log_ip_changed row old_ip new_ip =
        log platform "endpoint_ip_changed" (some row.id) (codes "sensor") (
          ("mac", text row.mac_address)
          ∷ ("old_ip", value_of old_ip)
          ∷ ("new_ip", value_of new_ip)
          ∷ [])

    abbrev pub log_decision : EndpointRow Json → String → PolicyDecision → Db Json (Unit {0})
    log_decision row new_status decision =
        log platform "policy_decision" (some row.id) (codes "policy-manager") (
          ("mac", text row.mac_address)
          ∷ ("old_status", name row.status)
          ∷ ("new_status", name new_status)
          ∷ ("decision", text (platform.debug decision))
          ∷ [])

    -- A session for a device that is quarantined now; its failure is only logged.
    abbrev pub open_session : EndpointRow Json → String → PolicyDecision → Db Json (Unit {0})
    open_session row new_status decision = when (str_eq new_status "quarantined") (
        attempt (
          create platform (record {
            endpoint_id = row.id;
            auth_method = "captive_portal";
            vlan_id = quarantine_vlan decision;
          }))
        >>= λ made. pure tt)

    -- The change of the status, and the command for it.
    unfoldable pub change_status :
        EndpointRow Json → Option Text → String → PolicyDecision → Db Json (Unit {0})
    change_status row new_ip new_status decision = do
      u ← set_status platform row.id new_status
      v ← log_decision row new_status decision
      o ← open_session row new_status decision
      publish_if_known platform row.mac_address new_ip new_status decision

    -- "denied" or "quarantined".
    abbrev pub is_restricted : String → Bool
    is_restricted status = str_eq status "denied" || str_eq status "quarantined"

    -- The step 4.
    unfoldable pub apply_decision :
        EndpointRow Json → Option Text → Bool → PolicyDecision → Bool → Db Json (Unit {0})
    unfolding change_status
    apply_decision row new_ip ip_changed decision authenticated =
        let new_status = decision_to_status decision in
        if not authenticated && not (str_eq row.status new_status)
        then change_status row new_ip new_status decision
        else when (ip_changed && is_restricted row.status)
            (publish_if_known platform row.mac_address new_ip row.status decision)

    -- The steps 3 and 4, under the policies that were loaded.
    unfoldable pub apply_policies :
        EndpointRow Json → Option Text → Bool → List PolicyRule → Db Json (Unit {0})
    unfolding already_authenticated apply_decision
    apply_policies row new_ip ip_changed rules = do
      decision ← evaluate_rules platform rules (context_of row)
      authenticated ← already_authenticated row
      apply_decision row new_ip ip_changed decision authenticated

    -- The steps behind the upsert.
    unfoldable pub after_upsert :
        EndpointDetectedEvent → Option Text → EndpointRow Json → Db Json (Unit {0})
    unfolding apply_policies strip_cidr
    after_upsert event old_ip row = do
      let new_ip = map_some strip_cidr row.ip_address
      let ip_changed = is_some new_ip && not (option_text_eq old_ip new_ip)
      d ← log_detected event row new_ip
      c ← when ip_changed (log_ip_changed row old_ip new_ip)
      rules ← load_rules platform
      if is_empty rules then pure tt else apply_policies row new_ip ip_changed rules

    unfoldable pub process_event : EndpointDetectedEvent → Db Json (Unit {0})
    unfolding after_upsert strip_cidr
    process_event event = do
      old ← attempt (find_by_mac platform event.mac_address)
      let old_ip = map_some strip_cidr (and_then (flatten old) λ e. e.ip_address)
      row ← upsert platform (upsert_of event)
      after_upsert event old_ip row
