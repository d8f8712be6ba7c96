-- ===== src/PolicyManager/AuthResponse.antt =====
-- services/policy-manager/src/session_handler.rs: the handler of login results.
use lentropy.Common.{
  ℕ, Bool, false, not, Option, none, some, List, [], ◌∷◌, codes, Text, text_eq, String, str_eq,
  if◌then◌else◌, find, unwrap_or,
}
use lentropy.Outcome.{ok}
use lentropy.Exec.{pure, when, ◌>>=◌}
use lentropy.PolicyEngine.{PolicyDecision, PolicyContext, PolicyRule}
use lentropy.Store.Endpoint.{EndpointRow}
use lentropy.Store.Policy.{decision_to_status}
use lentropy.Store.Posture.{is_empty}
use lentropy.Store.Database.{Platform, Db, SessionRow, name, text, texts, value_of, statement}
use lentropy.Store.Endpoints.{
  UpsertEndpoint, upsert, find_by_mac, find_by_id, set_status, set_username,
}
use lentropy.Store.Sessions.{find_active_by_endpoint, transition, terminate}
use lentropy.Store.Sessions
use lentropy.Store.Logs.{log}
use lentropy.Store.Policies.{load_rules}
use lentropy.PolicyManager.Commands.{non_empty, evaluate_rules, publish_after_auth}

pub record AuthResponse : Type 0 where
  pub session_id : Option ℕ
  pub endpoint_id : Option ℕ
  pub mac_address : Text
  pub ip_address : Text
  pub success : Bool
  pub username : Option Text
  pub groups : List Text
  pub reason : Option Text

abbrev pub new_endpoint : AuthResponse → UpsertEndpoint
new_endpoint resp = record {
  mac_address = resp.mac_address;
  ip_address = non_empty resp.ip_address;
  hostname = none;
  os_family = none;
  os_version = none;
  device_type = none;
  vendor = none;
  interface = none;
  agent_id = none;
}

module _ {Json : Type 0} (platform : Platform Json) where
  abbrev pub has_host : Text → EndpointRow Json → Bool
  has_host ip r = elim r.ip_address [ none ↦ false | some t ↦ text_eq (platform.host t) ip ]

  -- `WHERE host(ip_address) = $1 LIMIT 1`, the first in the table.
  unfoldable pub find_by_host : Text → Db Json (Option (EndpointRow Json))
  find_by_host ip = statement platform λ n tables. ok (find (has_host ip) tables.endpoints, tables)

  -- The look-up by id, MAC address or IP address; `none` if all are missing, where the handler ends.
  unfoldable pub look_up : AuthResponse → Db Json (Option (EndpointRow Json))
  unfolding find_by_host
  look_up resp = elim resp.endpoint_id [
    | some eid ↦ find_by_id platform eid
    | none ↦ elim (non_empty resp.mac_address) [
      | some mac ↦ find_by_mac platform mac
      | none ↦ elim (non_empty resp.ip_address) [ some ip ↦ find_by_host ip | none ↦ pure none ]
    ]
  ]

  -- A device that is not found is registered, unless its MAC address is missing.
  abbrev pub register_missing :
      AuthResponse → Option (EndpointRow Json) → Db Json (Option (EndpointRow Json))
  register_missing resp (some row) = pure (some row)
  register_missing resp none = elim (non_empty resp.mac_address) [
    | none ↦ pure none
    | some mac ↦ upsert platform (new_endpoint resp) >>= λ row. pure (some row)
  ]

  unfoldable pub resolve : AuthResponse → Db Json (Option (EndpointRow Json))
  unfolding look_up
  resolve resp = look_up resp >>= register_missing resp

  unfoldable pub find_session : AuthResponse → EndpointRow Json → Db Json (Option SessionRow)
  find_session resp endpoint = elim resp.session_id [
    | some sid ↦ Sessions.find_by_id platform sid
    | none ↦ find_active_by_endpoint platform endpoint.id
  ]

  abbrev pub end_found : Option SessionRow → Db Json (Unit {0})
  end_found none = pure tt
  end_found (some s) = terminate platform s.id

  unfoldable pub auth_failed :
      AuthResponse → EndpointRow Json → Option SessionRow → Db Json (Unit {0})
  auth_failed resp endpoint session = do
    t ← end_found session
    log platform "auth_failed" (some endpoint.id) (codes "aaa/captive_portal")
        (("mac", text resp.mac_address) ∷ ("reason", value_of resp.reason) ∷ [])

  abbrev pub context_of : AuthResponse → EndpointRow Json → Text → PolicyContext
  context_of resp endpoint username = record {
    mac_address = endpoint.mac_address;
    ip_address = endpoint.ip_address;
    hostname = endpoint.hostname;
    os_family = endpoint.os_family;
    device_type = endpoint.device_type;
    username = some username;
    groups = resp.groups;
    is_compliant = none;
    switch_port = endpoint.switch_port;
  }

  abbrev pub activate : Option SessionRow → Text → Db Json (Unit {0})
  activate none username = pure tt
  activate (some s) username = transition platform s.id "active" (some username)

  abbrev pub log_success :
      AuthResponse → EndpointRow Json → Text → PolicyDecision → String → Db Json (Unit {0})
  log_success resp endpoint username decision new_status =
      log platform "auth_success" (some endpoint.id) (codes "aaa/captive_portal") (
        ("mac", text endpoint.mac_address)
        ∷ ("username", text username)
        ∷ ("groups", texts resp.groups)
        ∷ ("decision", text (platform.debug decision))
        ∷ ("status", name new_status)
        ∷ [])

  unfoldable pub apply_login :
      AuthResponse → EndpointRow Json → Text → List PolicyRule → Db Json (Unit {0})
  apply_login resp endpoint username rules = do
    decision ← evaluate_rules platform rules (context_of resp endpoint username)
    let new_status = decision_to_status decision
    s ← when (not (str_eq endpoint.status new_status)) (set_status platform endpoint.id new_status)
    p ← publish_after_auth platform endpoint.mac_address endpoint.ip_address new_status decision
    log_success resp endpoint username decision new_status

  unfoldable pub auth_succeeded :
      AuthResponse → EndpointRow Json → Option SessionRow → Db Json (Unit {0})
  unfolding apply_login
  auth_succeeded resp endpoint session = do
    let username = unwrap_or resp.username []
    u ← when (not (is_empty username)) (set_username platform endpoint.id username)
    a ← activate session username
    rules ← load_rules platform
    if is_empty rules then pure tt else apply_login resp endpoint username rules

  unfoldable pub answer_login : AuthResponse → EndpointRow Json → Db Json (Unit {0})
  unfolding find_session auth_failed auth_succeeded
  answer_login resp endpoint = do
    session ← find_session resp endpoint
    if resp.success then auth_succeeded resp endpoint session else auth_failed resp endpoint session

  abbrev pub answer_found : AuthResponse → Option (EndpointRow Json) → Db Json (Unit {0})
  answer_found resp none = pure tt
  answer_found resp (some endpoint) = answer_login resp endpoint

  unfoldable pub process_auth_response : AuthResponse → Db Json (Unit {0})
  unfolding resolve answer_login
  process_auth_response resp = resolve resp >>= answer_found resp
