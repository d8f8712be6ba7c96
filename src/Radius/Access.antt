-- ===== src/Radius/Access.antt =====
-- services/aaa/src/radius.rs: `handle_access_request` and the two packet handlers. The database
-- lookup, the environment, MD5 and `String::from_utf8_lossy` are parameters; what is written to the
-- audit log and published is returned in order. Failures of these two are dropped by the code.
use lentropy.Common.{
  or_else, unwrap_or, and_then, ℕ, Bool, true, false, ◌&&◌, Option, none, some, List, [], ◌∷◌,
  String, codes, Text, text_eq, ◌==◌, from_utf8, str_eq, if◌then◌else◌,
}
use lentropy.Common.Digits.{parse_unsigned}
use lentropy.Outcome.{Outcome, ok, Octets16}
use lentropy.Store.Endpoint.{EndpointRow}
use lentropy.Radius.{
  RadiusError, RadiusPacket, parse, encode, encode_with_response_auth, get_attr,
  code_access_request, code_accounting_request, code_accounting_response, attr_user_name,
  attr_user_password, attr_calling_station_id,
}
use lentropy.Radius.Attributes.{decrypt_pap_password, normalize_mac, build_response}

-- `repo.find_by_mac(&mac).await`.
pub data Lookup (Json : Type 0) : Type 0 where
  row : EndpointRow Json → Lookup Json
  absent : Lookup Json
  db_error : Lookup Json

pub data Effect : Type 0 where
  -- The action, the endpoint, the MAC address, and the status, VLAN and result if there are any.
  audit_unknown : Text → Effect
  audit_result : Bool → ℕ → Text → String → Option ℕ → Effect
  publish_result : Text → ℕ → Bool → Option ℕ → Effect

pub record Surroundings (Json : Type 0) : Type 0 where
  pub md5 : List ℕ → Octets16
  pub from_utf8_lossy : List ℕ → Text
  -- `std::env::var(name).ok()`.
  pub env : Text → Option Text
  pub find_by_mac : Text → Lookup Json

unfoldable pub text_attr : RadiusPacket → ℕ → Option Text
text_attr pkt attr_type = and_then (get_attr pkt attr_type) from_utf8

unfoldable pub mac_raw : RadiusPacket → Text
mac_raw pkt =
    unwrap_or (or_else (text_attr pkt attr_calling_station_id) (text_attr pkt attr_user_name)) []

module _ {Json : Type 0} (s : Surroundings Json) where
  -- A VLAN number from the environment.
  abbrev pub env_vlan : Text → Option ℕ
  env_vlan name = and_then (s.env name) (parse_unsigned 65536)

  unfoldable pub pap_authenticated : RadiusPacket → List ℕ → Bool
  unfolding text_eq
  pap_authenticated pkt secret =
      let username = unwrap_or (text_attr pkt attr_user_name) [] in
      elim (get_attr pkt attr_user_password) [
        | none ↦ false
        | some enc_pw ↦
            let pw = decrypt_pap_password s.md5 enc_pw secret pkt.authenticator in
            let admin_pass = unwrap_or (s.env (codes "RADIUS_ADMIN_PASS")) (codes "changeme") in
            let admin_user = unwrap_or (s.env (codes "RADIUS_ADMIN_USER")) (codes "admin") in
            text_eq username admin_user && text_eq (s.from_utf8_lossy pw) admin_pass
      ]

  -- Step 3: the decision by the endpoint's status.
  unfoldable pub decide_status : String → Bool × Option ℕ × Text
  decide_status status =
      if str_eq status "allowed"
      then (true, env_vlan (codes "RADIUS_ALLOW_VLAN"), codes "Access granted")
      else if str_eq status "quarantined"
      then (
        true,
        some (unwrap_or (env_vlan (codes "RADIUS_QUARANTINE_VLAN")) 99),
        codes "Quarantine VLAN assigned",
      )
      else (false, none, codes "Access denied")

  -- Steps 2 to 5, on what the lookup gave.
  unfoldable pub answer_lookup : RadiusPacket → Text → Lookup Json → RadiusPacket × List Effect
  unfolding decide_status
  answer_lookup pkt mac (row ep) =
      let (accept, vlan, msg) = decide_status ep.status in
      (
        build_response pkt accept vlan msg,
        audit_result accept ep.id mac ep.status vlan ∷ publish_result mac ep.id accept vlan ∷ [],
      )
  answer_lookup pkt mac absent = (
    build_response pkt false (env_vlan (codes "RADIUS_UNKNOWN_VLAN")) (codes "Unknown endpoint"),
    audit_unknown mac ∷ [],
  )
  answer_lookup pkt mac db_error = (build_response pkt false none (codes "Internal error"), [])

  abbrev answer_mac : RadiusPacket → List ℕ → Option Text → RadiusPacket × List Effect
  answer_mac pkt secret none =
      (build_response pkt (pap_authenticated pkt secret) none (codes "PAP authentication"), [])
  answer_mac pkt secret (some mac) = answer_lookup pkt mac (s.find_by_mac mac)

  unfoldable pub handle_access_request : RadiusPacket → List ℕ → RadiusPacket × List Effect
  handle_access_request pkt secret = answer_mac pkt secret (normalize_mac (mac_raw pkt))

  abbrev pub answer_parsed :
      Outcome RadiusError RadiusPacket → List ℕ → Option (List ℕ) × List Effect
  answer_parsed (ok pkt) secret =
      if pkt.code == code_access_request
      then (let (response, effects) = handle_access_request pkt secret in
          (some (encode_with_response_auth s.md5 response pkt.authenticator secret), effects))
      else (none, [])
  answer_parsed _ secret = (none, [])

  -- The datagram that is sent back, if one is.
  unfoldable pub handle_auth_packet : List ℕ → List ℕ → Option (List ℕ) × List Effect
  handle_auth_packet buf secret = answer_parsed (parse buf) secret

abbrev acct_response : RadiusPacket → RadiusPacket
acct_response pkt = record {
  code = code_accounting_response;
  identifier = pkt.identifier;
  authenticator = pkt.authenticator;
  attributes = [];
}

abbrev answer_acct : Outcome RadiusError RadiusPacket → Option (List ℕ)
answer_acct (ok pkt) =
    if pkt.code == code_accounting_request then some (encode (acct_response pkt)) else none
answer_acct _ = none

unfoldable pub handle_acct_packet : List ℕ → Option (List ℕ)
handle_acct_packet buf = answer_acct (parse buf)
