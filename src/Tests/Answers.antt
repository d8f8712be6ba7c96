-- ===== src/Tests/Answers.antt =====
-- RADIUS packets and the answers of services/aaa.
use native.Mathlib.Omega.{arith}
use lentropy.Common.{
  ℕ, ◌≡◌, ◌≢◌, refl, ◌⊎◌, ◌↔◌, Bool, true, false, ◌||◌, ◌==◌, List, [], ◌∷◌, ◌++◌, some, none,
  Option, Text, codes, String, str_eq, All, length, unwrap_or,
}
use lentropy.Common.Int.{pos}
use lentropy.Common.Digits.{decimal}
use lentropy.Outcome.{Outcome, ok, Octets16, Returns}
use lentropy.Store.Endpoint.{EndpointRow}
use lentropy.Radius.{
  RadiusPacket, RadiusAttribute, parse, encode, encode_with_response_auth, get_attr,
  code_access_request, code_access_accept, code_access_reject, attr_user_name, attr_reply_message,
  attr_tunnel_private_group_id,
}
use lentropy.Radius.Parse.{parse-Returns}
use lentropy.Radius.RoundTrip.{FitsPacket, parse-encode, parse-encode_with_response_auth}
use lentropy.Radius.Attributes.{normalize_mac}
use lentropy.Radius.Access.{
  Surroundings, row, absent, Effect, audit_result, publish_result, mac_raw, env_vlan,
  handle_access_request, handle_auth_packet, answer_lookup,
}
use lentropy.Radius.Decisions.{
  access_by_status, quarantine_vlan, reject_without_vlan, reply, effects,
}
use lentropy.Radius.Answers.{auth_answered}

abbrev Json : Type 0
Json = Unit {0}

abbrev zeros : Octets16
zeros = (0, 0, 0, 0, 0, 0, 0, 0, 0, 0, 0, 0, 0, 0, 0, 0)

abbrev asks : RadiusPacket
asks = record {
  code = code_access_request;
  identifier = 7;
  authenticator = zeros;
  attributes = record { attr_type = attr_user_name; value = codes "02-00-00-00-00-0A" } ∷ [];
}

abbrev mac : Text
mac = codes "02:00:00:00:00:0a"

abbrev device : String → EndpointRow Json
device status = record {
  id = 1;
  mac_address = mac;
  ip_address = none;
  hostname = none;
  os_family = none;
  os_version = none;
  device_type = none;
  vendor = none;
  vlan_id = none;
  switch_port = none;
  interface = none;
  username = none;
  status = status;
  first_seen = 0;
  last_seen = 0;
  is_compliant = none;
  last_posture_check = none;
  assigned_policy_id = none;
  policy_exempt = false;
  posture_sw = none;
  posture_missing_patches = pos 0;
  posture_usb_enabled = none;
  posture_bluetooth = none;
  posture_folder_sharing = none;
  posture_os_version = none;
  agent_id = none;
}

abbrev knows : String → Surroundings Json
knows status = record {
  md5 = λ bytes. zeros;
  from_utf8_lossy = λ t. t;
  env = λ name. none;
  find_by_mac = λ mac. row (device status);
}

asks-FitsPacket : FitsPacket asks
unfolding lentropy.Radius.encode_attributes
asks-FitsPacket = (omega arith, (omega arith, tt))

parse-Returns_example : Returns (parse (1 ∷ 7 ∷ 0 ∷ 2 ∷ []))
parse-Returns_example = parse-Returns (1 ∷ 7 ∷ 0 ∷ 2 ∷ [])

parse-encode_example : parse (encode asks ++ 0 ∷ []) ≡ ok asks
parse-encode_example = parse-encode asks (0 ∷ []) asks-FitsPacket

parse-encode_with_response_auth_example :
    parse (encode_with_response_auth (λ bytes. zeros) asks zeros (codes "secret")) ≡ ok asks
parse-encode_with_response_auth_example =
    parse-encode_with_response_auth (λ bytes. zeros) asks zeros (codes "secret") asks-FitsPacket

named : normalize_mac (mac_raw asks) ≡ some mac
unfolding normalize_mac mac_raw get_attr lentropy.Common.Digits.hex_digits
    lentropy.Radius.Access.text_attr lentropy.Common.from_utf8 lentropy.Common.ascii_lower
named = refl

access_by_status_example :
    let code = (reply (knows "allowed") asks []).code in
    ((code ≡ code_access_accept)
      ↔ ((str_eq "allowed" "allowed" || str_eq "allowed" "quarantined") ≡ true))
    × ((vlan : Option ℕ) × (effects (knows "allowed") asks []
          ≡ audit_result (code == code_access_accept) 1 mac "allowed" vlan
            ∷ publish_result mac 1 (code == code_access_accept) vlan
            ∷ []))
access_by_status_example =
    access_by_status (knows "allowed") asks [] mac (device "allowed") named refl

quarantine_vlan_example :
    ((reply (knows "quarantined") asks []).code ≡ code_access_accept)
    × (get_attr (reply (knows "quarantined") asks []) attr_tunnel_private_group_id
        ≡ some (
            0
            ∷ decimal
                (unwrap_or (env_vlan (knows "quarantined") (codes "RADIUS_QUARANTINE_VLAN")) 99)))
quarantine_vlan_example =
    quarantine_vlan (knows "quarantined") asks [] mac (device "quarantined") named refl refl refl

rejected : (reply (knows "denied") asks []).code ≡ code_access_reject
unfolding handle_access_request normalize_mac mac_raw get_attr answer_lookup
    lentropy.Common.Digits.hex_digits lentropy.Radius.Access.text_attr lentropy.Common.from_utf8
    lentropy.Radius.Attributes.build_response
rejected = refl

reject_without_vlan_example :
    (length (reply (knows "denied") asks []).attributes ≡ 1)
    × All (λ a. a.attr_type ≡ attr_reply_message) (reply (knows "denied") asks []).attributes
reject_without_vlan_example = reject_without_vlan (knows "denied") asks [] rejected

asks-parse : parse (encode asks) ≡ ok asks
unfolding encode lentropy.Radius.encode_attributes
asks-parse = parse-encode asks [] asks-FitsPacket

auth_answered_example :
    (sent : List ℕ) × (q : RadiusPacket) × ((handle_auth_packet
        (knows "allowed")
        (encode asks)
        []).0
      ≡ some sent)
    × (parse sent ≡ ok q)
    × (q.identifier ≡ 7)
    × ((q.code ≡ code_access_accept) ⊎ (q.code ≡ code_access_reject))
auth_answered_example = auth_answered (knows "allowed") (encode asks) [] asks asks-parse refl

no_packet : (pkt : RadiusPacket) → parse (1 ∷ []) ≡ ok pkt → pkt.code ≢ code_access_request
unfolding parse lentropy.Outcome.bail_if
no_packet pkt e = absurd cc
