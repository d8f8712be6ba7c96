-- ===== src/Radius/Decisions.antt =====
-- What the access handler of services/aaa/src/radius.rs answers.
use lentropy.Common.{
  unwrap_or, ℕ, ◌≡◌, refl, ◌↔◌, inl, inr, Bool, true, false, ◌||◌, Option, some, List, [], ◌∷◌, map,
  Bool-cases, length, All, String, codes, Text, ascii_lower, str_eq, ◌==◌, arith,
}
use lentropy.Common.Digits.{
  hex_digits, colon_pairs, decimal, hex_digits-IsHex, map-lower-IsHex, map-lower-lower,
  hex_digits-colon_pairs,
}
use lentropy.Store.Endpoint.{EndpointRow}
use lentropy.Radius.{
  RadiusPacket, get_attr, code_access_accept, code_access_reject, attr_reply_message,
  attr_tunnel_private_group_id,
}
use lentropy.Radius.Attributes.{normalize_mac, build_response}
use lentropy.Radius.Access.{
  Surroundings, Effect, row, audit_result, publish_result, env_vlan, mac_raw, decide_status,
  answer_lookup, handle_access_request,
}

-- Normalising a normalised address changes nothing.
pub normalize_mac_idem :
    (raw mac : Text) → normalize_mac raw ≡ some mac → normalize_mac mac ≡ some mac
unfolding normalize_mac
normalize_mac_idem raw mac h = elim (Bool-cases (length (map ascii_lower (hex_digits raw)) == 12)) [
  | inr short ↦ absurd (ground arith)
  | inl twelve ↦
      let hex = map ascii_lower (hex_digits raw) in
      let same : colon_pairs hex ≡ mac = ground arith in
      rw (← same) (
        rw
          (
            hex_digits-colon_pairs hex (map-lower-IsHex _ (hex_digits-IsHex raw)),
            map-lower-lower (hex_digits raw),
            twelve,
          )
          refl)
]

module _ {Json : Type 0} (s : Surroundings Json) (pkt : RadiusPacket) where
  -- What a device gets whose status is `status`.
  abbrev decided : String → Bool × Option ℕ × Text
  decided = decide_status s

  answer_known :
      (mac : Text) (ep : EndpointRow Json)
      → (((answer_lookup s pkt mac (row ep)).0.code ≡ code_access_accept)
          ↔ ((str_eq ep.status "allowed" || str_eq ep.status "quarantined") ≡ true))
        × ((answer_lookup s pkt mac (row ep)).1
            ≡ audit_result
                ((answer_lookup s pkt mac (row ep)).0.code == code_access_accept)
                ep.id
                mac
                ep.status
                (decided ep.status).1
              ∷ publish_result mac ep.id
                  ((answer_lookup s pkt mac (row ep)).0.code == code_access_accept)
                  (decided ep.status).1
              ∷ [])
  unfolding answer_lookup build_response
  answer_known mac ep = ground arith

module _ {Json : Type 0} (s : Surroundings Json) (pkt : RadiusPacket) (secret : List ℕ) where
  abbrev pub reply : RadiusPacket
  reply = (handle_access_request s pkt secret).0

  abbrev pub effects : List Effect
  effects = (handle_access_request s pkt secret).1

  handle_known :
      (mac : Text) (ep : EndpointRow Json)
      → normalize_mac (mac_raw pkt) ≡ some mac
      → s.find_by_mac mac ≡ row ep
      → handle_access_request s pkt secret ≡ answer_lookup s pkt mac (row ep)
  unfolding handle_access_request
  handle_known mac ep named found = rw (named, found)

  -- If the request names a MAC address whose device the database knows, the reply accepts it
  -- exactly if the device's status is "allowed" or "quarantined", and what is done beside it is one
  -- audit record and one published event, both with the reply's decision and one VLAN.
  pub access_by_status :
      (mac : Text) (ep : EndpointRow Json)
      → normalize_mac (mac_raw pkt) ≡ some mac
      → s.find_by_mac mac ≡ row ep
      → ((reply.code ≡ code_access_accept)
          ↔ ((str_eq ep.status "allowed" || str_eq ep.status "quarantined") ≡ true))
        × ((vlan : Option ℕ) × (effects
              ≡ audit_result (reply.code == code_access_accept) ep.id mac ep.status vlan
                ∷ publish_result mac ep.id (reply.code == code_access_accept) vlan
                ∷ []))
  access_by_status mac ep named found =
      rw (handle_known mac ep named found, reply, effects)
        (let (code, logged) = answer_known s pkt mac ep in
          (code, ((decide_status s ep.status).1, logged)))

  -- If the request names a MAC address whose device the database knows as quarantined, the reply
  -- accepts it into a VLAN, that of the environment or 99: the attribute's value is a zero byte and
  -- the decimal digits.
  pub quarantine_vlan :
      (mac : Text) (ep : EndpointRow Json)
      → normalize_mac (mac_raw pkt) ≡ some mac
      → s.find_by_mac mac ≡ row ep
      → str_eq ep.status "allowed" ≡ false
      → str_eq ep.status "quarantined" ≡ true
      → (reply.code ≡ code_access_accept)
        × (get_attr reply attr_tunnel_private_group_id
            ≡ some (0 ∷ decimal (unwrap_or (env_vlan s (codes "RADIUS_QUARANTINE_VLAN")) 99)))
  quarantine_vlan mac ep named found e q =
      rw (handle_known mac ep named found, reply)
        (unfold answer_lookup build_response get_attr in rw (e, q) (refl, refl))

  -- A reply that rejects carries one attribute, the reply message: no VLAN, also not the one that
  -- the environment names for unknown devices.
  pub reject_without_vlan :
      reply.code ≡ code_access_reject
      → (length reply.attributes ≡ 1) × All (λ a. a.attr_type ≡ attr_reply_message) reply.attributes
  unfolding handle_access_request answer_lookup build_response
  reject_without_vlan h = ground arith
