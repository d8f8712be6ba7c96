-- ===== src/Radius/Answers.antt =====
-- The datagrams that the RADIUS handlers of services/aaa/src/radius.rs send, read by the parser.
use lentropy.Common.{
  unwrap_or, and_then, ℕ, ◌≤◌, ◌<◌, ◌≡◌, refl, ◌⊎◌, inl, inr, Bool, true, false, Option, none, some,
  List, [], length, length-append, All, String, Text, codes, arith, Option-cases, Bool-cases, ◌≢◌,
  if◌then◌else◌, str_eq, ==_iff,
}
use lentropy.Common.Digits.{decimal, decimal-length, parse_unsigned, parse_unsigned-lt}
use lentropy.Outcome.{Outcome, ok, err, panic, timeout}
use lentropy.Radius.{
  RadiusError, RadiusPacket, parse, encode_attributes, encode_with_response_auth,
  code_access_request, code_access_accept, code_access_reject,
}
use lentropy.Radius.RoundTrip.{Fits, FitsPacket, parse-encode_with_response_auth}
use lentropy.Radius.Attributes.{normalize_mac, vlan_attributes, build_response}
use lentropy.Radius.Access.{
  Surroundings, Lookup, row, absent, db_error, env_vlan, mac_raw, pap_authenticated, decide_status,
  answer_lookup, handle_access_request, handle_auth_packet, answer_parsed,
}

-- A VLAN number that is assigned is a `u16`.
abbrev IsVlan : Option ℕ → Type 0
IsVlan none = Unit {0}
IsVlan (some v) = v < 65536

vlan_attributes-Fits :
    (v : ℕ)
    → v < 65536
    → All Fits (vlan_attributes v) × (length (encode_attributes (vlan_attributes v)) ≤ 22)
unfolding vlan_attributes encode_attributes
vlan_attributes-Fits v h = (
  omega (arith, decimal-length v h),
  omega (arith, decimal-length v h, length-append (decimal v) []),
)

build_response-Fits :
    (req : RadiusPacket) (accept : Bool) (vlan : Option ℕ) (message : Text)
    → length message ≤ 200
    → IsVlan vlan
    → FitsPacket (build_response req accept vlan message)
unfolding build_response encode_attributes
build_response-Fits req true none message h v =
    (omega (arith, length-append message []), omega arith)
build_response-Fits req false vlan message h v =
    (omega (arith, length-append message []), omega arith)
build_response-Fits req true (some w) message h v =
    let (fits, short) = vlan_attributes-Fits w v in
    (
      omega (arith, short, length-append message (encode_attributes (vlan_attributes w))),
      (omega arith, fits),
    )

module _ {Json : Type 0} (s : Surroundings Json) where
  env_vlan-IsVlan : (name : Text) → IsVlan (env_vlan s name)
  env_vlan-IsVlan name = from_text (s.env name)
    where
      from_parsed : (t : Text) (o : Option ℕ) → parse_unsigned 65536 t ≡ o → IsVlan o
      from_parsed t none e = tt
      from_parsed t (some n) e = parse_unsigned-lt 65536 n t e

      from_text : (o : Option Text) → IsVlan (and_then o (parse_unsigned 65536))
      from_text none = tt
      from_text (some t) = from_parsed t (parse_unsigned 65536 t) refl

  unwrap_or-IsVlan : (o : Option ℕ) → IsVlan o → unwrap_or o 99 < 65536
  unwrap_or-IsVlan none h = omega arith
  unwrap_or-IsVlan (some v) h = h

  module _ (pkt : RadiusPacket) where
    -- An answer that fits a packet, for the request, and with one of the two codes.
    record IsAnswer (q : RadiusPacket) : Type 0 where
      fits : FitsPacket q
      same : q.identifier ≡ pkt.identifier
      verdict : (q.code ≡ code_access_accept) ⊎ (q.code ≡ code_access_reject)

    build_response-IsAnswer :
        (accept : Bool) (vlan : Option ℕ) (message : Text)
        → length message ≤ 200
        → IsVlan vlan
        → IsAnswer (build_response pkt accept vlan message)
    build_response-IsAnswer accept vlan message h v = record {
      fits = build_response-Fits pkt accept vlan message h v;
      same = unfold build_response in refl;
      verdict = unfold build_response in coded accept;
    }
      where
        coded :
            (b : Bool)
            → ((if b then code_access_accept else code_access_reject) ≡ code_access_accept)
              ⊎ ((if b then code_access_accept else code_access_reject) ≡ code_access_reject)
        coded true = inl refl
        coded false = inr refl

    decide_status-bounds :
        (status : String)
        → (length (decide_status s status).2 ≤ 200) × IsVlan (decide_status s status).1
    unfolding decide_status
    decide_status-bounds status = elim (Bool-cases (str_eq status "allowed")) [
      | inl e ↦ rw e (omega arith, env_vlan-IsVlan (codes "RADIUS_ALLOW_VLAN"))
      | inr e ↦ rw e (elim (Bool-cases (str_eq status "quarantined")) [
        | inl q ↦ rw q (
          omega arith,
          unwrap_or-IsVlan (env_vlan s (codes "RADIUS_QUARANTINE_VLAN"))
              (env_vlan-IsVlan (codes "RADIUS_QUARANTINE_VLAN")),
        )
        | inr d ↦ rw d (omega arith, tt)
      ])
    ]

    answer_lookup-IsAnswer :
        (mac : Text) (found : Lookup Json) → IsAnswer (answer_lookup s pkt mac found).0
    unfolding answer_lookup
    answer_lookup-IsAnswer mac (row ep) =
        let (short, vlan) = decide_status-bounds ep.status in
        build_response-IsAnswer _ _ _ short vlan
    answer_lookup-IsAnswer mac absent =
        build_response-IsAnswer false _ _ (omega arith)
          (env_vlan-IsVlan (codes "RADIUS_UNKNOWN_VLAN"))
    answer_lookup-IsAnswer mac db_error = build_response-IsAnswer false none _ (omega arith) tt

    handle-IsAnswer : (secret : List ℕ) → IsAnswer (handle_access_request s pkt secret).0
    unfolding handle_access_request
    handle-IsAnswer secret = elim (Option-cases (normalize_mac (mac_raw pkt))) [
      | inl e ↦
          rw e (build_response-IsAnswer (pap_authenticated s pkt secret) none _ (omega arith) tt)
      | inr (mac, e) ↦ rw e (answer_lookup-IsAnswer mac (s.find_by_mac mac))
    ]

  -- A datagram that parses as an Access-Request is answered by one datagram, which the parser reads
  -- as an Access-Accept or Access-Reject with the identifier of the request.
  pub auth_answered :
      (buf secret : List ℕ) (pkt : RadiusPacket)
      → parse buf ≡ ok pkt
      → pkt.code ≡ code_access_request
      → (sent : List ℕ) × (q : RadiusPacket) × ((handle_auth_packet s buf secret).0 ≡ some sent)
        × (parse sent ≡ ok q)
        × (q.identifier ≡ pkt.identifier)
        × ((q.code ≡ code_access_accept) ⊎ (q.code ≡ code_access_reject))
  unfolding handle_auth_packet
  auth_answered buf secret pkt parsed request =
      let a = handle-IsAnswer pkt secret in
      let response = (handle_access_request s pkt secret).0 in
      (
        encode_with_response_auth s.md5 response pkt.authenticator secret,
        _,
        rw (parsed, (==_iff pkt.code code_access_request).1 request),
        parse-encode_with_response_auth s.md5 response pkt.authenticator secret a.fits,
        a.same,
        a.verdict,
      )

  -- A datagram that parses as no Access-Request is dropped, without effects.
  pub auth_dropped :
      (buf secret : List ℕ)
      → ((pkt : RadiusPacket) → parse buf ≡ ok pkt → pkt.code ≢ code_access_request)
      → handle_auth_packet s buf secret ≡ (none, [])
  unfolding handle_auth_packet
  auth_dropped buf secret other = split (parse buf) refl
    where
      split :
          (r : Outcome RadiusError RadiusPacket)
          → parse buf ≡ r
          → answer_parsed s r secret ≡ (none, [])
      split (ok pkt) e = let h = other pkt e in ground arith
      split (err x) e = refl
      split panic e = refl
      split timeout e = refl
