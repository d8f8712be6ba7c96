-- ===== src/Enforcement/Spoofer/Poison.antt =====
-- What the frames that services/enforcement/src/arp_spoof.rs sends tell their receivers, as the
-- parser of crates/nac-netproto/src/arp.rs reads them.
use lentropy.Common.{ℕ, ◌≡◌, refl, Bool, true, Option, List, [], ◌∷◌, map, take, drop, none, some}
use lentropy.Outcome.{Outcome, ok, Mac, Ipv4, mac_bytes, index, slice, bail_if}
use lentropy.NetProto.{NetProtoError}
use lentropy.NetProto.Arp.{ArpEntry, parse_arp, craft_arp_reply, craft_gratuitous_arp}
use lentropy.Enforcement.Spoofer.{Spoofer, gateway_mac_of, send_frame, quarantine, block, allow}

-- A channel that takes every frame.
abbrev pub always : List (List ℕ) → List ℕ → Bool
always _ _ = true

-- What a frame says and to whom: the destination of the Ethernet header, the target hardware address
-- of the ARP packet, and what the parser reads.
abbrev pub heard : List ℕ → List ℕ × List ℕ × Outcome NetProtoError ArpEntry
heard frame = (take 6 frame, take 6 (drop 32 frame), parse_arp frame)

-- A reply by Ethernet destination and target hardware address.
abbrev pub told : Mac → Mac → Mac → Ipv4 → Ipv4 → List ℕ × List ℕ × Outcome NetProtoError ArpEntry
told destination target sender sender_ip target_ip = (
  mac_bytes destination,
  mac_bytes target,
  ok (record {
    sender_mac = sender;
    sender_ip = sender_ip;
    target_ip = target_ip;
    is_reply = true;
  }),
)

-- A reply to one receiver.
abbrev pub told_to : Mac → Mac → Ipv4 → Ipv4 → List ℕ × List ℕ × Outcome NetProtoError ArpEntry
told_to receiver = told receiver receiver

abbrev pub nobody : Mac
nobody = (0, 0, 0, 0, 0, 0)

abbrev pub everyone : Mac
everyone = (255, 255, 255, 255, 255, 255)

abbrev pub found_or_all : Option Mac → Mac
found_or_all none = everyone
found_or_all (some m) = m

gateway_lem :
    (lookup : Ipv4 → Option Mac) (ip : Ipv4) (found : Option Mac)
    → lookup ip ≡ found
    → found_or_all found ≡ gateway_mac_of always lookup ip
gateway_lem lookup ip none e = rw (e, gateway_mac_of) refl
gateway_lem lookup ip (some m) e = rw (e, gateway_mac_of) refl

-- Over a channel that takes every frame, quarantining and blocking send the same two replies: to the
-- victim's MAC address, that the gateway's IP address is at this machine, and to the gateway's MAC
-- address, or to all if it is not found, that the victim's IP address is at this machine. The
-- receiver is named in the Ethernet header and in the ARP packet.
pub quarantine-poisons :
    (lookup : Ipv4 → Option Mac) (victim_ip : Ipv4) (victim_mac : Mac) (gateway_ip : Ipv4)
    (mac : Mac)
    → let start : Spoofer = record { mac = mac; sent = [] } in
      let frames =
        told_to victim_mac mac gateway_ip victim_ip
        ∷ told_to (found_or_all (lookup gateway_ip)) mac victim_ip gateway_ip
        ∷ [] in
      let (quarantined, after) = quarantine always lookup victim_ip victim_mac gateway_ip start in
      let (blocked, after') = block always lookup victim_ip victim_mac gateway_ip start in
      (quarantined ≡ ok tt)
      × (map heard after.sent ≡ frames)
      × (blocked ≡ ok tt)
      × (map heard after'.sent ≡ frames)
unfolding quarantine block send_frame craft_arp_reply parse_arp index slice bail_if
quarantine-poisons lookup victim_ip victim_mac gateway_ip mac =
    rw (gateway_lem lookup gateway_ip (lookup gateway_ip) refl) (refl, refl, refl, refl)

-- Over a channel that takes every frame, allowing sends three frames: a reply to the victim's MAC
-- address, that the gateway's IP address is at the gateway's MAC address, a reply to the gateway's,
-- that the victim's IP address is at the victim's, and one to the Ethernet address of all, with no
-- target hardware address, that the victim's IP address is at the victim's MAC address.
pub allow-restores :
    (victim_ip : Ipv4) (victim_mac : Mac) (gateway_ip : Ipv4) (gateway_mac mac : Mac)
    → let (result, after) =
        allow always victim_ip victim_mac gateway_ip gateway_mac
          (record { mac = mac; sent = [] }) in
      (result ≡ ok tt)
      × (map heard after.sent
          ≡ told_to victim_mac gateway_mac gateway_ip victim_ip
            ∷ told_to gateway_mac victim_mac victim_ip gateway_ip
            ∷ told everyone nobody victim_mac victim_ip victim_ip
            ∷ [])
unfolding allow send_frame craft_arp_reply craft_gratuitous_arp parse_arp index slice bail_if
allow-restores victim_ip victim_mac gateway_ip gateway_mac mac = (refl, refl)
