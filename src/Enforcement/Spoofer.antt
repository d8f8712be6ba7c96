-- ===== src/Enforcement/Spoofer.antt =====
-- services/enforcement/src/arp_spoof.rs: `Spoofer` over the frames of crates/nac-netproto/src/arp.rs.
-- Whether the channel takes a frame, and what `arp_mac_lookup` finds, are parameters.
pub mod Poison
use lentropy.Common.{
  ℕ, ◌≡◌, refl, Bool, true, false, Option, none, some, List, [], ◌∷◌, ◌++◌, if◌then◌else◌,
}
use lentropy.Outcome.{Outcome, ok, err, panic, timeout, Mac, Ipv4}
use lentropy.NetProto.{NetProtoError}
use lentropy.NetProto.Arp.{craft_arp_reply, craft_gratuitous_arp, broadcast}

-- The fields that the operations use: the own MAC address, and the frames that were sent, in order.
pub record Spoofer : Type 0 where
  pub mac : Mac
  pub sent : List (List ℕ)

pub data SendError : Type 0 where
  craft_failed : NetProtoError → SendError
  send_failed : SendError

abbrev pub Sent : Type 0
Sent = Outcome SendError (Unit {0}) × Spoofer

module _ (takes : List (List ℕ) → List ℕ → Bool) where
  -- Whether a frame is taken may depend on those sent before.
  unfoldable pub send_frame : List ℕ → Spoofer → Sent
  send_frame frame s =
      if takes s.sent frame
      then (ok tt, record s { sent = s.sent ++ (frame ∷ []) })
      else (err send_failed, s)

  -- `let frame = craft(...)?; self.send_frame(&frame)?; rest`
  abbrev sent_then : (Spoofer → Sent) → Sent → Sent
  sent_then rest (ok _, after) = rest after
  sent_then rest (failed, after) = (failed, after)

  abbrev send_then : Outcome NetProtoError (List ℕ) → (Spoofer → Sent) → Spoofer → Sent
  send_then (ok frame) rest s = sent_then rest (send_frame frame s)
  send_then (err e) rest s = (err (craft_failed e), s)
  send_then panic rest s = (panic, s)
  send_then timeout rest s = (timeout, s)

  module _ (arp_mac_lookup : Ipv4 → Option Mac) where
    abbrev pub gateway_mac_of : Ipv4 → Mac
    gateway_mac_of gateway_ip = elim (arp_mac_lookup gateway_ip) [ some m ↦ m | none ↦ broadcast ]

    unfoldable pub quarantine : Ipv4 → Mac → Ipv4 → Spoofer → Sent
    quarantine victim_ip victim_mac gateway_ip s =
        let my_mac = s.mac in
        send_then (craft_arp_reply victim_mac my_mac gateway_ip victim_mac victim_ip)
          (let gw_mac = gateway_mac_of gateway_ip in
            send_then (craft_arp_reply gw_mac my_mac victim_ip gw_mac gateway_ip)
              λ after. (ok tt, after))
          s

    unfoldable pub block : Ipv4 → Mac → Ipv4 → Spoofer → Sent
    block victim_ip victim_mac gateway_ip s =
        let my_mac = s.mac in
        send_then (craft_arp_reply victim_mac my_mac gateway_ip victim_mac victim_ip)
          (let gw_mac = gateway_mac_of gateway_ip in
            send_then (craft_arp_reply gw_mac my_mac victim_ip gw_mac gateway_ip)
              λ after. (ok tt, after))
          s

  unfoldable pub allow : Ipv4 → Mac → Ipv4 → Mac → Spoofer → Sent
  allow victim_ip victim_mac gateway_ip gateway_mac s =
      send_then (craft_arp_reply victim_mac gateway_mac gateway_ip victim_mac victim_ip)
        (send_then (craft_arp_reply gateway_mac victim_mac victim_ip gateway_mac gateway_ip)
          (send_then (craft_gratuitous_arp victim_mac victim_ip victim_ip) λ after. (ok tt, after)))
        s
