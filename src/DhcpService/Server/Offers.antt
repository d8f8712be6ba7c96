-- ===== src/DhcpService/Server/Offers.antt =====
-- What the server of services/dhcp/src/server.rs offers and acknowledges.
use lentropy.Common.{
  ℕ, ◌≤◌, ◌<◌, ◌≡◌, refl, none, some, List, All, length, length-take, take, min, ◌==◌, arith, true,
  ◌⊎◌, inl, inr, ==_iff, All-take,
}
use lentropy.Common.Digits.{
  hex_pairs, hex_lower, hex_digits-colon_pairs, hex_pairs-IsHex, map-lower-hex_pairs,
  length-hex_pairs,
}
use lentropy.DhcpService.Pool.Bounds.{IsValid, get_or_allocate-IsValid}
use lentropy.DhcpService.Pool.Allocation.{ask_all, lease_is_kept}
use lentropy.DhcpService.Server.{
  Message, DhcpServer, offer, ack, handle_discover, handle_request, format_mac,
}
use lentropy.Radius.Attributes.{normalize_mac}

-- From a valid pool, the answer to a DISCOVER is an offer with the hardware address and the
-- transaction of the message, of an address of the pool's range. A request of the same hardware
-- address that then names this address, or none, is answered with an acknowledgement of it, with the
-- request's transaction and the offer's server address and lease time, also if other clients have
-- asked for addresses in between.
pub offer_then_ack :
    (server : DhcpServer) (msg again : Message) (others : List (List ℕ))
    → IsValid server.pool.inner
    → again.chaddr ≡ msg.chaddr
    → let (offered, after) = handle_discover server msg in
      let later = record after { pool = ask_all after.pool others } in
      (again.requested_ip ≡ none) ⊎ (again.requested_ip ≡ some offered.yiaddr)
      → let answer = (handle_request later again).0 in
        (offered.message_type ≡ offer)
        × (offered.chaddr ≡ msg.chaddr)
        × (offered.xid ≡ msg.xid)
        × (server.pool.start ≤ offered.yiaddr)
        × (offered.yiaddr ≤ server.pool.end)
        × (answer.message_type ≡ ack)
        × (answer.xid ≡ again.xid)
        × (answer.chaddr ≡ msg.chaddr)
        × (answer.yiaddr ≡ offered.yiaddr)
        × (answer.server_identifier ≡ offered.server_identifier)
        × (answer.address_lease_time ≡ offered.address_lease_time)
unfolding handle_discover handle_request
offer_then_ack server msg again others v same (inl unnamed) =
    let (lo, hi, _) = get_or_allocate-IsValid server.pool msg.chaddr v in
    rw (unnamed, same)
      (
        refl,
        refl,
        refl,
        lo,
        hi,
        refl,
        refl,
        refl,
        lease_is_kept server.pool msg.chaddr others,
        refl,
        refl,
      )
offer_then_ack server msg again others v same (inr named) =
    let (lo, hi, _) = get_or_allocate-IsValid server.pool msg.chaddr v in
    rw (named, same) (refl, refl, refl, lo, hi, refl, refl, refl, refl, refl, refl)

-- The MAC address that a binding event is published with, of a hardware address of six bytes or more,
-- is in the form under which the RADIUS service looks a device up: normalising it changes nothing.
pub normalize_mac-format_mac :
    (chaddr : List ℕ)
    → 6 ≤ length chaddr
    → All (λ b. b < 256) chaddr
    → normalize_mac (format_mac chaddr) ≡ some (format_mac chaddr)
unfolding normalize_mac format_mac
normalize_mac-format_mac chaddr six bytes =
    let key = take (min 6 (length chaddr)) chaddr in
    let small = All-take (λ (b : ℕ). b < 256) (min 6 (length chaddr)) chaddr bytes in
    let twelve : (length (hex_pairs hex_lower key) == 12) ≡ true =
      (==_iff _ 12).1 (
        omega
          (arith, length-hex_pairs hex_lower key, length-take (min 6 (length chaddr)) chaddr)) in
    rw
      (
        hex_digits-colon_pairs (hex_pairs hex_lower key) (hex_pairs-IsHex key small),
        map-lower-hex_pairs key small,
        twelve,
      )
      refl
