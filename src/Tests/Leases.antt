-- ===== src/Tests/Leases.antt =====
-- The address pool and the server of services/dhcp.
use native.Mathlib.Omega.{arith}
use lentropy.Common.{ℕ, ◌≡◌, ◌≢◌, ◌≤◌, refl, List, [], ◌∷◌, some, none, inl}
use lentropy.DhcpService.Pool.{LeasePool, new, get_lease, get_or_allocate, allocate}
use lentropy.DhcpService.Pool.Allocation.{ask_all, lease_is_kept}
use lentropy.DhcpService.Pool.Bounds.{IsValid, get_or_allocate-IsValid, leases_differ, new-IsValid}
use lentropy.DhcpService.Server.{
  DhcpServer, Message, discover, offer, ack, handle_discover, handle_request, format_mac,
}
use lentropy.DhcpService.Server.Offers.{offer_then_ack, normalize_mac-format_mac}
use lentropy.Radius.Attributes.{normalize_mac}

abbrev pool : LeasePool
pool = new 100 102 0xffffff00 1

abbrev first : List ℕ
first = 2 ∷ 0 ∷ 0 ∷ 0 ∷ 0 ∷ 1 ∷ []

abbrev second : List ℕ
second = 2 ∷ 0 ∷ 0 ∷ 0 ∷ 0 ∷ 2 ∷ []

abbrev server : DhcpServer
server = record { pool = pool; server_ip = 1 }

abbrev asks : Message
asks = record {
  msg_type = some discover;
  htype = 1;
  xid = 7;
  flags = 0;
  giaddr = 0;
  chaddr = first;
  requested_ip = none;
}

pool-IsValid : IsValid pool.inner
pool-IsValid = new-IsValid 100 102 0xffffff00 1 (omega arith) (omega arith)

lease_is_kept_example :
    (get_or_allocate (ask_all (get_or_allocate pool first).1 (second ∷ second ∷ [])) first).0
    ≡ (get_or_allocate pool first).0
lease_is_kept_example = lease_is_kept pool first (second ∷ second ∷ [])

get_or_allocate-IsValid_example :
    (pool.start ≤ (get_or_allocate pool first).0)
    × ((get_or_allocate pool first).0 ≤ pool.end)
    × IsValid (get_or_allocate pool first).1.inner
get_or_allocate-IsValid_example = get_or_allocate-IsValid pool first pool-IsValid

abbrev first_ip : ℕ
first_ip = 100

abbrev second_ip : ℕ
second_ip = 101

leases_differ_example : first_ip ≢ second_ip
unfolding new get_or_allocate get_lease allocate
leases_differ_example =
    leases_differ 100 102 0xffffff00 1 (first ∷ second ∷ []) first second first_ip second_ip
      (omega arith) (omega arith) (omega arith) (ground arith) refl refl

offer_then_ack_example :
    let (offered, after) = handle_discover server asks in
    let later = record after { pool = ask_all after.pool (second ∷ []) } in
    let answer = (handle_request later asks).0 in
    (offered.message_type ≡ offer)
    × (offered.chaddr ≡ asks.chaddr)
    × (offered.xid ≡ asks.xid)
    × (server.pool.start ≤ offered.yiaddr)
    × (offered.yiaddr ≤ server.pool.end)
    × (answer.message_type ≡ ack)
    × (answer.xid ≡ asks.xid)
    × (answer.chaddr ≡ asks.chaddr)
    × (answer.yiaddr ≡ offered.yiaddr)
    × (answer.server_identifier ≡ offered.server_identifier)
    × (answer.address_lease_time ≡ offered.address_lease_time)
offer_then_ack_example = offer_then_ack server asks asks (second ∷ []) pool-IsValid refl (inl refl)

normalize_mac-format_mac_example : normalize_mac (format_mac first) ≡ some (format_mac first)
normalize_mac-format_mac_example =
    normalize_mac-format_mac first (omega arith)
      (omega arith, (omega arith, (omega arith, (omega arith, (omega arith, (omega arith, tt))))))
