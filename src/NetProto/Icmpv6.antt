-- ===== src/NetProto/Icmpv6.antt =====
-- crates/nac-netproto/src/icmpv6.rs: the two parsers of neighbour discovery messages. The loops run
-- as those of the DHCP parsers do.
pub mod Options
use lentropy.Common.{
  ℕ, zero, suc, ◌+◌, ◌*◌, Bool, not, ◌&&◌, ◌||◌, Option, none, some, List, ltb, leb, ◌==◌, length,
  codes, if◌then◌else◌,
}
use lentropy.Outcome.{
  Outcome, ok, timeout, ◌>>=◌, ◌>>◌, bail_if, index, slice, Mac, Ipv6, to_mac, to_octets16,
}
use lentropy.NetProto.{NetProtoError, parse}

pub data Icmpv6Type : Type 0 where
  router_solicitation router_advertisement : Icmpv6Type
  neighbor_solicitation neighbor_advertisement : Icmpv6Type
  other : ℕ → Icmpv6Type

unfoldable pub icmpv6_type : ℕ → Icmpv6Type
icmpv6_type v =
    if v == 133
    then router_solicitation
    else if v == 134
    then router_advertisement
    else if v == 135
    then neighbor_solicitation
    else if v == 136
    then neighbor_advertisement
    else other v

pub record NdpEntry : Type 0 where
  pub icmpv6_type : Icmpv6Type
  pub target_addr : Ipv6
  pub link_layer_addr : Option Mac

abbrev pub Link : Type 0
Link = Option Mac

-- A round of the loop of `parse_ndp`.
unfoldable pub ndp_round :
    List ℕ → (ℕ → Link → Outcome NetProtoError Link) → ℕ → Link → Outcome NetProtoError Link
ndp_round payload next i link =
    if leb (i + 2) (length payload)
    then (do
      opt_type ← index payload i
      units ← index payload (i + 1)
      let opt_len = units * 8
      if opt_len == 0
          then ok link
          else if ltb (length payload) (i + opt_len)
          then ok link
          else if ((opt_type == 1) || (opt_type == 2)) && leb 8 opt_len
          then (do
            bytes ← slice payload (i + 2) (i + 8)
            mac ← to_mac bytes
            next (i + opt_len) (some mac))
          else next (i + opt_len) link)
    else ok link

unfoldable pub ndp_loop : ℕ → List ℕ → ℕ → Link → Outcome NetProtoError Link
unfolding ndp_round
ndp_loop zero payload i link = timeout
ndp_loop (suc fuel) payload i link = ndp_round payload (ndp_loop fuel payload) i link

unfoldable pub parse_ndp : List ℕ → Outcome NetProtoError NdpEntry
parse_ndp payload = do
  bail_if (ltb (length payload) 24) (parse (codes "ICMPv6 payload too short"))
  msg_type ← index payload 0
  target ← slice payload 8 24
  target_addr ← to_octets16 target
  link ← ndp_loop (suc (length payload)) payload 24 none
  ok (record {
    icmpv6_type = icmpv6_type msg_type;
    target_addr = target_addr;
    link_layer_addr = link;
  })

pub record NeighborAdvertisement : Type 0 where
  pub target_addr : Ipv6
  pub link_layer_addr : Option Mac

-- A round of the loop of `parse_neighbor_advertisement`, which takes only the target's option, and
-- does not stop at an option that is longer than the payload.
unfoldable pub na_round :
    List ℕ → (ℕ → Link → Outcome NetProtoError Link) → ℕ → Link → Outcome NetProtoError Link
na_round payload next i link =
    if leb (i + 2) (length payload)
    then (do
      opt_type ← index payload i
      units ← index payload (i + 1)
      let opt_len = units * 8
      if opt_len == 0
          then ok link
          else if (opt_type == 2) && (leb 8 opt_len && leb (i + 8) (length payload))
          then (do
            bytes ← slice payload (i + 2) (i + 8)
            mac ← to_mac bytes
            next (i + opt_len) (some mac))
          else next (i + opt_len) link)
    else ok link

unfoldable pub na_loop : ℕ → List ℕ → ℕ → Link → Outcome NetProtoError Link
unfolding na_round
na_loop zero payload i link = timeout
na_loop (suc fuel) payload i link = na_round payload (na_loop fuel payload) i link

unfoldable pub parse_neighbor_advertisement : List ℕ → Outcome NetProtoError NeighborAdvertisement
parse_neighbor_advertisement payload = do
  bail_if (ltb (length payload) 24) (parse (codes "ICMPv6 NA payload too short"))
  msg_type ← index payload 0
  bail_if (not (msg_type == 136)) (parse (codes "not an ICMPv6 Neighbor Advertisement"))
  target ← slice payload 8 24
  target_addr ← to_octets16 target
  link ← na_loop (suc (length payload)) payload 24 none
  ok (record { target_addr = target_addr; link_layer_addr = link })
