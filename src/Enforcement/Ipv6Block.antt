-- ===== src/Enforcement/Ipv6Block.antt =====
-- services/enforcement/src/ipv6_block.rs: the frame that claims an IPv6 address for this machine, and
-- what the parser of crates/nac-netproto/src/icmpv6.rs reads in it. The opening of the channel is not
-- modelled.
use lentropy.Common.{ℕ, ◌≡◌, refl, List, [], ◌∷◌, ◌++◌, drop, some}
use lentropy.Outcome.{ok, Mac, Ipv6, mac_bytes, octets16_bytes, index, slice, bail_if}
use lentropy.NetProto.Icmpv6.{parse_neighbor_advertisement, na_loop, na_round}

abbrev pub all_nodes_mac : List ℕ
all_nodes_mac = 0x33 ∷ 0x33 ∷ 0x00 ∷ 0x00 ∷ 0x00 ∷ 0x01 ∷ []

abbrev pub all_nodes : List ℕ
all_nodes = 0xff ∷ 0x02 ∷ 0 ∷ 0 ∷ 0 ∷ 0 ∷ 0 ∷ 0 ∷ 0 ∷ 0 ∷ 0 ∷ 0 ∷ 0 ∷ 0 ∷ 0 ∷ 0x01 ∷ []

unfoldable pub craft_na_spoof : Mac → Ipv6 → List ℕ
craft_na_spoof sender_mac target_ipv6 =
    all_nodes_mac
    ++ (mac_bytes sender_mac
        ++ (0x86 ∷ 0xdd ∷ []
            ++ (0x60 ∷ 0 ∷ 0 ∷ 0 ∷ 0x00 ∷ 0x20 ∷ 58 ∷ 255 ∷ []
                ++ (octets16_bytes target_ipv6
                    ++ (all_nodes
                        ++ (136 ∷ 0 ∷ 0x00 ∷ 0x00 ∷ 0x20 ∷ 0x00 ∷ 0x00 ∷ 0x00 ∷ []
                            ++ (octets16_bytes target_ipv6 ++ (2 ∷ 1 ∷ mac_bytes sender_mac))))))))

-- The advertisement behind the Ethernet and IPv6 headers is parsed as the claim that the target's
-- address is at the sender, whatever the two are.
pub parse_neighbor_advertisement-craft_na_spoof :
    (sender_mac : Mac) (target_ipv6 : Ipv6)
    → parse_neighbor_advertisement (drop 54 (craft_na_spoof sender_mac target_ipv6))
      ≡ ok (record { target_addr = target_ipv6; link_layer_addr = some sender_mac })
unfolding craft_na_spoof parse_neighbor_advertisement na_loop na_round index slice bail_if
parse_neighbor_advertisement-craft_na_spoof sender_mac target_ipv6 = refl
