-- ===== src/Tests/Frames.antt =====
-- The packets of crates/nac-netproto and of the spoofer.
use native.Mathlib.Omega.{arith}
use lentropy.Common.{ℕ, zero, suc, ◌≡◌, refl, List, [], ◌∷◌, ◌++◌, map, drop, some, none, codes}
use lentropy.Outcome.{ok, Returns, mac_bytes, Mac, Ipv4}
use lentropy.NetProto.Dhcp.{DhcpClientPacket, parse_dhcp_client}
use lentropy.NetProto.Dhcp.Returns.{parse_dhcp_client-Returns}
use lentropy.NetProto.Dhcp.Options.{parse_dhcp_client-encode, encode_options, Tells}
use lentropy.NetProto.Icmpv6.{parse_ndp, parse_neighbor_advertisement}
use lentropy.NetProto.Icmpv6.Options.{icmpv6-Returns}
use lentropy.Enforcement.Ipv6Block.{craft_na_spoof, parse_neighbor_advertisement-craft_na_spoof}
use lentropy.Enforcement.Spoofer.{Spoofer, quarantine, block, allow}
use lentropy.Enforcement.Spoofer.Poison.{
  always, heard, told, told_to, nobody, everyone, quarantine-poisons, allow-restores,
}

abbrev gateway_mac : Mac
gateway_mac = (2, 0, 0, 0, 0, 1)

abbrev victim_mac : Mac
victim_mac = (2, 0, 0, 0, 0, 9)

abbrev gateway_ip : Ipv4
gateway_ip = (192, 168, 0, 1)

abbrev victim_ip : Ipv4
victim_ip = (192, 168, 0, 24)

abbrev zeros : ℕ → List ℕ
zeros zero = []
zeros (suc n) = 0 ∷ zeros n

icmpv6-Returns_example :
    Returns (parse_ndp (136 ∷ zeros 40)) × Returns (parse_neighbor_advertisement (136 ∷ zeros 40))
icmpv6-Returns_example = icmpv6-Returns (136 ∷ zeros 40)

parse_dhcp_client-Returns_example : Returns (parse_dhcp_client (1 ∷ zeros 260))
parse_dhcp_client-Returns_example = parse_dhcp_client-Returns (1 ∷ zeros 260)

abbrev client_options : List (ℕ × List ℕ)
client_options = (53, 1 ∷ []) ∷ (12, codes "pc") ∷ []

abbrev client_message : List ℕ
client_message =
    (1 ∷ (zeros 27 ++ (mac_bytes victim_mac ++ zeros 206)))
    ++ (encode_options client_options ++ 255 ∷ [])

parse_dhcp_client-encode_example :
    (p : DhcpClientPacket) × (parse_dhcp_client client_message ≡ ok p)
    × (p.client_mac ≡ victim_mac)
    × Tells client_options p.options
parse_dhcp_client-encode_example =
    parse_dhcp_client-encode (zeros 27) victim_mac (zeros 206) client_options [] refl refl
      ((omega arith, omega arith), ((omega arith, omega arith), tt))

parse_neighbor_advertisement-craft_na_spoof_example :
    parse_neighbor_advertisement
      (drop 54 (craft_na_spoof gateway_mac (254, 128, 0, 0, 0, 0, 0, 0, 0, 0, 0, 0, 0, 0, 0, 1)))
    ≡ ok (record {
      target_addr = (254, 128, 0, 0, 0, 0, 0, 0, 0, 0, 0, 0, 0, 0, 0, 1);
      link_layer_addr = some gateway_mac;
    })
parse_neighbor_advertisement-craft_na_spoof_example =
    parse_neighbor_advertisement-craft_na_spoof gateway_mac
      (254, 128, 0, 0, 0, 0, 0, 0, 0, 0, 0, 0, 0, 0, 0, 1)

abbrev start : Spoofer
start = record { mac = (2, 0, 0, 0, 0, 7); sent = [] }

quarantine-poisons_example :
    let frames =
      told_to victim_mac start.mac gateway_ip victim_ip
      ∷ told_to everyone start.mac victim_ip gateway_ip
      ∷ [] in
    let (quarantined, after) =
      quarantine always (λ _. none) victim_ip victim_mac gateway_ip start in
    let (blocked, after') = block always (λ _. none) victim_ip victim_mac gateway_ip start in
    (quarantined ≡ ok tt)
    × (map heard after.sent ≡ frames)
    × (blocked ≡ ok tt)
    × (map heard after'.sent ≡ frames)
quarantine-poisons_example =
    quarantine-poisons (λ _. none) victim_ip victim_mac gateway_ip (2, 0, 0, 0, 0, 7)

allow-restores_example :
    let (result, after) = allow always victim_ip victim_mac gateway_ip gateway_mac start in
    (result ≡ ok tt)
    × (map heard after.sent
        ≡ told_to victim_mac gateway_mac gateway_ip victim_ip
          ∷ told_to gateway_mac victim_mac victim_ip gateway_ip
          ∷ told everyone nobody victim_mac victim_ip victim_ip
          ∷ [])
allow-restores_example =
    allow-restores victim_ip victim_mac gateway_ip gateway_mac (2, 0, 0, 0, 0, 7)
