-- ===== src/Tests/Tables.antt =====
-- Tables as the kernel writes them, read by services/enforcement.
use lentropy.Common.{◌≡◌, refl, some, none, codes, ◌++◌, Text, ◌∷◌, []}
use lentropy.Enforcement.Proc.{detect_default_gateway, get_arp_mac, lines, split_whitespace}

abbrev route : Text
route =
    codes "Iface Destination Gateway"
    ++ 10 ∷ codes "eth0 0000A8C0 00000000 0001"
    ++ 10 ∷ codes "eth0 00000000 0100A8C0 0003"
    ++ 10 ∷ []

gateway_found : detect_default_gateway (some route) ≡ some (192, 168, 0, 1)
unfolding detect_default_gateway lines lentropy.Common.Net.split split_whitespace
    lentropy.Common.is_hexdigit lentropy.Common.Net.hex_value
gateway_found = refl

abbrev arp : Text
arp =
    codes "IP address HW type Flags HW address"
    ++ 10 ∷ codes "192.168.0.1 0x1 0x2 02:00:00:00:00:0a * eth0"
    ++ 10 ∷ []

mac_found : get_arp_mac (some arp) (192, 168, 0, 1) ≡ some (2, 0, 0, 0, 0, 10)
unfolding get_arp_mac lines lentropy.Common.Net.split split_whitespace lentropy.Common.text_eq
    lentropy.Common.Net.ipv4_text lentropy.Common.Digits.decimal lentropy.Common.is_hexdigit
    lentropy.Common.Net.hex_value
mac_found = refl
