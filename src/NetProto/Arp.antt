-- ===== src/NetProto/Arp.antt =====
-- crates/nac-netproto/src/arp.rs: the two frame builders and the parser.
pub mod Frames
use lentropy.Common.{Bool, List, [], ◌∷◌, ◌++◌, ℕ, ltb, ◌==◌, length, codes, ◌≡◌, refl}
use lentropy.Outcome.{
  Outcome, ok, ◌>>=◌, ◌>>◌, bail_if, index, slice, Mac, Ipv4, mac_bytes, ipv4_octets, to_mac, be16,
}
use lentropy.NetProto.{NetProtoError, parse}

pub record ArpEntry : Type 0 where
  pub sender_mac : Mac
  pub sender_ip : Ipv4
  pub target_ip : Ipv4
  pub is_reply : Bool

abbrev pub broadcast : Mac
broadcast = (0xff, 0xff, 0xff, 0xff, 0xff, 0xff)

abbrev pub zero_mac : Mac
zero_mac = (0, 0, 0, 0, 0, 0)

-- HTYPE Ethernet, PTYPE IPv4, HLEN, PLEN, OPER reply.
abbrev arp_reply_header : List ℕ
arp_reply_header = 0x00 ∷ 0x01 ∷ 0x08 ∷ 0x00 ∷ 6 ∷ 4 ∷ 0x00 ∷ 0x02 ∷ []

unfoldable pub craft_gratuitous_arp : Mac → Ipv4 → Ipv4 → Outcome NetProtoError (List ℕ)
craft_gratuitous_arp sender_mac sender_ip target_ip = ok (
    mac_bytes broadcast
    ++ (mac_bytes sender_mac
        ++ (0x08 ∷ 0x06 ∷ []
            ++ (arp_reply_header
                ++ (mac_bytes sender_mac
                    ++ (ipv4_octets sender_ip ++ (mac_bytes zero_mac ++ ipv4_octets target_ip)))))))

unfoldable pub craft_arp_reply : Mac → Mac → Ipv4 → Mac → Ipv4 → Outcome NetProtoError (List ℕ)
craft_arp_reply dst_mac sender_mac sender_ip target_mac target_ip = ok (
    mac_bytes dst_mac
    ++ (mac_bytes sender_mac
        ++ (0x08 ∷ 0x06 ∷ []
            ++ (arp_reply_header
                ++ (mac_bytes sender_mac
                    ++ (ipv4_octets sender_ip
                        ++ (mac_bytes target_mac ++ ipv4_octets target_ip)))))))

unfoldable pub parse_arp : List ℕ → Outcome NetProtoError ArpEntry
parse_arp frame = do
  bail_if (ltb (length frame) 42) (parse (codes "frame too short for ARP"))
  oper_hi ← index frame 20
  oper_lo ← index frame 21
  sha_bytes ← slice frame 22 28
  sha ← to_mac sha_bytes
  s0 ← index frame 28
  s1 ← index frame 29
  s2 ← index frame 30
  s3 ← index frame 31
  t0 ← index frame 38
  t1 ← index frame 39
  t2 ← index frame 40
  t3 ← index frame 41
  ok (record {
    sender_mac = sha;
    sender_ip = (s0, s1, s2, s3);
    target_ip = (t0, t1, t2, t3);
    is_reply = be16 oper_hi oper_lo == 2;
  })
