-- ===== src/NetProto/Arp/Frames.antt =====
-- What the frames of crates/nac-netproto/src/arp.rs say to the parser, and that it never panics.
use lentropy.Common.{ℕ, ◌≡◌, refl, true, List, length, ltb→le, arith}
use lentropy.Outcome.{
  ok, ◌>>=◌, Returns, bail_if, index, slice, Mac, Ipv4, bail_then, index_then, slice_then, mac_then,
  value,
}
use lentropy.NetProto.Arp.{craft_gratuitous_arp, craft_arp_reply, parse_arp}

-- Parsing a unicast reply gives the sender and the target that it was crafted with, as a reply.
pub parse_arp-craft_arp_reply :
    (dst sender : Mac) (sender_ip : Ipv4) (target : Mac) (target_ip : Ipv4)
    → (craft_arp_reply dst sender sender_ip target target_ip >>= parse_arp)
      ≡ ok (record {
        sender_mac = sender;
        sender_ip = sender_ip;
        target_ip = target_ip;
        is_reply = true;
      })
unfolding craft_arp_reply parse_arp index slice bail_if
parse_arp-craft_arp_reply dst sender sender_ip target target_ip = refl

-- Parsing a broadcast reply gives the sender that it was crafted with as the sender, and the target's
-- IP address, as a reply.
pub parse_arp-craft_gratuitous_arp :
    (sender : Mac) (sender_ip target_ip : Ipv4)
    → (craft_gratuitous_arp sender sender_ip target_ip >>= parse_arp)
      ≡ ok (record {
        sender_mac = sender;
        sender_ip = sender_ip;
        target_ip = target_ip;
        is_reply = true;
      })
unfolding craft_gratuitous_arp parse_arp index slice bail_if
parse_arp-craft_gratuitous_arp sender sender_ip target_ip = refl

-- On every frame the parser returns a value or an error: it does not read out of bounds.
pub parse_arp-Returns : (frame : List ℕ) → Returns (parse_arp frame)
unfolding parse_arp
parse_arp-Returns frame = bail_then _ _ _ λ long_enough.
    let long = ltb→le (length frame) 42 long_enough in
    index_then frame 20 _ (omega arith) λ _. index_then frame 21 _ (omega arith) λ _.
      slice_then frame 22 28 _ (omega arith) (omega arith) λ sha six.
        mac_then sha _ (omega arith) λ _. index_then frame 28 _ (omega arith) λ _.
          index_then frame 29 _ (omega arith) λ _. index_then frame 30 _ (omega arith) λ _.
            index_then frame 31 _ (omega arith) λ _. index_then frame 38 _ (omega arith) λ _.
              index_then frame 39 _ (omega arith) λ _.
                index_then frame 40 _ (omega arith)
                  λ _. index_then frame 41 _ (omega arith) λ _. value _
