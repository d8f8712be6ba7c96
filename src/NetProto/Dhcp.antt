-- ===== src/NetProto/Dhcp.antt =====
-- crates/nac-netproto/src/dhcp.rs: the two parsers of BOOTP/DHCPv4 payloads. Each loop body is a
-- function of its own, which is given the rest of the loop; the fuel is one more than the length of
-- the payload, and every round moves the index forward.
pub mod Returns
pub mod Options
use lentropy.Common.{
  ℕ, zero, suc, ◌+◌, ◌≡◌, Bool, Option, none, some, List, [], ◌∷◌, ltb, leb, ◌==◌, not, ◌&&◌,
  length, codes, Text, from_utf8, if◌then◌else◌,
}
use lentropy.Outcome.{
  Outcome, ok, err, timeout, ◌>>=◌, ◌>>◌, bail_if, index, slice, Mac, Ipv4, to_mac, be32,
}
use lentropy.NetProto.{NetProtoError, parse}

pub record DhcpBinding : Type 0 where
  pub client_mac : Mac
  pub offered_ip : Ipv4
  pub lease_secs : ℕ

-- The lease time of option 51, if it is in the payload whole.
unfoldable pub read_lease : List ℕ → ℕ → ℕ → ℕ → ℕ → Outcome NetProtoError ℕ
read_lease payload i code len lease_secs =
    if (code == 51) && ((len == 4) && leb (i + 2 + len) (length payload))
    then (do
      b0 ← index payload (i + 2)
      b1 ← index payload (i + 3)
      b2 ← index payload (i + 4)
      b3 ← index payload (i + 5)
      ok (be32 b0 b1 b2 b3))
    else ok lease_secs

unfoldable pub lease_round :
    List ℕ → (ℕ → ℕ → Outcome NetProtoError ℕ) → ℕ → ℕ → Outcome NetProtoError ℕ
unfolding read_lease
lease_round payload next i lease_secs =
    if ltb (i + 1) (length payload)
    then (do
      code ← index payload i
      if code == 255 then ok lease_secs else if code == 0 then next (i + 1) lease_secs else (do
        len ← index payload (i + 1)
        lease ← read_lease payload i code len lease_secs
        next (i + (2 + len)) lease))
    else ok lease_secs

unfoldable pub lease_loop : ℕ → List ℕ → ℕ → ℕ → Outcome NetProtoError ℕ
unfolding lease_round
lease_loop zero payload i lease_secs = timeout
lease_loop (suc fuel) payload i lease_secs =
    lease_round payload (lease_loop fuel payload) i lease_secs

unfoldable pub parse_dhcp_binding : List ℕ → Outcome NetProtoError DhcpBinding
parse_dhcp_binding payload = do
  bail_if (ltb (length payload) 236) (parse (codes "DHCPv4 payload too short"))
  op ← index payload 0
  bail_if (not (op == 2)) (parse (codes "not a DHCP reply (op != 2)"))
  mac_slice ← slice payload 28 34
  mac ← to_mac mac_slice
  y0 ← index payload 16
  y1 ← index payload 17
  y2 ← index payload 18
  y3 ← index payload 19
  lease ← lease_loop (suc (length payload)) payload (236 + 4) 86400
  ok (record { client_mac = mac; offered_ip = (y0, y1, y2, y3); lease_secs = lease })

-- What the options have told so far: the variables of the loop.
pub record ClientOptions : Type 0 where
  pub msg_type : ℕ
  pub hostname : Option Text
  pub parameter_request_list : Option (List ℕ)
  pub vendor_class : Option Text

pub record DhcpClientPacket : Type 0 where
  pub client_mac : Mac
  pub options : ClientOptions
  pub open options use *

abbrev pub no_options : ClientOptions
no_options = record {
  msg_type = 0;
  hostname = none;
  parameter_request_list = none;
  vendor_class = none;
}

abbrev first_or : ℕ → List ℕ → ℕ
first_or d [] = d
first_or d (x ∷ xs) = x

-- The `match` on the option's code. `data[0]` is read only at length 1.
unfoldable pub apply_option : ℕ → List ℕ → ClientOptions → ClientOptions
unfolding from_utf8
apply_option code bytes o =
    if code == 12
    then record o { hostname = from_utf8 bytes }
    else if (code == 53) && (length bytes == 1)
    then record o { msg_type = first_or o.msg_type bytes }
    else if code == 55
    then record o { parameter_request_list = some bytes }
    else if code == 60
    then record o { vendor_class = from_utf8 bytes }
    else o

unfoldable pub option_round :
    List ℕ
    → (ℕ → ClientOptions → Outcome NetProtoError ClientOptions)
    → ℕ
    → ClientOptions
    → Outcome NetProtoError ClientOptions
unfolding apply_option
option_round payload next i o =
    if ltb i (length payload)
    then (do
      code ← index payload i
      if code == 255
          then ok o
          else if code == 0
          then next (i + 1) o
          else if leb (length payload) (i + 1)
          then ok o
          else (do
            len ← index payload (i + 1)
            if ltb (length payload) (i + 2 + len) then ok o else (do
              bytes ← slice payload (i + 2) (i + 2 + len)
              next (i + 2 + len) (apply_option code bytes o))))
    else ok o

unfoldable pub option_loop : ℕ → List ℕ → ℕ → ClientOptions → Outcome NetProtoError ClientOptions
unfolding option_round
option_loop zero payload i o = timeout
option_loop (suc fuel) payload i o = option_round payload (option_loop fuel payload) i o

unfoldable pub parse_dhcp_client : List ℕ → Outcome NetProtoError DhcpClientPacket
parse_dhcp_client payload = do
  bail_if (ltb (length payload) 240) (parse (codes "DHCP client payload too short"))
  op ← index payload 0
  bail_if (not (op == 1)) (parse (codes "not a DHCP request (op != 1)"))
  mac_slice ← slice payload 28 34
  mac ← to_mac mac_slice
  o ← option_loop (suc (length payload)) payload 240 no_options
  ok (record { client_mac = mac; options = o })
