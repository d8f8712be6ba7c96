-- ===== src/Radius/Attributes.antt =====
-- services/aaa/src/radius.rs: the helpers on values, `decrypt_pap_password`, `normalize_mac` and
-- `vlan_attributes`, and `build_response`.
use Prim.Native.Nat.{bit_xor}
use lentropy.Common.{
  ℕ, zero, suc, ◌==◌, ◌/◌, ◌%◌, Bool, Option, none, some, List, [], ◌∷◌, ◌++◌, map, length, take,
  drop, Text, ascii_lower, if◌then◌else◌, true,
}
use lentropy.Common.Digits.{hex_digits, colon_pairs, decimal}
use lentropy.Outcome.{Octets16, octets16_bytes}
use lentropy.Radius.{
  RadiusAttribute, RadiusPacket, code_access_accept, code_access_reject, attr_reply_message,
  attr_tunnel_type, attr_tunnel_medium_type, attr_tunnel_private_group_id,
}

-- `chunk.iter().zip(hash.iter()).map(|(c, h)| c ^ h)`: as long as the shorter of the two.
unfoldable pub xor_bytes : List ℕ → List ℕ → List ℕ
xor_bytes (x ∷ xs) (y ∷ ys) = bit_xor x y ∷ xor_bytes xs ys
xor_bytes xs ys = []

-- `while result.last() == Some(&0) { result.pop(); }`.
keep_front : ℕ → List ℕ → List ℕ
keep_front x [] = if x == 0 then [] else x ∷ []
keep_front x (y ∷ ys) = x ∷ y ∷ ys

unfoldable pub trim_zeros : List ℕ → List ℕ
unfolding keep_front
trim_zeros [] = []
trim_zeros (x ∷ xs) = keep_front x (trim_zeros xs)

module _ (md5 : List ℕ → Octets16) where
  -- The loop over `encrypted.chunks(16)`; every round takes a byte at least, so the length is
  -- enough fuel.
  unfoldable pub pap_loop : ℕ → List ℕ → List ℕ → List ℕ → List ℕ
  unfolding xor_bytes
  pap_loop zero secret prev encrypted = []
  pap_loop (suc fuel) secret prev [] = []
  pap_loop (suc fuel) secret prev (c ∷ rest) =
      let chunk = take 16 (c ∷ rest) in
      xor_bytes chunk (octets16_bytes (md5 (secret ++ prev)))
      ++ pap_loop fuel secret chunk (drop 16 (c ∷ rest))

  unfoldable pub decrypt_pap_password : List ℕ → List ℕ → Octets16 → List ℕ
  unfolding pap_loop trim_zeros
  decrypt_pap_password encrypted secret authenticator =
      trim_zeros (pap_loop (length encrypted) secret (octets16_bytes authenticator) encrypted)

unfoldable pub normalize_mac : Text → Option Text
normalize_mac raw =
    let hex = map ascii_lower (hex_digits raw) in
    if length hex == 12 then some (colon_pairs hex) else none

abbrev pub be32_bytes : ℕ → List ℕ
be32_bytes n = (n / 16777216 % 256) ∷ (n / 65536 % 256) ∷ (n / 256 % 256) ∷ (n % 256) ∷ []

-- A tag byte, and the value: four bytes for the two tunnel types, the decimal digits for the VLAN.
unfoldable pub vlan_attributes : ℕ → List RadiusAttribute
vlan_attributes vlan_id =
    record { attr_type = attr_tunnel_type; value = 0x00 ∷ be32_bytes 13 }
    ∷ record { attr_type = attr_tunnel_medium_type; value = 0x00 ∷ be32_bytes 6 }
    ∷ record { attr_type = attr_tunnel_private_group_id; value = 0x00 ∷ decimal vlan_id }
    ∷ []

abbrev vlan_part : Bool → Option ℕ → List RadiusAttribute
vlan_part true (some v) = vlan_attributes v
vlan_part _ _ = []

unfoldable pub build_response : RadiusPacket → Bool → Option ℕ → Text → RadiusPacket
unfolding vlan_attributes
build_response req accept vlan message = record {
  code = if accept then code_access_accept else code_access_reject;
  identifier = req.identifier;
  authenticator = req.authenticator;
  attributes = record { attr_type = attr_reply_message; value = message } ∷ vlan_part accept vlan;
}
