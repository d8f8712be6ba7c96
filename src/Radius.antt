-- ===== src/Radius.antt =====
-- services/aaa/src/radius.rs: the packet format. A `u8` or `u16` cast keeps its wrap-around. MD5 is
-- the crate's, and a parameter.
pub mod Parse
pub mod RoundTrip
pub mod Attributes
pub mod Access
pub mod Decisions
pub mod Answers
use lentropy.Common.{
  ℕ, zero, suc, ◌+◌, ◌%◌, ◌/◌, ◌||◌, Option, none, some, List, [], ◌∷◌, ◌++◌, length, find, take,
  drop, ltb, leb, ◌==◌, if◌then◌else◌,
}
use lentropy.Outcome.{
  Outcome, ok, timeout, ◌>>=◌, ◌>>◌, bail_if, index, slice, Octets16, octets16_bytes, to_octets16,
  be16,
}

abbrev pub code_access_request : ℕ
code_access_request = 1

abbrev pub code_access_accept : ℕ
code_access_accept = 2

abbrev pub code_access_reject : ℕ
code_access_reject = 3

abbrev pub code_accounting_request : ℕ
code_accounting_request = 4

abbrev pub code_accounting_response : ℕ
code_accounting_response = 5

abbrev pub attr_user_name : ℕ
attr_user_name = 1

abbrev pub attr_user_password : ℕ
attr_user_password = 2

abbrev pub attr_reply_message : ℕ
attr_reply_message = 18

abbrev pub attr_calling_station_id : ℕ
attr_calling_station_id = 31

abbrev pub attr_tunnel_type : ℕ
attr_tunnel_type = 64

abbrev pub attr_tunnel_medium_type : ℕ
attr_tunnel_medium_type = 65

abbrev pub attr_tunnel_private_group_id : ℕ
attr_tunnel_private_group_id = 81

pub record RadiusAttribute : Type 0 where
  pub attr_type : ℕ
  pub value : List ℕ

pub record RadiusPacket : Type 0 where
  pub code : ℕ
  pub identifier : ℕ
  pub authenticator : Octets16
  pub attributes : List RadiusAttribute

pub data RadiusError : Type 0 where
  too_short : ℕ → RadiusError
  truncated : RadiusError

-- A round of the loop over the attributes; `length` is the length that the packet states.
unfoldable pub attr_round :
    List ℕ
    → ℕ
    → (ℕ → List RadiusAttribute → Outcome RadiusError (List RadiusAttribute))
    → ℕ
    → List RadiusAttribute
    → Outcome RadiusError (List RadiusAttribute)
attr_round buf stated next pos attributes =
    if leb (pos + 2) stated
    then (do
      attr_type ← index buf pos
      attr_len ← index buf (pos + 1)
      if ltb attr_len 2 || ltb stated (pos + attr_len) then ok attributes else (do
        value ← slice buf (pos + 2) (pos + attr_len)
        next (pos + attr_len)
            (attributes ++ (record { attr_type = attr_type; value = value }) ∷ [])))
    else ok attributes

unfoldable pub attr_loop :
    ℕ → List ℕ → ℕ → ℕ → List RadiusAttribute → Outcome RadiusError (List RadiusAttribute)
unfolding attr_round
attr_loop zero buf stated pos attributes = timeout
attr_loop (suc fuel) buf stated pos attributes =
    attr_round buf stated (attr_loop fuel buf stated) pos attributes

-- The attribute loop moves on by two bytes at least, so the buffer's length is enough fuel.
unfoldable pub parse : List ℕ → Outcome RadiusError RadiusPacket
parse buf = do
  bail_if (ltb (length buf) 20) (too_short (length buf))
  code ← index buf 0
  identifier ← index buf 1
  length_hi ← index buf 2
  length_lo ← index buf 3
  let stated = be16 length_hi length_lo
  bail_if (ltb (length buf) stated) truncated
  auth ← slice buf 4 20
  authenticator ← to_octets16 auth
  attributes ← attr_loop (suc (length buf)) buf stated 20 []
  ok (record {
    code = code;
    identifier = identifier;
    authenticator = authenticator;
    attributes = attributes;
  })

unfoldable pub encode_attributes : List RadiusAttribute → List ℕ
encode_attributes [] = []
encode_attributes (attr ∷ rest) =
    attr.attr_type ∷ ((length attr.value + 2) % 256) ∷ (attr.value ++ encode_attributes rest)

unfoldable pub encode : RadiusPacket → List ℕ
encode p =
    let attrs_bytes = encode_attributes p.attributes in
    let total = (20 + length attrs_bytes) % 65536 in
    p.code
    ∷ p.identifier
    ∷ (total / 256)
    ∷ (total % 256)
    ∷ (octets16_bytes p.authenticator ++ attrs_bytes)

-- `buf[4..20].copy_from_slice(auth)`, on a packet, which has its twenty bytes.
unfoldable pub set_authenticator : List ℕ → Octets16 → List ℕ
set_authenticator buf auth = take 4 buf ++ (octets16_bytes auth ++ drop 20 buf)

unfoldable pub encode_with_response_auth :
    (List ℕ → Octets16) → RadiusPacket → Octets16 → List ℕ → List ℕ
encode_with_response_auth md5 p request_auth secret =
    let buf = set_authenticator (encode p) request_auth in
    set_authenticator buf (md5 (buf ++ secret))

-- The value of the first attribute of a type.
unfoldable pub get_attr : RadiusPacket → ℕ → Option (List ℕ)
get_attr p attr_type = elim (find (λ a. a.attr_type == attr_type) p.attributes) [
  | none ↦ none
  | some a ↦ some a.value
]
