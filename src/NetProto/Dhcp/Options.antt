-- ===== src/NetProto/Dhcp/Options.antt =====
-- Parsing what a DHCP client writes: options as code, length and bytes, up to the end mark.
use lentropy.Common.{
  ℕ, zero, suc, ◌+◌, ◌<◌, ◌≡◌, ◌≢◌, refl, sym, ap, ◌∙◌, false, List, [], ◌∷◌, ◌++◌, All, length,
  length-append, ◌==◌, lt→ltb, le→ltb, lt→leb, arith, Option, none, some, or_else, and_then,
  unwrap_or, Text, from_utf8, if◌then◌else◌,
}
use mathlib.Core.List.{append_assoc}
use lentropy.Outcome.{Outcome, ok, slice, Mac, mac_bytes, bail_if}
use lentropy.Outcome.Buffer.{append_snoc, index_at, index_next, slice_at}
use lentropy.NetProto.{NetProtoError}
use lentropy.NetProto.Dhcp.{
  DhcpClientPacket, ClientOptions, no_options, apply_option, option_round, option_loop,
  parse_dhcp_client,
}

abbrev pub encode_options : List (ℕ × List ℕ) → List ℕ
encode_options [] = []
encode_options ((code, bytes) ∷ rest) = code ∷ length bytes ∷ (bytes ++ encode_options rest)

-- The options are read in order, so that of two with one code the later counts.
abbrev pub read_all : List (ℕ × List ℕ) → ClientOptions → ClientOptions
read_all [] o = o
read_all ((code, bytes) ∷ rest) o = read_all rest (apply_option code bytes o)

-- Neither padding nor the end mark.
abbrev pub IsProper : ℕ × List ℕ → Type 0
IsProper (code, bytes) = (code ≢ 0) × (code ≢ 255)

module _ (next : ℕ → ClientOptions → Outcome NetProtoError ClientOptions) where
  option_round-proper :
      (pre : List ℕ) (code : ℕ) (bytes tail : List ℕ) (o : ClientOptions)
      → code ≢ 0
      → code ≢ 255
      → option_round (pre ++ (code ∷ length bytes ∷ (bytes ++ tail))) next (length pre) o
        ≡ next (length pre + 2 + length bytes) (apply_option code bytes o)
  unfolding option_round
  option_round-proper pre code bytes tail o h k =
      let buf : List ℕ = pre ++ (code ∷ length bytes ∷ (bytes ++ tail)) in
      let whole : length buf ≡ length pre + suc (suc (length bytes + length tail)) =
        length-append pre (code ∷ length bytes ∷ (bytes ++ tail))
        ∙ omega (arith, length-append bytes tail) in
      let not_end : (code == 255) ≡ false = ground arith in
      let not_pad : (code == 0) ≡ false = ground arith in
      rw
        (
          lt→ltb (length pre) (length buf) (omega arith),
          index_at {E = NetProtoError} pre code (length bytes ∷ (bytes ++ tail)) (length pre) refl,
        )
        (rw
          (
            not_end,
            not_pad,
            lt→leb (length buf) (length pre + 1) (omega arith),
            index_next {E = NetProtoError} pre code (length bytes) (bytes ++ tail),
          )
          (rw (le→ltb (length buf) (length pre + 2 + length bytes) (omega arith))
            (rw (part pre code bytes tail) refl)))
    where
      part :
          (pre : List ℕ) (code : ℕ) (bytes tail : List ℕ)
          → slice {E = NetProtoError}
              (pre ++ (code ∷ length bytes ∷ (bytes ++ tail)))
              (length pre + 2)
              (length pre + 2 + length bytes)
            ≡ ok bytes
      part pre code bytes tail =
          rw
            (
              append_snoc pre code (length bytes ∷ (bytes ++ tail)),
              append_snoc (pre ++ code ∷ []) (length bytes) (bytes ++ tail),
            )
            (slice_at ((pre ++ code ∷ []) ++ length bytes ∷ []) bytes tail _ _
              (omega (
                arith,
                length-append (pre ++ code ∷ []) (length bytes ∷ []),
                length-append pre (code ∷ []),
              ))
              (omega (
                arith,
                length-append (pre ++ code ∷ []) (length bytes ∷ []),
                length-append pre (code ∷ []),
              )))

  option_round-end :
      (pre tail : List ℕ) (o : ClientOptions)
      → option_round (pre ++ 255 ∷ tail) next (length pre) o ≡ ok o
  unfolding option_round
  option_round-end pre tail o =
      rw
        (
          lt→ltb (length pre) (length (pre ++ 255 ∷ tail))
              (omega (arith, length-append pre (255 ∷ tail))),
          index_at {E = NetProtoError} pre 255 tail (length pre) refl,
        )
        refl

option_loop-encode :
    (fuel : ℕ) (pre : List ℕ) (options : List (ℕ × List ℕ)) (tail : List ℕ) (o : ClientOptions)
    → length (encode_options options) < fuel
    → All IsProper options
    → option_loop fuel (pre ++ (encode_options options ++ 255 ∷ tail)) (length pre) o
      ≡ ok (read_all options o)
unfolding option_loop
option_loop-encode zero pre options tail o h p = absurd (omega arith)
option_loop-encode (suc fuel) pre [] tail o h p =
    option_round-end (option_loop fuel (pre ++ 255 ∷ tail)) pre tail o
option_loop-encode (suc fuel) pre ((code, bytes) ∷ rest) tail o h p =
    let after = encode_options rest ++ 255 ∷ tail in
    let start = pre ++ code ∷ length bytes ∷ bytes in
    let whole : pre ++ (encode_options ((code, bytes) ∷ rest) ++ 255 ∷ tail)
        ≡ pre ++ (code ∷ length bytes ∷ (bytes ++ after)) =
      ap (λ (t : List ℕ). pre ++ (code ∷ length bytes ∷ t))
        (append_assoc bytes (encode_options rest) (255 ∷ tail)) in
    let again : pre ++ (code ∷ length bytes ∷ (bytes ++ after)) ≡ start ++ after =
      sym (append_assoc pre (code ∷ length bytes ∷ bytes) after) in
    let next : length pre + 2 + length bytes ≡ length start =
      omega (arith, length-append pre (code ∷ length bytes ∷ bytes)) in
    rw whole (
      option_round-proper (option_loop fuel (pre ++ (code ∷ length bytes ∷ (bytes ++ after)))) pre
        code bytes after o p.0.0 p.0.1
      ∙ rw (again, next)
          (option_loop-encode fuel start rest tail (apply_option code bytes o)
            (omega (arith, length-append bytes (encode_options rest))) p.1))

-- The bytes of the last option with a code.
abbrev pub last_option : ℕ → List (ℕ × List ℕ) → Option (List ℕ)
last_option code [] = none
last_option code ((c, bytes) ∷ rest) =
    or_else (last_option code rest) (if c == code then some bytes else none)

-- The message type: option 53, where it is one byte.
abbrev pub one_byte : ℕ → List ℕ → Option ℕ
one_byte code (t ∷ []) = if code == 53 then some t else none
one_byte code bytes = none

abbrev pub last_type : List (ℕ × List ℕ) → Option ℕ
last_type [] = none
last_type ((code, bytes) ∷ rest) = or_else (last_type rest) (one_byte code bytes)

-- What the options say, for the codes of RFC 2132: 12 the host name, 53 the type of the message, 55
-- the requested parameters, 60 the vendor class. A name that is not UTF-8 is none.
pub record Tells (options : List (ℕ × List ℕ)) (o : ClientOptions) : Type 0 where
  pub host_name : o.hostname ≡ and_then (last_option 12 options) from_utf8
  pub message_type : o.msg_type ≡ unwrap_or (last_type options) 0
  pub parameters : o.parameter_request_list ≡ last_option 55 options
  pub vendor : o.vendor_class ≡ and_then (last_option 60 options) from_utf8

abbrev decoded_or : Option Text → Option (List ℕ) → Option Text
decoded_or before none = before
decoded_or before (some bytes) = from_utf8 bytes

decoded_later :
    (h : Option Text) (s l : Option (List ℕ))
    → decoded_or (decoded_or h s) l ≡ decoded_or h (or_else l s)
decoded_later h s none = refl
decoded_later h s (some b) = refl

decoded_first : (l : Option (List ℕ)) → decoded_or none l ≡ and_then l from_utf8
decoded_first none = refl
decoded_first (some b) = refl

module _ {A : Type 0} where
  or_else_assoc : (l s p : Option A) → or_else l (or_else s p) ≡ or_else (or_else l s) p
  or_else_assoc none s p = refl
  or_else_assoc (some a) s p = refl

  or_else-none : (l : Option A) → or_else l none ≡ l
  or_else-none none = refl
  or_else-none (some a) = refl

  unwrap_or-or_else :
      (l s : Option A) (d : A) → unwrap_or l (unwrap_or s d) ≡ unwrap_or (or_else l s) d
  unwrap_or-or_else none s d = refl
  unwrap_or-or_else (some a) s d = refl

-- One option changes what its code is for, and nothing else.
record Step (code : ℕ) (bytes : List ℕ) (o o' : ClientOptions) : Type 0 where
  host_name : o'.hostname ≡ decoded_or o.hostname (if code == 12 then some bytes else none)
  message_type : o'.msg_type ≡ unwrap_or (one_byte code bytes) o.msg_type
  parameters :
      o'.parameter_request_list
      ≡ or_else (if code == 55 then some bytes else none) o.parameter_request_list
  vendor : o'.vendor_class ≡ decoded_or o.vendor_class (if code == 60 then some bytes else none)

apply_option-Step :
    (code : ℕ) (bytes : List ℕ) (o : ClientOptions) → Step code bytes o (apply_option code bytes o)
unfolding apply_option
apply_option-Step code [] o = record {
  host_name = ground arith;
  message_type = ground arith;
  parameters = ground arith;
  vendor = ground arith;
}
apply_option-Step code (t ∷ []) o = record {
  host_name = ground arith;
  message_type = ground arith;
  parameters = ground arith;
  vendor = ground arith;
}
apply_option-Step code (t ∷ u ∷ rest) o = record {
  host_name = ground arith;
  message_type = ground arith;
  parameters = ground arith;
  vendor = ground arith;
}

hostname-read_all :
    (options : List (ℕ × List ℕ)) (o : ClientOptions)
    → (read_all options o).hostname ≡ decoded_or o.hostname (last_option 12 options)
hostname-read_all [] o = refl
hostname-read_all ((code, bytes) ∷ rest) o =
    hostname-read_all rest (apply_option code bytes o)
    ∙ ap (λ h. decoded_or h (last_option 12 rest)) (apply_option-Step code bytes o).host_name
    ∙ decoded_later o.hostname _ (last_option 12 rest)

vendor_class-read_all :
    (options : List (ℕ × List ℕ)) (o : ClientOptions)
    → (read_all options o).vendor_class ≡ decoded_or o.vendor_class (last_option 60 options)
vendor_class-read_all [] o = refl
vendor_class-read_all ((code, bytes) ∷ rest) o =
    vendor_class-read_all rest (apply_option code bytes o)
    ∙ ap (λ h. decoded_or h (last_option 60 rest)) (apply_option-Step code bytes o).vendor
    ∙ decoded_later o.vendor_class _ (last_option 60 rest)

parameters-read_all :
    (options : List (ℕ × List ℕ)) (o : ClientOptions)
    → (read_all options o).parameter_request_list
      ≡ or_else (last_option 55 options) o.parameter_request_list
parameters-read_all [] o = refl
parameters-read_all ((code, bytes) ∷ rest) o =
    parameters-read_all rest (apply_option code bytes o)
    ∙ ap (or_else (last_option 55 rest)) (apply_option-Step code bytes o).parameters
    ∙ or_else_assoc (last_option 55 rest) _ o.parameter_request_list

msg_type-read_all :
    (options : List (ℕ × List ℕ)) (o : ClientOptions)
    → (read_all options o).msg_type ≡ unwrap_or (last_type options) o.msg_type
msg_type-read_all [] o = refl
msg_type-read_all ((code, bytes) ∷ rest) o =
    msg_type-read_all rest (apply_option code bytes o)
    ∙ ap (unwrap_or (last_type rest)) (apply_option-Step code bytes o).message_type
    ∙ unwrap_or-or_else (last_type rest) _ o.msg_type

read_all-Tells : (options : List (ℕ × List ℕ)) → Tells options (read_all options no_options)
read_all-Tells options = record {
  host_name = hostname-read_all options no_options ∙ decoded_first (last_option 12 options);
  message_type = msg_type-read_all options no_options;
  parameters = parameters-read_all options no_options ∙ or_else-none (last_option 55 options);
  vendor = vendor_class-read_all options no_options ∙ decoded_first (last_option 60 options);
}

options_read :
    (before : List ℕ) (mac : Mac) (behind : List ℕ) (options : List (ℕ × List ℕ)) (tail : List ℕ)
    → length before ≡ 27
    → length behind ≡ 206
    → All IsProper options
    → parse_dhcp_client
        ((1 ∷ (before ++ (mac_bytes mac ++ behind))) ++ (encode_options options ++ 255 ∷ tail))
      ≡ ok (record { client_mac = mac; options = read_all options no_options })
unfolding parse_dhcp_client bail_if
options_read before mac behind options tail h k p =
    rw
      (
        le→ltb (length payload) 240 (omega (arith, long)),
        index_at {E = NetProtoError} [] 1 _ 0 refl,
      )
      (rw (mac_slice, looped) refl)
  where
    header : List ℕ
    header = 1 ∷ (before ++ (mac_bytes mac ++ behind))

    after : List ℕ
    after = encode_options options ++ 255 ∷ tail

    payload : List ℕ
    payload = header ++ after

    header_240 : length header ≡ 240
    header_240 = omega (arith, length-append before (mac_bytes mac ++ behind))

    long : length payload ≡ 240 + (length (encode_options options) + suc (length tail))
    long = omega (
      arith,
      header_240,
      length-append header after,
      length-append (encode_options options) (255 ∷ tail),
    )

    mac_slice : slice {E = NetProtoError} payload 28 34 ≡ ok (mac_bytes mac)
    mac_slice =
        rw
          (ap (λ (t : List ℕ). 1 ∷ t)
            (append_assoc before (mac_bytes mac ++ behind) after
              ∙ ap (λ (t : List ℕ). before ++ t) (append_assoc (mac_bytes mac) behind after)))
          (slice_at (1 ∷ before) (mac_bytes mac) (behind ++ after) 28 34 (omega arith)
            (omega arith))

    looped :
        option_loop (suc (length payload)) payload 240 no_options ≡ ok (read_all options no_options)
    looped = rw (← header_240) (
        option_loop-encode (suc (length payload)) header options tail no_options
          (omega (arith, long)) p)

-- A client's message of operation 1, 27 bytes, the client's MAC address, 206 bytes, options that are
-- neither padding nor the end mark, and the end mark is parsed, whatever follows the end mark, to
-- the MAC address, the host name of the last option 12, the message type of the last option 53 of
-- one byte, the requested parameters of the last option 55 and the vendor class of the last
-- option 60, or to their defaults where there is no such option or a name is not UTF-8.
pub parse_dhcp_client-encode :
    (before : List ℕ) (mac : Mac) (behind : List ℕ) (options : List (ℕ × List ℕ)) (tail : List ℕ)
    → length before ≡ 27
    → length behind ≡ 206
    → All IsProper options
    → (p : DhcpClientPacket) × (parse_dhcp_client
          ((1 ∷ (before ++ (mac_bytes mac ++ behind))) ++ (encode_options options ++ 255 ∷ tail))
        ≡ ok p)
      × (p.client_mac ≡ mac)
      × Tells options p.options
parse_dhcp_client-encode before mac behind options tail h k proper = (
  record { client_mac = mac; options = read_all options no_options },
  options_read before mac behind options tail h k proper,
  refl,
  read_all-Tells options,
)
