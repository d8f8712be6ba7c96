-- ===== src/Radius/RoundTrip.antt =====
-- Encoding and parsing of services/aaa/src/radius.rs undo one another.
use mathlib.Core.List.{append_assoc, append-nil}
use lentropy.Common.{
  ℕ, zero, suc, ◌+◌, ◌/◌, ◌%◌, ◌<◌, ◌≤◌, ◌≡◌, ◌||◌, false, refl, sym, ap, ◌∙◌, List, [], ◌∷◌, ◌++◌,
  All, length, length-append, ltb, le→ltb, le→leb, lt→leb, arith,
}
use lentropy.Outcome.{Outcome, ok, index, slice, Octets16, octets16_bytes, be16, bail_if}
use lentropy.Outcome.Buffer.{append_snoc, index_at, index_next, slice_at}
use lentropy.Radius.{
  RadiusError, RadiusAttribute, RadiusPacket, attr_round, attr_loop, parse, encode_attributes,
  encode, set_authenticator, encode_with_response_auth,
}

-- The value fits the length byte of its attribute.
abbrev pub Fits : RadiusAttribute → Type 0
Fits a = length a.value + 2 < 256

module _ (next : ℕ → List RadiusAttribute → Outcome RadiusError (List RadiusAttribute)) where
  attr_round-encode :
      (pre : List ℕ) (a : RadiusAttribute) (after : List ℕ) (stated : ℕ)
      (out : List RadiusAttribute)
      → Fits a
      → length pre + (2 + length a.value) ≤ stated
      → attr_round
          (pre ++ (a.attr_type ∷ (length a.value + 2) ∷ (a.value ++ after)))
          stated
          next
          (length pre)
          out
        ≡ next (length pre + (length a.value + 2)) (out ++ a ∷ [])
  unfolding attr_round
  attr_round-encode pre a after stated out fits room =
      let n = length a.value + 2 in
      let sound : (ltb n 2 || ltb stated (length pre + n)) ≡ false = ground arith in
      rw
        (
          le→leb (length pre + 2) stated (omega arith),
          index_at {E = RadiusError} pre a.attr_type (n ∷ (a.value ++ after)) (length pre) refl,
        )
        (rw (index_next {E = RadiusError} pre a.attr_type n (a.value ++ after), sound)
          (rw (part n) refl))
    where
      part :
          (n : ℕ)
          → slice {E = RadiusError}
              (pre ++ (a.attr_type ∷ n ∷ (a.value ++ after)))
              (length pre + 2)
              (length pre + (length a.value + 2))
            ≡ ok a.value
      part n =
          rw
            (
              append_snoc pre a.attr_type (n ∷ (a.value ++ after)),
              append_snoc (pre ++ a.attr_type ∷ []) n (a.value ++ after),
            )
            (slice_at ((pre ++ a.attr_type ∷ []) ++ n ∷ []) a.value after _ _
              (omega (
                arith,
                length-append (pre ++ a.attr_type ∷ []) (n ∷ []),
                length-append pre (a.attr_type ∷ []),
              ))
              (omega (
                arith,
                length-append (pre ++ a.attr_type ∷ []) (n ∷ []),
                length-append pre (a.attr_type ∷ []),
              )))

  attr_round-end :
      (buf : List ℕ) (pos : ℕ) (out : List RadiusAttribute)
      → attr_round buf pos next pos out ≡ ok out
  unfolding attr_round
  attr_round-end buf pos out = rw (lt→leb (pos + 2) pos (omega arith)) refl

attr_loop-encode :
    (buf : List ℕ) (stated fuel pos : ℕ) (pre : List ℕ) (attrs : List RadiusAttribute)
    (tail : List ℕ) (out : List RadiusAttribute)
    → buf ≡ pre ++ (encode_attributes attrs ++ tail)
    → pos ≡ length pre
    → stated ≡ pos + length (encode_attributes attrs)
    → length (encode_attributes attrs) < fuel
    → All Fits attrs
    → attr_loop fuel buf stated pos out ≡ ok (out ++ attrs)
unfolding attr_loop encode_attributes
attr_loop-encode buf stated zero pos pre attrs tail out e p s h fits = absurd (omega arith)
attr_loop-encode buf stated (suc fuel) pos pre [] tail out e p s h fits =
    let same : stated ≡ pos = omega arith in
    rw (append-nil out, same) (attr_round-end (attr_loop fuel buf pos) buf pos out)
attr_loop-encode buf stated (suc fuel) pos pre (a ∷ attrs) tail out e p s h fits =
    let n = length a.value + 2 in
    let small : n % 256 ≡ n = omega arith in
    let after = encode_attributes attrs ++ tail in
    let shape : buf ≡ pre ++ (a.attr_type ∷ n ∷ (a.value ++ after)) =
      e
      ∙ ap (λ (t : List ℕ). pre ++ (a.attr_type ∷ (n % 256) ∷ t))
          (append_assoc a.value (encode_attributes attrs) tail)
      ∙ ap (λ (k : ℕ). pre ++ (a.attr_type ∷ k ∷ (a.value ++ after))) small in
    let size = length-append a.value (encode_attributes attrs) in
    let step : attr_round buf stated (attr_loop fuel buf stated) pos out
        ≡ attr_loop fuel buf stated (length pre + n) (out ++ a ∷ []) =
      rw (shape, p)
        (attr_round-encode (attr_loop fuel (pre ++ (a.attr_type ∷ n ∷ (a.value ++ after))) stated)
          pre a after stated out fits.0 (omega (arith, size))) in
    step
    ∙ attr_loop-encode buf stated fuel (length pre + n) (pre ++ (a.attr_type ∷ n ∷ a.value)) attrs
        tail (out ++ a ∷ []) (shape ∙ sym (append_assoc pre (a.attr_type ∷ n ∷ a.value) after))
        (omega (arith, length-append pre (a.attr_type ∷ n ∷ a.value))) (omega (arith, size))
        (omega (arith, size)) fits.1
    ∙ ap ok (append_assoc out (a ∷ []) attrs)

-- The packet fits its length field.
abbrev pub FitsPacket : RadiusPacket → Type 0
FitsPacket p = (20 + length (encode_attributes p.attributes) < 65536) × All Fits p.attributes

parse_parts : (p : RadiusPacket) (tail : List ℕ) → FitsPacket p → parse (encode p ++ tail) ≡ ok p
unfolding parse encode bail_if index
parse_parts p tail (short, fits) =
    rw (le→ltb (length buf) 20 (omega arith), stated)
      (rw (le→ltb (length buf) total (omega (arith, size)), auth, looped) refl)
  where
    total : ℕ
    total = 20 + length (encode_attributes p.attributes)

    stated : be16 (total % 65536 / 256) (total % 65536 % 256) ≡ total
    stated = omega arith

    front : List ℕ
    front = p.code ∷ p.identifier ∷ (total % 65536 / 256) ∷ (total % 65536 % 256) ∷ []

    buf : List ℕ
    buf = front ++ (octets16_bytes p.authenticator ++ (encode_attributes p.attributes ++ tail))

    size : length buf ≡ total + length tail
    size = omega (arith, length-append (encode_attributes p.attributes) tail)

    auth : slice {E = RadiusError} buf 4 20 ≡ ok (octets16_bytes p.authenticator)
    auth =
        slice_at front (octets16_bytes p.authenticator) (encode_attributes p.attributes ++ tail) 4
          20 refl refl

    looped : attr_loop (suc (length buf)) buf total 20 [] ≡ ok p.attributes
    looped =
        attr_loop-encode buf total (suc (length buf)) 20 (front ++ octets16_bytes p.authenticator)
          p.attributes tail [] refl refl refl (omega (arith, size)) fits

-- A packet whose attributes fit their length bytes and which fits its length field is parsed from
-- its encoding as it was, also if more bytes follow in the buffer.
pub parse-encode :
    (p : RadiusPacket) (tail : List ℕ) → FitsPacket p → parse (encode p ++ tail) ≡ ok p
parse-encode = parse_parts

set_authenticator-encode :
    (p : RadiusPacket) (auth : Octets16)
    → set_authenticator (encode p) auth ≡ encode (record p { authenticator = auth })
unfolding encode set_authenticator
set_authenticator-encode p auth = refl

-- A response that fits its length fields is parsed from its encoding with the authenticator of
-- RFC 2865 section 3, the MD5 of the packet that carries the request's authenticator with the
-- secret behind it, and all else as it was.
pub parse-encode_with_response_auth :
    (md5 : List ℕ → Octets16) (p : RadiusPacket) (request_auth : Octets16) (secret : List ℕ)
    → FitsPacket p
    → parse (encode_with_response_auth md5 p request_auth secret)
      ≡ ok (record p {
        authenticator = md5 (encode (record p { authenticator = request_auth }) ++ secret);
      })
unfolding encode_with_response_auth
parse-encode_with_response_auth md5 p request_auth secret fits =
    rw
      (
        set_authenticator-encode p request_auth,
        set_authenticator-encode (record p { authenticator = request_auth }) hash,
      )
      (rw (append-nil (encode q)) at (parse-encode q [] fits))
  where
    hash : Octets16
    hash = md5 (encode (record p { authenticator = request_auth }) ++ secret)

    q : RadiusPacket
    q = record p { authenticator = hash }
