-- ===== src/Radius/Parse.antt =====
-- `RadiusPacket::parse` of services/aaa/src/radius.rs returns on every buffer.
use lentropy.Common.{
  ℕ, zero, suc, ◌+◌, ◌-◌, ◌<◌, ◌≤◌, ◌||◌, inl, inr, List, [], length, Bool-cases, ltb, ltb→le, leb,
  leb→le, arith,
}
use lentropy.Outcome.{
  Outcome, Returns, value, bail_then, bind_then, index_then, slice_then, octets16_then, be16,
}
use lentropy.Radius.{RadiusError, RadiusAttribute, attr_round, attr_loop, parse}

module _ (buf : List ℕ) (stated : ℕ) (fits : stated ≤ length buf) where
  attr_round-Returns :
      (next : ℕ → List RadiusAttribute → Outcome RadiusError (List RadiusAttribute)) (pos : ℕ)
      (out : List RadiusAttribute)
      → ((j : ℕ) (l : List RadiusAttribute) → pos < j → pos < length buf → Returns (next j l))
      → Returns (attr_round buf stated next pos out)
  unfolding attr_round
  attr_round-Returns next pos out go = elim (Bool-cases (leb (pos + 2) stated)) [
    | inr e ↦ rw e (value out)
    | inl e ↦
        let inside = leb→le (pos + 2) stated e in
        rw e (
          index_then buf pos _ (omega arith) λ attr_type.
            index_then buf (pos + 1) _ (omega arith) λ attr_len.
              elim (Bool-cases (ltb attr_len 2 || ltb stated (pos + attr_len))) [
                | inl bad ↦ rw bad (value out)
                | inr good ↦
                    let whole : (2 ≤ attr_len) × (pos + attr_len ≤ stated) = ground arith in
                    rw good (
                      slice_then buf (pos + 2) (pos + attr_len) _ (omega arith) (omega arith)
                        λ bytes _. go (pos + attr_len) _ (omega arith) (omega arith))
              ])
  ]

  attr_loop-Returns :
      (fuel pos : ℕ) (out : List RadiusAttribute)
      → length buf - pos < fuel
      → Returns (attr_loop fuel buf stated pos out)
  unfolding attr_loop
  attr_loop-Returns zero pos out h = absurd (omega arith)
  attr_loop-Returns (suc fuel) pos out h =
      attr_round-Returns (attr_loop fuel buf stated) pos out
        λ j l further inside. attr_loop-Returns fuel j l (omega arith)

-- On every buffer of whatever length and content, the parser gives a packet or an error: it reads
-- inside of the buffer only, and its loop ends.
pub parse-Returns : (buf : List ℕ) → Returns (parse buf)
unfolding parse
parse-Returns buf = bail_then _ _ _ λ e.
    let long = ltb→le (length buf) 20 e in
    index_then buf 0 _ (omega arith) λ code. index_then buf 1 _ (omega arith) λ identifier.
      index_then buf 2 _ (omega arith) λ hi. index_then buf 3 _ (omega arith) λ lo.
        bail_then _ _ _ λ fits. slice_then buf 4 20 _ (omega arith) (omega arith) λ auth n.
          octets16_then auth _ (omega arith) λ a.
            bind_then _ _
              (attr_loop-Returns buf (be16 hi lo) (ltb→le (length buf) (be16 hi lo) fits)
                (suc (length buf)) 20 [] (omega arith))
              (λ attributes. value _)
