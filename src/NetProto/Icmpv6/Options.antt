-- ===== src/NetProto/Icmpv6/Options.antt =====
-- The option loops of crates/nac-netproto/src/icmpv6.rs: they end and never panic.
use lentropy.Common.{
  ℕ, zero, suc, ◌+◌, ◌-◌, ◌*◌, ◌<◌, ◌≤◌, ◌≡◌, inl, inr, ◌&&◌, ◌||◌, false, none, some, List, length,
  Bool-cases, ltb, leb, leb→le, ltb→le, ◌==◌, arith, if◌then◌else◌,
}
use lentropy.Outcome.{
  Outcome, Returns, value, ◌>>=◌, slice, to_mac, bail_then, bind_then, index_then, slice_then,
  mac_then, octets16_then,
}
use lentropy.NetProto.{NetProtoError}
use lentropy.NetProto.Icmpv6.{
  Link, ndp_round, ndp_loop, parse_ndp, na_round, na_loop, parse_neighbor_advertisement,
}

module _ (payload : List ℕ) where
  -- Reading an address that is there, and going on behind it.
  address_then :
      (next : ℕ → Link → Outcome NetProtoError Link) (i j : ℕ)
      → i + 8 ≤ length payload
      → ((link : Link) → Returns (next j link))
      → Returns
          (slice payload (i + 2) (i + 8) >>= λ bytes. to_mac bytes >>= λ mac. next j (some mac))
  address_then next i j inside go =
      slice_then payload (i + 2) (i + 8) _ (omega arith) inside
        λ bytes six. mac_then bytes _ (omega arith) λ mac. go (some mac)

  module _ (next : ℕ → Link → Outcome NetProtoError Link) (i : ℕ) (link : Link)
      (go : (j : ℕ) (l : Link) → i < j → i < length payload → Returns (next j l)) where
    ndp_rest-Returns :
        (opt_type units : ℕ)
        → i + 2 ≤ length payload
        → (units * 8 == 0) ≡ false
        → ltb (length payload) (i + units * 8) ≡ false
        → Returns (
            if ((opt_type == 1) || (opt_type == 2)) && leb 8 (units * 8)
            then (slice payload (i + 2) (i + 8) >>= λ bytes.
                to_mac bytes >>= λ mac. next (i + units * 8) (some mac))
            else next (i + units * 8) link)
    ndp_rest-Returns opt_type units inside some_units fits =
        elim (Bool-cases (((opt_type == 1) || (opt_type == 2)) && leb 8 (units * 8))) [
          | inl e ↦ rw e (
              address_then next i (i + units * 8) (ground arith)
                (λ l. go (i + units * 8) l (ground arith) (omega arith)))
          | inr e ↦ rw e (go (i + units * 8) link (ground arith) (omega arith))
        ]

    ndp_round-Returns : Returns (ndp_round payload next i link)
    unfolding ndp_round
    ndp_round-Returns = elim (Bool-cases (leb (i + 2) (length payload))) [
      | inr e ↦ rw e (value link)
      | inl e ↦
          let inside = leb→le (i + 2) (length payload) e in
          rw e (
            index_then payload i _ (omega arith) λ opt_type.
              index_then payload (i + 1) _ (omega arith) λ units.
                elim (Bool-cases (units * 8 == 0)) [
                  | inl empty ↦ rw empty (value link)
                  | inr some_units ↦
                      rw some_units (elim (Bool-cases (ltb (length payload) (i + units * 8))) [
                        | inl cut ↦ rw cut (value link)
                        | inr fits ↦
                            rw fits (ndp_rest-Returns opt_type units inside some_units fits)
                      ])
                ])
    ]

    na_rest-Returns :
        (opt_type units : ℕ)
        → i + 2 ≤ length payload
        → (units * 8 == 0) ≡ false
        → Returns (
            if (opt_type == 2) && (leb 8 (units * 8) && leb (i + 8) (length payload))
            then (slice payload (i + 2) (i + 8) >>= λ bytes.
                to_mac bytes >>= λ mac. next (i + units * 8) (some mac))
            else next (i + units * 8) link)
    na_rest-Returns opt_type units inside some_units =
        elim (Bool-cases ((opt_type == 2) && (leb 8 (units * 8) && leb (i + 8) (length payload)))) [
          | inl e ↦ rw e (
              address_then next i (i + units * 8) (ground arith)
                (λ l. go (i + units * 8) l (ground arith) (omega arith)))
          | inr e ↦ rw e (go (i + units * 8) link (ground arith) (omega arith))
        ]

    na_round-Returns : Returns (na_round payload next i link)
    unfolding na_round
    na_round-Returns = elim (Bool-cases (leb (i + 2) (length payload))) [
      | inr e ↦ rw e (value link)
      | inl e ↦
          let inside = leb→le (i + 2) (length payload) e in
          rw e (
            index_then payload i _ (omega arith) λ opt_type.
              index_then payload (i + 1) _ (omega arith) λ units.
                elim (Bool-cases (units * 8 == 0)) [
                  | inl empty ↦ rw empty (value link)
                  | inr some_units ↦
                      rw some_units (na_rest-Returns opt_type units inside some_units)
                ])
    ]

  ndp_loop-Returns :
      (fuel i : ℕ) (link : Link)
      → length payload - i < fuel
      → Returns (ndp_loop fuel payload i link)
  unfolding ndp_loop
  ndp_loop-Returns zero i link h = absurd (omega arith)
  ndp_loop-Returns (suc fuel) i link h =
      ndp_round-Returns (ndp_loop fuel payload) i link
        λ j l further inside. ndp_loop-Returns fuel j l (omega arith)

  na_loop-Returns :
      (fuel i : ℕ) (link : Link) → length payload - i < fuel → Returns (na_loop fuel payload i link)
  unfolding na_loop
  na_loop-Returns zero i link h = absurd (omega arith)
  na_loop-Returns (suc fuel) i link h =
      na_round-Returns (na_loop fuel payload) i link
        λ j l further inside. na_loop-Returns fuel j l (omega arith)

  -- On every payload the parsers of neighbour discovery messages and of neighbour advertisements
  -- return a value or an error: their loops end, and no read is out of bounds.
  pub icmpv6-Returns : Returns (parse_ndp payload) × Returns (parse_neighbor_advertisement payload)
  unfolding parse_ndp parse_neighbor_advertisement
  icmpv6-Returns = (
    (bail_then _ _ _ λ e.
        let long = ltb→le (length payload) 24 e in
        index_then payload 0 _ (omega arith) λ msg_type.
          slice_then payload 8 24 _ (omega arith) (omega arith) λ target n.
            octets16_then target _ (omega arith) λ addr.
              bind_then _ _ (ndp_loop-Returns (suc (length payload)) 24 none (omega arith))
                (λ link. value _)),
    (bail_then _ _ _ λ e.
        let long = ltb→le (length payload) 24 e in
        index_then payload 0 _ (omega arith) λ msg_type. bail_then _ _ _ λ is_na.
          slice_then payload 8 24 _ (omega arith) (omega arith) λ target n.
            octets16_then target _ (omega arith) λ addr.
              bind_then _ _ (na_loop-Returns (suc (length payload)) 24 none (omega arith))
                (λ link. value _)),
  )
