-- ===== src/NetProto/Dhcp/Returns.antt =====
-- The loops of crates/nac-netproto/src/dhcp.rs end, and no payload makes the parsers panic.
use lentropy.Common.{
  ℕ, zero, suc, ◌+◌, ◌-◌, ◌<◌, ◌≤◌, ◌≡◌, ◌&&◌, inl, inr, List, length, Bool-cases, ltb, ltb→lt,
  ltb→le, leb, ◌==◌, arith, if◌then◌else◌, false,
}
use lentropy.Outcome.{
  Outcome, ok, index, slice, Returns, value, ◌>>=◌, bail_then, index_then, slice_then, mac_then,
  bind_then,
}
use lentropy.NetProto.{NetProtoError}
use lentropy.NetProto.Dhcp.{
  read_lease, lease_round, lease_loop, parse_dhcp_binding, ClientOptions, no_options, apply_option,
  option_round, option_loop, parse_dhcp_client,
}

module _ (payload : List ℕ) where
  read_lease-Returns : (i code len lease : ℕ) → Returns (read_lease payload i code len lease)
  unfolding read_lease
  read_lease-Returns i code len lease =
      elim (Bool-cases ((code == 51) && ((len == 4) && leb (i + 2 + len) (length payload)))) [
        | inr e ↦ rw e (value lease)
        | inl e ↦
            let long : i + 6 ≤ length payload = ground arith in
            rw e (
              index_then payload (i + 2) _ (omega arith) λ _.
                index_then payload (i + 3) _ (omega arith) λ _.
                  index_then payload (i + 4) _ (omega arith)
                    λ _. index_then payload (i + 5) _ (omega arith) λ _. value _)
      ]

  lease_round-Returns :
      (next : ℕ → ℕ → Outcome NetProtoError ℕ) (i lease : ℕ)
      → ((j l : ℕ) → i < j → i < length payload → Returns (next j l))
      → Returns (lease_round payload next i lease)
  unfolding lease_round
  lease_round-Returns next i lease go = elim (Bool-cases (ltb (i + 1) (length payload))) [
    | inr e ↦ rw e (value lease)
    | inl e ↦
        let inside = ltb→lt (i + 1) (length payload) e in
        rw e (
          index_then payload i _ (omega arith) λ code. elim (Bool-cases (code == 255)) [
            | inl end ↦ rw end (value lease)
            | inr more ↦ rw more (elim (Bool-cases (code == 0)) [
              | inl pad ↦ rw pad (go (i + 1) lease (omega arith) (omega arith))
              | inr tlv ↦ rw tlv (
                  index_then payload (i + 1) _ (omega arith) λ len.
                    bind_then (read_lease payload i code len lease) _
                      (read_lease-Returns i code len lease)
                      (λ l. go (i + (2 + len)) l (omega arith) (omega arith)))
            ])
          ])
  ]

  lease_loop-Returns :
      (fuel i lease : ℕ) → length payload - i < fuel → Returns (lease_loop fuel payload i lease)
  unfolding lease_loop
  lease_loop-Returns zero i lease h = absurd (omega arith)
  lease_loop-Returns (suc fuel) i lease h =
      lease_round-Returns (lease_loop fuel payload) i lease
        λ j l further inside. lease_loop-Returns fuel j l (omega arith)

  option_round-Returns :
      (next : ℕ → ClientOptions → Outcome NetProtoError ClientOptions) (i : ℕ) (o : ClientOptions)
      → ((j : ℕ) (p : ClientOptions) → i < j → i < length payload → Returns (next j p))
      → Returns (option_round payload next i o)
  unfolding option_round
  option_round-Returns next i o go = elim (Bool-cases (ltb i (length payload))) [
    | inr e ↦ rw e (value o)
    | inl e ↦
        let inside = ltb→lt i (length payload) e in
        rw e (
          index_then payload i _ inside λ code. elim (Bool-cases (code == 255)) [
            | inl end ↦ rw end (value o)
            | inr more ↦ rw more (elim (Bool-cases (code == 0)) [
              | inl pad ↦ rw pad (go (i + 1) o (omega arith) inside)
              | inr tlv ↦ rw tlv (elim (Bool-cases (leb (length payload) (i + 1))) [
                | inl cut ↦ rw cut (value o)
                | inr room ↦ rw room (tail_Returns code inside room)
              ])
            ])
          ])
  ]
    where
      tail_Returns :
          (code : ℕ)
          → i < length payload
          → leb (length payload) (i + 1) ≡ false
          → Returns (
              index payload (i + 1) >>= λ len.
              if ltb (length payload) (i + 2 + len)
              then ok o
              else slice payload (i + 2) (i + 2 + len) >>= λ bytes.
                  next (i + 2 + len) (apply_option code bytes o))
      tail_Returns code inside room = index_then payload (i + 1) _ (ground arith) λ len.
          elim (Bool-cases (ltb (length payload) (i + 2 + len))) [
            | inl cut ↦ rw cut (value o)
            | inr whole ↦
                let fits = ltb→le (length payload) (i + 2 + len) whole in
                rw whole (
                  slice_then payload (i + 2) (i + 2 + len) _ (omega arith) fits
                    λ bytes _. go (i + 2 + len) _ (omega arith) inside)
          ]

  option_loop-Returns :
      (fuel i : ℕ) (o : ClientOptions)
      → length payload - i < fuel
      → Returns (option_loop fuel payload i o)
  unfolding option_loop
  option_loop-Returns zero i o h = absurd (omega arith)
  option_loop-Returns (suc fuel) i o h =
      option_round-Returns (option_loop fuel payload) i o
        λ j p further inside. option_loop-Returns fuel j p (omega arith)

  -- On every payload the parser of server messages returns a value or an error: it does not read
  -- out of bounds, and its loop ends.
  pub parse_dhcp_binding-Returns : Returns (parse_dhcp_binding payload)
  unfolding parse_dhcp_binding
  parse_dhcp_binding-Returns = bail_then _ _ _ λ long_enough.
      let long = ltb→le (length payload) 236 long_enough in
      index_then payload 0 _ (omega arith) λ op. bail_then _ _ _ λ _.
        slice_then payload 28 34 _ (omega arith) (omega arith) λ bytes six.
          mac_then bytes _ (omega arith) λ _. index_then payload 16 _ (omega arith) λ _.
            index_then payload 17 _ (omega arith) λ _. index_then payload 18 _ (omega arith) λ _.
              index_then payload 19 _ (omega arith) λ _.
                bind_then _ _ (lease_loop-Returns (suc (length payload)) 240 86400 (omega arith))
                  (λ l. value _)

  -- On every payload the parser of client messages returns a value or an error.
  pub parse_dhcp_client-Returns : Returns (parse_dhcp_client payload)
  unfolding parse_dhcp_client
  parse_dhcp_client-Returns = bail_then _ _ _ λ long_enough.
      let long = ltb→le (length payload) 240 long_enough in
      index_then payload 0 _ (omega arith) λ op. bail_then _ _ _ λ _.
        slice_then payload 28 34 _ (omega arith) (omega arith) λ bytes six.
          mac_then bytes _ (omega arith) λ _.
            bind_then _ _ (option_loop-Returns (suc (length payload)) 240 no_options (omega arith))
              (λ o. value _)
