-- ===== src/Enforcement/Firewall/Sets.antt =====
-- What the operations of `IptablesEnforcer` (services/enforcement/src/iptables.rs) do to the four
-- sets of the nft backend.
use lentropy.Common.{◌≡◌, refl, ◌∙◌, true, false, Option, none, some, Text, if◌then◌else◌}
use lentropy.Outcome.{ok}
use lentropy.Enforcement.Firewall.{
  SetName, blocked_macs, quarantined_macs, blocked_ips, quarantined_ips, set_eq, nft, Firewall,
  Done, Tools, nft_add_elem, nft_del_elem, nft_mac, usable, added, block, quarantine, clear_ip,
  allow,
}
use lentropy.Enforcement.Firewall.Changes.{
  add-present, add-other, del-other, del-gone, added-ok, added-other, SaysExists, Deletes,
}

module _ (tools : Tools) where
  open tools use {run_nft}

  abbrev moved : SetName → SetName → SetName → SetName → Text → Option Text → Firewall → Done
  moved from to from_ip to_ip m ip fw =
      added tools from_ip to_ip ip (nft_add_elem tools to m (nft_del_elem tools from m fw))

  -- What the two moves share; the sets of IP addresses are not those of MAC addresses.
  move_lem :
      SaysExists tools
      → Deletes tools
      → (from to from_ip to_ip : SetName) (m : Text) (ip : Option Text) (fw : Firewall)
      → set_eq from to ≡ false
      → set_eq from from_ip ≡ false
      → set_eq from to_ip ≡ false
      → set_eq to from_ip ≡ false
      → set_eq to to_ip ≡ false
      → (moved from to from_ip to_ip m ip fw).0 ≡ ok tt
      → ((moved from to from_ip to_ip m ip fw).1.members to m ≡ true)
        × ((moved from to from_ip to_ip m ip fw).1.members from m ≡ false)
  move_lem says deletes from to from_ip to_ip m ip fw a b c d e h =
      let fw' = nft_del_elem tools from m fw in
      let step = nft_add_elem tools to m fw' in
      (
        added-other tools from_ip to_ip ip step to m d e
            ∙ add-present tools says to m fw' (added-ok tools from_ip to_ip ip step h),
        added-other tools from_ip to_ip ip step from m b c
            ∙ add-other tools to m fw' from m (rw a refl)
            ∙ del-gone tools deletes from m fw,
      )

  block-nft :
      (mac : Text) (ip : Option Text) (fw : Firewall)
      → fw.backend ≡ nft
      → block tools mac ip fw
        ≡ moved quarantined_macs blocked_macs quarantined_ips blocked_ips (nft_mac tools mac) ip fw
  unfolding block
  block-nft mac ip fw h = rw h refl

  quarantine-nft :
      (mac : Text) (ip : Option Text) (fw : Firewall)
      → fw.backend ≡ nft
      → quarantine tools mac ip fw
        ≡ moved blocked_macs quarantined_macs blocked_ips quarantined_ips (nft_mac tools mac) ip fw
  unfolding quarantine
  quarantine-nft mac ip fw h = rw h refl

  -- With nft, if it reports as existing only elements that exist and fails to delete only missing
  -- ones, then after `block` succeeds the MAC address is blocked and not quarantined.
  pub block-moves :
      SaysExists tools
      → Deletes tools
      → (mac : Text) (ip : Option Text) (fw : Firewall) → fw.backend ≡ nft
      → (block tools mac ip fw).0 ≡ ok tt
      → ((block tools mac ip fw).1.members blocked_macs (nft_mac tools mac) ≡ true)
        × ((block tools mac ip fw).1.members quarantined_macs (nft_mac tools mac) ≡ false)
  block-moves says deletes mac ip fw is_nft = rw (block-nft mac ip fw is_nft) (
      move_lem says deletes quarantined_macs blocked_macs quarantined_ips blocked_ips _ ip fw refl
        refl refl refl refl)

  -- With nft, under the same conditions on the tool, after `quarantine` succeeds the MAC address is
  -- quarantined and not blocked.
  pub quarantine-moves :
      SaysExists tools
      → Deletes tools
      → (mac : Text) (ip : Option Text) (fw : Firewall) → fw.backend ≡ nft
      → (quarantine tools mac ip fw).0 ≡ ok tt
      → ((quarantine tools mac ip fw).1.members quarantined_macs (nft_mac tools mac) ≡ true)
        × ((quarantine tools mac ip fw).1.members blocked_macs (nft_mac tools mac) ≡ false)
  quarantine-moves says deletes mac ip fw is_nft = rw (quarantine-nft mac ip fw is_nft) (
      move_lem says deletes blocked_macs quarantined_macs blocked_ips quarantined_ips _ ip fw refl
        refl refl refl refl)

  clear_ip-other :
      (ip : Option Text) (fw : Firewall) (s : SetName) (e : Text)
      → set_eq s blocked_ips ≡ false
      → set_eq s quarantined_ips ≡ false
      → (clear_ip tools ip fw).members s e ≡ fw.members s e
  clear_ip-other none fw s e h k = refl
  clear_ip-other (some ip) fw s e h k =
      elim (usable tools ip)
        as (λ b.
          (if b
              then nft_del_elem tools quarantined_ips ip (nft_del_elem tools blocked_ips ip fw)
              else fw).members
            s e
          ≡ fw.members s e) [
            | true ↦
                del-other tools quarantined_ips ip _ s e (rw k refl)
                ∙ del-other tools blocked_ips ip fw s e (rw h refl)
            | false ↦ refl
          ]

  clear_ip-gone :
      Deletes tools
      → (ip : Text) (fw : Firewall) → usable tools ip ≡ true
      → ((clear_ip tools (some ip) fw).members blocked_ips ip ≡ false)
        × ((clear_ip tools (some ip) fw).members quarantined_ips ip ≡ false)
  clear_ip-gone deletes ip fw is_usable =
      let fw' = nft_del_elem tools blocked_ips ip fw in
      rw is_usable (
        del-other tools quarantined_ips ip fw' blocked_ips ip refl
            ∙ del-gone tools deletes blocked_ips ip fw,
        del-gone tools deletes quarantined_ips ip fw',
      )

  allow-nft :
      (mac : Text) (ip : Option Text) (fw : Firewall)
      → fw.backend ≡ nft
      → allow tools mac ip fw ≡ (
        ok tt,
        clear_ip tools ip (
            nft_del_elem tools quarantined_macs
              (nft_mac tools mac)
              (nft_del_elem tools blocked_macs (nft_mac tools mac) fw)),
      )
  unfolding allow
  allow-nft mac ip fw h = rw h refl

  -- With nft, if it fails to delete only missing elements, `allow` succeeds, and the MAC address and
  -- the IP address, which is not empty and not 0.0.0.0, are then in no set.
  pub allow-clears :
      Deletes tools
      → (mac ip : Text) (fw : Firewall) → fw.backend ≡ nft
      → usable tools ip ≡ true
      → let (result, after) = allow tools mac (some ip) fw in
        (result ≡ ok tt)
        × (after.members blocked_macs (nft_mac tools mac) ≡ false)
        × (after.members quarantined_macs (nft_mac tools mac) ≡ false)
        × (after.members blocked_ips ip ≡ false)
        × (after.members quarantined_ips ip ≡ false)
  allow-clears deletes mac ip fw is_nft is_usable =
      let m = nft_mac tools mac in
      let fw₁ = nft_del_elem tools blocked_macs m fw in
      let fw₂ = nft_del_elem tools quarantined_macs m fw₁ in
      rw (allow-nft mac (some ip) fw is_nft) (
        refl,
        clear_ip-other (some ip) fw₂ blocked_macs m refl refl
            ∙ del-other tools quarantined_macs m fw₁ blocked_macs m refl
            ∙ del-gone tools deletes blocked_macs m fw,
        clear_ip-other (some ip) fw₂ quarantined_macs m refl refl
            ∙ del-gone tools deletes quarantined_macs m fw₁,
        (clear_ip-gone deletes ip fw₂ is_usable).0,
        (clear_ip-gone deletes ip fw₂ is_usable).1,
      )
