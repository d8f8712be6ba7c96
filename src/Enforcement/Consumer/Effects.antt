-- ===== src/Enforcement/Consumer/Effects.antt =====
-- What a command of services/enforcement/src/consumer.rs leaves in the firewall's sets and in the map
-- of poisoned devices.
use native.Mathlib.Omega.{arith}
use lentropy.Common.{
  ◌≡◌, refl, ◌∙◌, inl, inr, true, false, Option-cases, Option, none, some, Text, and_then, or_else,
  unwrap_or,
}
use lentropy.Common.Net.{before}
use lentropy.Outcome.{ok, err, panic, timeout, Mac, Ipv4}
use lentropy.Enforcement.Firewall.{
  SetName, blocked_macs, quarantined_macs, blocked_ips, quarantined_ips, Members, Backend, nft,
  iptables_legacy, unavailable, Firewall, Done, Tools, Change, delete, answered, nft_mac,
  nft_del_elem, remove_ip, usable,
}
use lentropy.Enforcement.Firewall
use lentropy.Enforcement.Firewall.Changes.{SaysExists, Deletes}
use lentropy.Enforcement.Firewall.Sets.{block-moves, quarantine-moves, allow-clears}
use lentropy.NetProto.Arp.{broadcast}
use lentropy.Enforcement.Proc.{get_arp_mac}
use lentropy.Enforcement.Spoofer.{allow as allow_arp}
use lentropy.Enforcement.Consumer.{
  EnforcementCommand, NacAction, block, quarantine, get, remove, World, Handled, is_allow_action,
  map_action, parse_mac, is_no_address, ip_opt, Host, key, drop_old_ip, enforce, spoof_command,
  after_firewall, execute_command, restore, restore_arp, execute_allow, handle,
}
use lentropy.Enforcement.Consumer.Keeps.{
  get-remove, poisoned-firewall, poisoned-state, spoof_command-firewall, after_firewall-firewall,
  after_firewall-ok, drop_old_ip-backend,
}

module _ (host : Host) where
  open host use {tools}

  -- The set that an action's devices are in, and the other one.
  abbrev pub set_of : NacAction → SetName
  set_of block = blocked_macs
  set_of quarantine = quarantined_macs

  abbrev pub other_set : NacAction → SetName
  other_set block = quarantined_macs
  other_set quarantine = blocked_macs

  enforce_lem :
      SaysExists tools
      → Deletes tools
      → (action : NacAction) (mac : Text) (ip : Option Text) (fw : Firewall) → fw.backend ≡ nft
      → (enforce host action mac ip fw).0 ≡ ok tt
      → ((enforce host action mac ip fw).1.members (set_of action) (nft_mac tools mac) ≡ true)
        × ((enforce host action mac ip fw).1.members (other_set action) (nft_mac tools mac) ≡ false)
  enforce_lem says deletes block = block-moves tools says deletes
  enforce_lem says deletes quarantine = quarantine-moves tools says deletes

  execute_command_lem :
      SaysExists tools
      → Deletes tools
      → (cmd : EnforcementCommand) (w : World) → w.firewall.backend ≡ nft
      → (execute_command host cmd w).0 ≡ ok tt
      → let members = (execute_command host cmd w).1.firewall.members in
        let mac = nft_mac tools cmd.mac_address in
        (members (set_of (map_action cmd.action)) mac ≡ true)
        × (members (other_set (map_action cmd.action)) mac ≡ false)
  unfolding execute_command
  execute_command_lem says deletes cmd w is_nft h =
      let action = map_action cmd.action in
      let d =
        enforce host action cmd.mac_address (ip_opt cmd.ip_address) (drop_old_ip host cmd w) in
      let e =
        after_firewall-firewall host w (spoof_command host cmd action) d
          (spoof_command-firewall host cmd action) in
      rw e (
        enforce_lem says deletes action cmd.mac_address (ip_opt cmd.ip_address) _
          (drop_old_ip-backend host cmd w ∙ is_nft)
          (after_firewall-ok host w (spoof_command host cmd action) d h))

  -- With nft, if it reports as existing only elements that exist and fails to delete only missing
  -- ones, then after a command that is not an allowing one succeeds the device's MAC address is in
  -- the set of the action that the command's text is mapped to, and not in the other.
  pub handle-enforces :
      SaysExists tools
      → Deletes tools
      → (cmd : EnforcementCommand) (w : World) → w.firewall.backend ≡ nft
      → is_allow_action cmd.action ≡ false
      → (handle host cmd w).0 ≡ ok tt
      → let members = (handle host cmd w).1.firewall.members in
        let mac = nft_mac tools cmd.mac_address in
        (members (set_of (map_action cmd.action)) mac ≡ true)
        × (members (other_set (map_action cmd.action)) mac ≡ false)
  unfolding handle
  handle-enforces says deletes cmd w is_nft not_allow =
      rw not_allow (execute_command_lem says deletes _ w is_nft)

  restore-keeps :
      (gw : Ipv4) (cmd : EnforcementCommand) (mac : Option Mac) (ip : Option Ipv4) (w : World)
      → ((restore host gw cmd mac ip w).1.firewall ≡ w.firewall)
        × ((restore host gw cmd mac ip w).1.state ≡ w.state)
  restore-keeps gw cmd (some mac) (some ip) w = elim (Option-cases w.spoofer) [
    | inl e ↦ rw e (refl, refl)
    | inr (s, e) ↦
        let sent =
          allow_arp host.takes ip mac gw
            (unwrap_or (or_else (and_then cmd.gateway_mac parse_mac) (get_arp_mac host.proc_arp gw))
              broadcast)
            s in
        rw e (poisoned-firewall host (λ v. v) w sent λ v. refl, poisoned-state host w sent)
  ]
  restore-keeps gw cmd none ip w = (refl, refl)
  restore-keeps gw cmd (some mac) none w = (refl, refl)

  restore_arp-keeps :
      (cmd : EnforcementCommand) (w : World)
      → ((restore_arp host cmd w).1.firewall ≡ w.firewall)
        × ((restore_arp host cmd w).1.state ≡ remove (key host cmd) w.state)
  unfolding restore_arp
  restore_arp-keeps cmd w =
      restore-keeps _ cmd _ _ (record w { state = remove (key host cmd) w.state })

  after_firewall-then :
      (w : World) (rest : World → Handled) (d : Done)
      → d.0 ≡ ok tt
      → after_firewall host w rest d ≡ rest (record w { firewall = d.1 })
  after_firewall-then w rest (ok _, fw) h = refl
  after_firewall-then w rest (err e, fw) h = absurd cc
  after_firewall-then w rest (panic, fw) h = absurd cc
  after_firewall-then w rest (timeout, fw) h = absurd cc

  execute_allow_lem :
      Deletes tools
      → (cmd : EnforcementCommand) (w : World) → w.firewall.backend ≡ nft
      → is_no_address cmd.ip_address ≡ false
      → let after = (execute_allow host cmd w).1 in
        let members = after.firewall.members in
        (get (key host cmd) after.state ≡ none)
        × (members blocked_macs (nft_mac tools cmd.mac_address) ≡ false)
        × (members quarantined_macs (nft_mac tools cmd.mac_address) ≡ false)
        × (members blocked_ips cmd.ip_address ≡ false)
        × (members quarantined_ips cmd.ip_address ≡ false)
  unfolding execute_allow
  execute_allow_lem deletes cmd w is_nft has_ip =
      let d = Firewall.allow tools cmd.mac_address (some cmd.ip_address) w.firewall in
      let (done, out_b, out_q, ip_b, ip_q) =
        allow-clears tools deletes cmd.mac_address cmd.ip_address w.firewall is_nft
          (ground arith) in
      let w' = record w { firewall = d.1 } in
      let kept = restore_arp-keeps cmd w' in
      rw (has_ip, after_firewall-then w (restore_arp host cmd) d done, kept.0, kept.1)
        (get-remove (key host cmd) w.state, out_b, out_q, ip_b, ip_q)

  -- With nft, and deletions that fail only on missing elements, an allowing command takes the device
  -- out of the map of poisoned devices, and its MAC address and its IP address, which is given and
  -- is not 0.0.0.0 once a prefix's length is cut off, out of every set, also when the command fails
  -- because ARP frames cannot be sent.
  pub handle-allows :
      Deletes tools
      → (cmd : EnforcementCommand) (w : World) → w.firewall.backend ≡ nft
      → is_allow_action cmd.action ≡ true
      → is_no_address (before b'/' cmd.ip_address) ≡ false
      → let after = (handle host cmd w).1 in
        let members = after.firewall.members in
        (get (key host cmd) after.state ≡ none)
        × (members blocked_macs (nft_mac tools cmd.mac_address) ≡ false)
        × (members quarantined_macs (nft_mac tools cmd.mac_address) ≡ false)
        × (members blocked_ips (before b'/' cmd.ip_address) ≡ false)
        × (members quarantined_ips (before b'/' cmd.ip_address) ≡ false)
  unfolding handle
  handle-allows deletes cmd w is_nft is_allow =
      rw is_allow (
        execute_allow_lem deletes (record cmd { ip_address = before b'/' cmd.ip_address }) w is_nft)
