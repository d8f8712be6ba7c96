-- ===== src/Enforcement/Consumer/Keeps.antt =====
-- What the steps of a command in services/enforcement/src/consumer.rs leave as it was.
use lentropy.Common.{
  ◌≡◌, refl, ◌∙◌, inl, inr, Bool-cases, Option-cases, Option, none, some, [], ◌∷◌, Text, text_eq,
}
use lentropy.Common.Net.{parse_ipv4}
use lentropy.Outcome.{ok, err, panic, timeout, Mac, Ipv4}
use lentropy.Enforcement.Legacy.{Answer, success, failure, not_started}
use lentropy.Enforcement.Firewall.{
  SetName, blocked_ips, quarantined_ips, nft, iptables_legacy, unavailable, Firewall, Done, Change,
  delete, answered, nft_del_elem, remove_ip,
}
use lentropy.Enforcement.Spoofer.{Sent}
use lentropy.Enforcement.Consumer.{
  EnforcementCommand, NacAction, QuarantineEntry, QuarantineState, get, remove, World, Handled,
  parse_mac, is_no_address, Host, key, changed_ip, ip_eq, update_state, drop_old_ip, gateway_of,
  poison, poisoned, spoof_if, spoof_command, after_firewall,
}

pub get-remove : (k : Text) (s : QuarantineState) → get k (remove k s) ≡ none
unfolding get remove
get-remove k [] = refl
get-remove k ((k', e) ∷ rest) = elim (Bool-cases (text_eq k' k)) [
  | inl h ↦ rw (h, get-remove k rest)
  | inr h ↦ rw (h, get, h, get-remove k rest)
]

module _ (host : Host) where
  open host use {tools}

  pub poisoned-firewall :
      (update : World → World) (w : World) (s : Sent)
      → ((v : World) → (update v).firewall ≡ v.firewall)
      → (poisoned host update w s).1.firewall ≡ w.firewall
  poisoned-firewall update w (ok _, s) h = h _
  poisoned-firewall update w (err e, s) h = refl
  poisoned-firewall update w (panic, s) h = refl
  poisoned-firewall update w (timeout, s) h = refl

  pub poisoned-state : (w : World) (s : Sent) → (poisoned host (λ v. v) w s).1.state ≡ w.state
  poisoned-state w (ok _, s) = refl
  poisoned-state w (err e, s) = refl
  poisoned-state w (panic, s) = refl
  poisoned-state w (timeout, s) = refl

  spoof_if-firewall :
      (cmd : EnforcementCommand) (action : NacAction) (ip : Option Ipv4) (mac : Option Mac)
      (gw : Option Ipv4) (w : World)
      → (spoof_if host cmd action ip mac gw w).1.firewall ≡ w.firewall
  unfolding update_state
  spoof_if-firewall cmd action (some ip) (some mac) (some gw) w = elim (Option-cases w.spoofer) [
    | inl e ↦ rw e refl
    | inr (s, e) ↦ rw e (
        poisoned-firewall (update_state host cmd ip mac gw action) w
          (poison host action ip mac gw s) λ v. refl)
  ]
  spoof_if-firewall cmd action none mac gw w = refl
  spoof_if-firewall cmd action (some ip) none gw w = refl
  spoof_if-firewall cmd action (some ip) (some mac) none w = refl

  pub spoof_command-firewall :
      (cmd : EnforcementCommand) (action : NacAction) (w : World)
      → (spoof_command host cmd action w).1.firewall ≡ w.firewall
  unfolding spoof_command
  spoof_command-firewall cmd action w = elim (Bool-cases (is_no_address cmd.ip_address)) [
    | inl h ↦ rw h refl
    | inr h ↦ rw h (
        spoof_if-firewall cmd action (parse_ipv4 cmd.ip_address) (parse_mac cmd.mac_address)
          (gateway_of host cmd) w)
  ]

  pub after_firewall-firewall :
      (w : World) (rest : World → Handled) (d : Done)
      → ((v : World) → (rest v).1.firewall ≡ v.firewall)
      → (after_firewall host w rest d).1.firewall ≡ d.1
  after_firewall-firewall w rest (ok _, fw) h = h _
  after_firewall-firewall w rest (err e, fw) h = refl
  after_firewall-firewall w rest (panic, fw) h = refl
  after_firewall-firewall w rest (timeout, fw) h = refl

  pub after_firewall-ok :
      (w : World) (rest : World → Handled) (d : Done)
      → (after_firewall host w rest d).0 ≡ ok tt
      → d.0 ≡ ok tt
  after_firewall-ok w rest (ok _, fw) h = refl
  after_firewall-ok w rest (err e, fw) h = absurd cc
  after_firewall-ok w rest (panic, fw) h = absurd cc
  after_firewall-ok w rest (timeout, fw) h = absurd cc

  answered-backend :
      (fw : Firewall) (change : Change) (set : SetName) (elem : Text) (a : Answer)
      → (answered tools fw change set elem a).1.backend ≡ fw.backend
  answered-backend fw change set elem success = refl
  answered-backend fw change set elem (failure _) = refl
  answered-backend fw change set elem not_started = refl

  remove_ip-backend : (ip : Text) (fw : Firewall) → (remove_ip tools ip fw).backend ≡ fw.backend
  unfolding remove_ip nft_del_elem
  remove_ip-backend ip fw =
      elim fw.backend
        as (λ b.
          (elim b as (λ _. Firewall) [
            | nft ↦ nft_del_elem tools quarantined_ips ip (nft_del_elem tools blocked_ips ip fw)
            | _ ↦ fw
          ]).backend
          ≡ fw.backend) [
            | nft ↦
                answered-backend _ delete quarantined_ips ip _
                ∙ answered-backend fw delete blocked_ips ip _
            | iptables_legacy ↦ refl
            | unavailable ↦ refl
          ]

  changed_ip-backend :
      (e : Option QuarantineEntry) (ip : Option Ipv4) (fw : Firewall)
      → (changed_ip host e ip fw).backend ≡ fw.backend
  changed_ip-backend none ip fw = refl
  changed_ip-backend (some e) none fw = refl
  changed_ip-backend (some e) (some ip) fw = elim (Bool-cases (ip_eq e.victim_ip ip)) [
    | inl h ↦ rw h refl
    | inr h ↦ rw h (remove_ip-backend _ fw)
  ]

  pub drop_old_ip-backend :
      (cmd : EnforcementCommand) (w : World) → (drop_old_ip host cmd w).backend ≡ w.firewall.backend
  unfolding drop_old_ip
  drop_old_ip-backend cmd w = elim (Bool-cases (is_no_address cmd.ip_address)) [
    | inl h ↦ rw h refl
    | inr h ↦
        rw h
          (changed_ip-backend (get (key host cmd) w.state) (parse_ipv4 cmd.ip_address) w.firewall)
  ]
