-- ===== src/Enforcement/Consumer.antt =====
-- services/enforcement/src/consumer.rs: the handlers of enforcement commands over the firewall, the
-- spoofer and the map of devices whose ARP entries are kept poisoned. A lock is never poisoned, so
-- the handlers run one after the other. The contents of /proc/net/route and /proc/net/arp, and the
-- name under which `str::to_lowercase` files a device, are parameters.
pub mod Keeps
pub mod Effects
use lentropy.Common.{
  or_else, unwrap_or, and_then, ℕ, ◌+◌, ◌*◌, Bool, true, false, not, ◌&&◌, ◌||◌, Option, none, some,
  List, [], ◌∷◌, length, codes, Text, text_eq, String, str_eq, if◌then◌else◌, ◌==◌, ◌≡◌, refl,
}
use lentropy.Common.Digits.{hex_digits}
use lentropy.Common.Net.{before, parse_ipv4, ipv4_text, hex_value}
use lentropy.NetProto.Arp.{broadcast}
use lentropy.Outcome.{Outcome, ok, err, panic, timeout, Mac, Ipv4}
use lentropy.Enforcement.Firewall.{Firewall, FirewallError, Done, Tools}
use lentropy.Enforcement.Firewall
use lentropy.Enforcement.Proc.{detect_default_gateway, get_arp_mac}
use lentropy.Enforcement.Spoofer.{Spoofer, SendError, Sent}
use lentropy.Enforcement.Spoofer

pub record EnforcementCommand : Type 0 where
  pub mac_address : Text
  pub ip_address : Text
  pub action : String
  pub gateway_ip : Text
  pub gateway_mac : Option Text
  pub vlan_id : Option ℕ

pub data NacAction : Type 0 where
  block quarantine : NacAction

pub record QuarantineEntry : Type 0 where
  pub victim_ip : Ipv4
  pub victim_mac : Mac
  pub gateway_ip : Ipv4
  pub action : NacAction

-- `HashMap<String, QuarantineEntry>`.
abbrev pub QuarantineState : Type 0
QuarantineState = List (Text × QuarantineEntry)

unfoldable pub get : Text → QuarantineState → Option QuarantineEntry
get key [] = none
get key ((k, e) ∷ rest) = if text_eq k key then some e else get key rest

unfoldable pub remove : Text → QuarantineState → QuarantineState
remove key [] = []
remove key ((k, e) ∷ rest) =
    let others = remove key rest in if text_eq k key then others else (k, e) ∷ others

unfoldable pub insert : Text → QuarantineEntry → QuarantineState → QuarantineState
insert key e state = (key, e) ∷ remove key state

pub record World : Type 0 where
  pub firewall : Firewall
  pub spoofer : Option Spoofer
  pub state : QuarantineState

pub data CommandError : Type 0 where
  firewall_failed : FirewallError → CommandError
  spoofer_failed : SendError → CommandError

abbrev pub Handled : Type 0
Handled = Outcome CommandError (Unit {0}) × World

unfoldable pub is_allow_action : String → Bool
is_allow_action action = str_eq action "allowed" || str_eq action "allow"

unfoldable pub map_action : String → NacAction
map_action action =
    if str_eq action "denied" || (str_eq action "block" || str_eq action "blocked")
    then block
    else quarantine

byte : ℕ → ℕ → ℕ
byte hi lo = hex_value hi * 16 + hex_value lo

twelve : Text → Option Mac
unfolding byte
twelve (a ∷ b ∷ c ∷ d ∷ e ∷ f ∷ g ∷ h ∷ i ∷ j ∷ k ∷ l ∷ []) =
    some (byte a b, byte c d, byte e f, byte g h, byte i j, byte k l)
twelve _ = none

unfoldable pub parse_mac : Text → Option Mac
unfolding twelve
parse_mac mac = twelve (hex_digits mac)

-- `s.is_empty() || s == "0.0.0.0"`.
abbrev pub is_no_address : Text → Bool
is_no_address s = text_eq s [] || text_eq s (codes "0.0.0.0")

abbrev pub ip_opt : Text → Option Text
ip_opt s = if is_no_address s then none else some s

abbrev pub ip_eq : Ipv4 → Ipv4 → Bool
ip_eq (a, b, c, d) (a', b', c', d') = (a == a') && ((b == b') && ((c == c') && (d == d')))

pub record Host : Type 0 where
  pub tools : Tools
  pub takes : List (List ℕ) → List ℕ → Bool
  -- The contents of /proc/net/route and /proc/net/arp, if they can be read.
  pub proc_route : Option Text
  pub proc_arp : Option Text

module _ (host : Host) where
  open host use {tools, takes, proc_route, proc_arp}

  abbrev pub key : EnforcementCommand → Text
  key cmd = tools.to_lowercase cmd.mac_address

  -- The device has another IP address than before: the old one leaves the sets.
  abbrev changed_ip : Option QuarantineEntry → Option Ipv4 → Firewall → Firewall
  changed_ip (some e) (some new_ip) fw =
      if ip_eq e.victim_ip new_ip then fw else Firewall.remove_ip tools (ipv4_text e.victim_ip) fw
  changed_ip _ _ fw = fw

  unfoldable pub drop_old_ip : EnforcementCommand → World → Firewall
  drop_old_ip cmd w =
      if is_no_address cmd.ip_address
      then w.firewall
      else changed_ip (get (key cmd) w.state) (parse_ipv4 cmd.ip_address) w.firewall

  unfoldable pub update_state : EnforcementCommand → Ipv4 → Mac → Ipv4 → NacAction → World → World
  unfolding insert
  update_state cmd victim_ip victim_mac gateway_ip action w = record w {
    state =
        insert (key cmd)
          (record {
            victim_ip = victim_ip;
            victim_mac = victim_mac;
            gateway_ip = gateway_ip;
            action = action;
          })
          w.state;
  }

  unfoldable pub gateway_of : EnforcementCommand → Option Ipv4
  gateway_of cmd =
      if is_no_address cmd.gateway_ip
      then detect_default_gateway proc_route
      else parse_ipv4 cmd.gateway_ip

  abbrev enforce : NacAction → Text → Option Text → Firewall → Done
  enforce block mac ip fw = Firewall.block tools mac ip fw
  enforce quarantine mac ip fw = Firewall.quarantine tools mac ip fw

  abbrev poison : NacAction → Ipv4 → Mac → Ipv4 → Spoofer → Sent
  poison block = Spoofer.block takes (get_arp_mac proc_arp)
  poison quarantine = Spoofer.quarantine takes (get_arp_mac proc_arp)

  -- After the frames: the state is updated only if they were sent.
  abbrev poisoned : (World → World) → World → Sent → Handled
  poisoned update w (ok _, s) = (ok tt, update (record w { spoofer = some s }))
  poisoned update w (err e, s) = (err (spoofer_failed e), record w { spoofer = some s })
  poisoned update w (panic, s) = (panic, record w { spoofer = some s })
  poisoned update w (timeout, s) = (timeout, record w { spoofer = some s })

  abbrev spoof_known : EnforcementCommand → NacAction → Ipv4 → Mac → Ipv4 → World → Handled
  spoof_known cmd action victim_ip victim_mac gateway_ip w =
      let update = update_state cmd victim_ip victim_mac gateway_ip action in
      elim w.spoofer [
        | none ↦ (ok tt, update w)
        | some s ↦ poisoned update w (poison action victim_ip victim_mac gateway_ip s)
      ]

  abbrev spoof_if :
      EnforcementCommand → NacAction → Option Ipv4 → Option Mac → Option Ipv4 → World → Handled
  spoof_if cmd action (some ip) (some mac) (some gw) w = spoof_known cmd action ip mac gw w
  spoof_if cmd action _ _ _ w = (ok tt, w)

  unfoldable pub spoof_command : EnforcementCommand → NacAction → World → Handled
  unfolding parse_mac gateway_of update_state
  spoof_command cmd action w =
      if is_no_address cmd.ip_address
      then (ok tt, w)
      else spoof_if cmd action (parse_ipv4 cmd.ip_address) (parse_mac cmd.mac_address)
          (gateway_of cmd) w

  -- `?` on what the firewall did.
  abbrev after_firewall : World → (World → Handled) → Done → Handled
  after_firewall w rest (ok _, fw) = rest (record w { firewall = fw })
  after_firewall w rest (err e, fw) = (err (firewall_failed e), record w { firewall = fw })
  after_firewall w rest (panic, fw) = (panic, record w { firewall = fw })
  after_firewall w rest (timeout, fw) = (timeout, record w { firewall = fw })

  unfoldable pub execute_command : EnforcementCommand → World → Handled
  unfolding drop_old_ip spoof_command
  execute_command cmd w =
      let action = map_action cmd.action in
      after_firewall w (spoof_command cmd action)
        (enforce action cmd.mac_address (ip_opt cmd.ip_address) (drop_old_ip cmd w))

  abbrev restore : Ipv4 → EnforcementCommand → Option Mac → Option Ipv4 → World → Handled
  restore gateway_ip cmd (some victim_mac) (some victim_ip) w =
      let gateway_mac =
        unwrap_or (or_else (and_then cmd.gateway_mac parse_mac) (get_arp_mac proc_arp gateway_ip))
          broadcast in
      elim w.spoofer [
        | none ↦ (ok tt, w)
        | some s ↦
            poisoned (λ w'. w') w
              (Spoofer.allow takes victim_ip victim_mac gateway_ip gateway_mac s)
      ]
  restore gateway_ip cmd _ _ w = (ok tt, w)

  unfoldable pub restore_arp : EnforcementCommand → World → Handled
  unfolding parse_mac remove
  restore_arp cmd w =
      let entry = get (key cmd) w.state in
      restore
        (unwrap_or
          (or_else (and_then entry λ e. some e.gateway_ip) (detect_default_gateway proc_route))
          (0, 0, 0, 0))
        cmd (or_else (and_then entry λ e. some e.victim_mac) (parse_mac cmd.mac_address))
        (or_else (and_then entry λ e. some e.victim_ip) (parse_ipv4 cmd.ip_address))
        (record w { state = remove (key cmd) w.state })

  unfoldable pub execute_allow : EnforcementCommand → World → Handled
  unfolding restore_arp
  execute_allow cmd w =
      after_firewall w (restore_arp cmd)
        (Firewall.allow tools cmd.mac_address (ip_opt cmd.ip_address) w.firewall)

  -- One round of the loop of `run`; what is returned is only logged. A database address may end in
  -- its prefix's length.
  unfoldable pub handle : EnforcementCommand → World → Handled
  handle cmd w =
      let stripped = record cmd { ip_address = before b'/' cmd.ip_address } in
      if is_allow_action stripped.action
      then execute_allow stripped w
      else execute_command stripped w
