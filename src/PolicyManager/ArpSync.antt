-- ===== src/PolicyManager/ArpSync.antt =====
-- services/policy-manager/src/background.rs: the scan of the ARP table, which runs every 20 seconds.
-- The contents of the files are parameters, and so is the order in which a HashMap is walked.
use lentropy.Common.{
  ℕ, Bool, false, Option, none, some, List, [], ◌∷◌, Text, text_eq, String, str_eq, if◌then◌else◌,
  filter, map,
}
use lentropy.Outcome.{ok}
use lentropy.Exec.{pure, attempt, ◌>>=◌}
use lentropy.Store.Endpoint.{EndpointRow}
use lentropy.Store.Database.{Platform, Db, statement, detected, publish}
use lentropy.Store.Endpoints.{find_by_mac}
use lentropy.PolicyManager.Commands.{strip_cidr, map_some, flatten, is_some, send}
use lentropy.PolicyManager.ArpTable.{
  Dict, lookup, without, insert, collect_into, parse_arp_table, update_ip, detect_default_gateways,
  contains_key,
}

pub record Files : Type 0 where
  pub host_arp_exists : Bool
  pub host_arp : Option Text
  pub arp : Option Text
  pub route : Option Text
  pub seconds : ℕ
  pub order : Dict Text → Dict Text

-- `opt.as_deref() == Some(ip)`.
abbrev pub is_ip : Option Text → Text → Bool
is_ip none ip = false
is_ip (some t) ip = text_eq t ip

abbrev pub action_for : String → Option String
action_for status =
    if str_eq status "denied"
    then some "block"
    else if str_eq status "quarantined"
    then some "quarantine"
    else none

module _ {Json : Type 0} (platform : Platform Json) where
  open platform use {to_lowercase}

  unfoldable pub list_addresses : Db Json (Dict (Option Text))
  list_addresses = statement platform λ n tables.
      ok (map (λ r. (to_lowercase r.mac_address, r.ip_address)) tables.endpoints, tables)

  abbrev send_action : Text → Text → Option String → Db Json (Unit {0})
  send_action mac ip none = pure tt
  send_action mac ip (some action) = send platform mac ip action none

  abbrev pub resend : Text → Text → Option (EndpointRow Json) → Db Json (Unit {0})
  resend mac ip none = pure tt
  resend mac ip (some ep) = send_action mac ip (action_for ep.status)

  -- A change of address that was seen twice.
  unfoldable pub confirm_ip : Text → Text → Db Json (Unit {0})
  confirm_ip mac ip = attempt (update_ip platform mac ip) >>= λ written.
      attempt (find_by_mac platform mac) >>= λ found. resend mac ip (flatten found)

  unfoldable pub announce : Text → Text → ℕ → Db Json (Unit {0})
  announce mac ip now_ts = publish platform (
      detected
        (record { mac_address = mac; ip_address = ip; source = "arp-sync"; timestamp = now_ts }))

  -- A device that the database knows, with the address that it has there.
  unfoldable pub known_device : Option Text → Dict Text → Text → Text → Db Json (Dict Text)
  unfolding confirm_ip strip_cidr lookup without
  known_device old pending mac ip =
      if is_ip (map_some strip_cidr old) ip
      then pure (without mac pending)
      else if is_ip (lookup mac pending) ip
      then (confirm_ip mac ip >>= λ done. pure (without mac pending))
      else pure (insert mac ip pending)

  module _ (gateway_ips : List Text) (existing : Dict (Option Text)) (now_ts : ℕ) where
    unfoldable pub sync_entry : Dict Text → Text → Text → Db Json (Dict Text)
    unfolding contains_key announce known_device lookup without
    sync_entry pending mac ip =
        if contains_key ip gateway_ips
        then pure (without mac pending)
        else elim (lookup mac existing) [
          | none ↦ announce mac ip now_ts >>= λ sent. pure (without mac pending)
          | some old ↦ known_device old pending mac ip
        ]

    unfoldable pub sync_entries : Dict Text → Dict Text → Db Json (Dict Text)
    unfolding sync_entry
    sync_entries [] pending = pure pending
    sync_entries ((mac, ip) ∷ rest) pending =
        sync_entry pending mac ip >>= λ next. sync_entries rest next

  abbrev pub retain : Dict Text → Dict Text → Dict Text
  retain arp_map pending = filter (λ e. is_some (lookup e.0 arp_map)) pending

  -- The pending addresses come in and go out; an error leaves them as they were.
  unfoldable pub sync_table : Files → Text → Dict Text → Db Json (Dict Text)
  unfolding sync_entries parse_arp_table collect_into detect_default_gateways
  sync_table files content pending =
      let arp_map = parse_arp_table to_lowercase content in
      list_addresses >>= λ existing.
      sync_entries (detect_default_gateways files.route) (collect_into [] existing) files.seconds
        (files.order arp_map) (retain arp_map pending)

  unfoldable pub arp_sync : Files → Dict Text → Db Json (Dict Text)
  unfolding sync_table
  arp_sync files pending = elim (if files.host_arp_exists then files.host_arp else files.arp) [
    | none ↦ pure pending
    | some content ↦ sync_table files content pending
  ]
