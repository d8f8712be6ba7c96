-- ===== src/PolicyManager/Events/Gateways.antt =====
-- What the scan of the ARP table in services/policy-manager/src/background.rs publishes.
use lentropy.Common.{
  ℕ, false, Option, none, some, List, [], ◌∷◌, ◌++◌, Text, ◌≡◌, refl, sym, if◌then◌else◌,
}
use lentropy.Exec.Triples.{
  Ends-state, Keeps, Meets-if, Meets-option, Meets-bind, Keeps-pure, Keeps-attempt,
}
use lentropy.Store.Endpoint.{EndpointRow}
use lentropy.Store.Database.{Platform, Message, command, detected, World, SessionRow, publish, cast}
use lentropy.Store.Steps.{
  On, Yields-ok, Yields-bind, Keeps-statement, Keeps-find_by_mac, Meets-publish,
}
use lentropy.PolicyManager.Commands.{map_some, strip_cidr, flatten, enforcement, send}
use lentropy.PolicyManager.ArpTable.{Dict, lookup, update_ip, contains_key, detect_default_gateways}
use lentropy.PolicyManager.ArpSync.{
  Files, action_for, list_addresses, resend, confirm_ip, announce, is_ip, known_device, sync_entry,
  sync_entries, sync_table, arp_sync,
}

abbrev pub ip_of : Message → Text
ip_of (command c) = c.ip_address
ip_of (detected d) = d.ip_address

module _ {Json : Type 0} (platform : Platform Json) (before : List Message)
    (gateways : List Text) where
  -- What is published beyond `before` is about no gateway's address.
  pub data Spares : List Message → Type 0 where
    nothing : Spares before
    more :
        {sent : List Message} (m : Message)
        → contains_key (ip_of m) gateways ≡ false
        → Spares sent
        → Spares (sent ++ m ∷ [])

  abbrev Sparing : List (EndpointRow Json) → List SessionRow → List Message → Type 0
  Sparing e s m = Spares m

  publish-Spares :
      (m : Message)
      → contains_key (ip_of m) gateways ≡ false
      → Keeps (On Sparing) (publish platform m)
  publish-Spares m h = Meets-publish platform m (λ w p. p) λ w p. more m h p

  resend-Spares :
      (mac ip : Text) (found : Option (EndpointRow Json))
      → contains_key ip gateways ≡ false
      → Keeps (On Sparing) (resend platform mac ip found)
  unfolding send enforcement
  resend-Spares mac ip none h = Keeps-pure tt
  resend-Spares mac ip (some ep) h =
      Meets-option (action_for ep.status) _ _ (λ e. Keeps-pure tt) λ action e. publish-Spares _ h

  update_ip-Spares : (mac ip : Text) → Keeps (On Sparing) (update_ip platform mac ip)
  unfolding update_ip
  update_ip-Spares mac ip = Keeps-statement Sparing platform _ λ n t sent p.
      Yields-bind (cast platform.inet ip) _
        λ i e. Yields-bind (cast platform.macaddr mac) _ λ m e. Yields-ok p

  known_device-Spares :
      (old : Option Text) (pending : Dict Text) (mac ip : Text)
      → contains_key ip gateways ≡ false
      → Keeps (On Sparing) (known_device platform old pending mac ip)
  unfolding known_device confirm_ip
  known_device-Spares old pending mac ip h =
      Meets-if (is_ip (map_some strip_cidr old) ip) _ _ (λ b. Keeps-pure _)
        λ b.
          Meets-if (is_ip (lookup mac pending) ip) _ _
            (λ b.
              Meets-bind
                (Meets-bind (Keeps-attempt (update_ip-Spares mac ip)) λ written.
                  Meets-bind (Keeps-attempt (Keeps-find_by_mac Sparing platform mac))
                    λ found. resend-Spares mac ip (flatten found) h)
                λ done. Keeps-pure _)
            (λ b. Keeps-pure _)

  sync_entries-Spares :
      (existing : Dict (Option Text)) (seconds : ℕ) (entries pending : Dict Text)
      → Keeps (On Sparing) (sync_entries platform gateways existing seconds entries pending)
  unfolding sync_entries sync_entry announce
  sync_entries-Spares existing seconds [] pending = Keeps-pure pending
  sync_entries-Spares existing seconds ((mac, ip) ∷ rest) pending =
      Meets-bind
        (Meets-if (contains_key ip gateways) _ _ (λ b. Keeps-pure _)
          λ b.
            Meets-option (lookup mac existing) _ _
              (λ e. Meets-bind (publish-Spares _ b) λ sent. Keeps-pure _)
              (λ old e. known_device-Spares old pending mac ip b))
        λ next. sync_entries-Spares existing seconds rest next

  scan-Spares :
      (files : Files) (pending : Dict Text)
      → gateways ≡ detect_default_gateways files.route
      → Keeps (On Sparing) (arp_sync platform files pending)
  unfolding arp_sync sync_table list_addresses
  scan-Spares files pending same =
      Meets-option (if files.host_arp_exists then files.host_arp else files.arp) _ _
        (λ e. Keeps-pure pending)
        (λ content e.
          Meets-bind (Keeps-statement Sparing platform _ λ n t sent p. Yields-ok p)
            λ existing. rw (sym same) (sync_entries-Spares _ _ _ _))

module _ {Json : Type 0} (platform : Platform Json) where
  -- What a scan of the ARP table publishes, whether it fails or not, are events and commands about IP
  -- addresses that are no default gateway's.
  pub arp_sync-Spares :
      (files : Files) (pending : Dict Text) (w : World Json)
      → Spares platform w.sent
          (detect_default_gateways files.route)
          (arp_sync platform files pending w).1.sent
  arp_sync-Spares files pending w =
      let gateways = detect_default_gateways files.route in
      Ends-state (On (Sparing platform w.sent gateways)) (arp_sync platform files pending w)
        ((scan-Spares platform w.sent gateways files pending refl).at w nothing)
