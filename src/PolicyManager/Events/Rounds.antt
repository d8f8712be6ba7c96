-- ===== src/PolicyManager/Events/Rounds.antt =====
-- The rounds of services/policy-manager/src/background.rs keep what the tables promise, and so does
-- every sequence of events.
use native.Mathlib.Omega.{arith}
use lentropy.Common.{ℕ, Option, none, some, List, [], ◌∷◌, Text, str_eq, refl, if◌then◌else◌}
use lentropy.Outcome.{Outcome, ok, err, panic, timeout}
use lentropy.Exec.Triples.{
  Ends, Ends-state, Keeps, Meets-if, Meets-option, Meets-bind, Keeps-pure, Keeps-attempt,
  Keeps-for_each,
}
use lentropy.Store.Endpoint.{EndpointRow}
use lentropy.Store.Database.{Platform, IpRuleRow, StoreError, World, cast, is_status, is_state}
use lentropy.Store.Sessions.{is_open, end_session}
use lentropy.Store.Steps.{
  On, Yields-ok, Yields-bail, Yields-bind, Keeps-statement, Keeps-find_by_mac,
}
use lentropy.Store.Valid.{IsValid, endpoints_updated, session_added, sessions_updated}
use lentropy.Store.Valid.Writes.{Sound}
use lentropy.PolicyManager.Commands.{map_some, strip_cidr, flatten, send}
use lentropy.PolicyManager.Reconcile.{
  is_logged_in, log_out, end_open_sessions, log_out_all, insert_session, quarantine_again,
  list_restricted, restrict_again, list_ip_rules, apply_ip_rule, reconcile,
}
use lentropy.PolicyManager.ArpTable.{Dict, lookup, update_ip, contains_key}
use lentropy.PolicyManager.ArpSync.{
  Files, action_for, list_addresses, resend, confirm_ip, announce, is_ip, known_device, sync_entry,
  sync_entries, sync_table, arp_sync,
}
use lentropy.PolicyManager.Events.{
  Event, endpoint_detected, auth_response, posture_report, reconciliation, arp_scan, request, State,
  scanned, handle, run,
}
use lentropy.PolicyManager.Api.Valid.{serve-IsValid}
use lentropy.PolicyManager.Events.Valid.{
  publish-IsValid, process_event-IsValid, process_auth_response-IsValid, process_posture-IsValid,
}

module _ {Json : Type 0} (platform : Platform Json) where
  end_open_sessions-IsValid : Keeps (On Sound) (end_open_sessions platform)
  unfolding end_open_sessions end_session is_state
  end_open_sessions-IsValid = Keeps-statement Sound platform _ λ n t sent v. Yields-ok (
      sessions_updated is_open (end_session (platform.now n)) t.endpoints t.sessions (λ s. refl)
        (λ s b h. refl) v)

  log_out_all-IsValid : Keeps (On Sound) (log_out_all platform)
  unfolding log_out_all log_out is_status
  log_out_all-IsValid = Keeps-statement Sound platform _ λ n t sent v. Yields-ok (
      endpoints_updated is_logged_in log_out t.endpoints t.sessions (λ r. refl) (λ r. refl)
        (λ r b h. refl) v)

  insert_session-IsValid : (id : ℕ) → Keeps (On Sound) (insert_session platform id)
  unfolding insert_session is_state
  insert_session-IsValid id = Keeps-statement Sound platform _ λ n t sent v.
      Yields-bail _ _ _
        λ checked. Yields-ok (session_added _ t.endpoints t.sessions refl (ground arith) v)

  quarantine_again-IsValid : (r : EndpointRow Json) → Keeps (On Sound) (quarantine_again platform r)
  unfolding quarantine_again send
  quarantine_again-IsValid r =
      Meets-bind (Keeps-attempt (insert_session-IsValid r.id)) λ s. publish-IsValid platform _

  restrict_again-IsValid : (r : EndpointRow Json) → Keeps (On Sound) (restrict_again platform r)
  unfolding restrict_again send
  restrict_again-IsValid r = publish-IsValid platform _

  apply_ip_rule-IsValid : (r : IpRuleRow) → Keeps (On Sound) (apply_ip_rule platform r)
  unfolding apply_ip_rule send
  apply_ip_rule-IsValid r =
      Meets-if (str_eq r.action "block") _ _ (λ b. publish-IsValid platform _)
        λ b.
          Meets-if (str_eq r.action "quarantine") _ _ (λ b. publish-IsValid platform _)
            λ b. Keeps-pure tt

  reconcile-IsValid : Keeps (On Sound) (reconcile platform)
  unfolding reconcile list_restricted list_ip_rules
  reconcile-IsValid = Meets-bind (Keeps-attempt end_open_sessions-IsValid) λ ended.
      Meets-bind log_out_all-IsValid λ reauth.
        Meets-bind (Keeps-for_each _ reauth quarantine_again-IsValid) λ q.
          Meets-bind (Keeps-statement Sound platform _ λ n t sent v. Yields-ok v) λ rows.
            Meets-bind (Keeps-for_each _ rows restrict_again-IsValid) λ r.
              Meets-bind (Keeps-statement Sound platform _ λ n t sent v. Yields-ok v)
                λ rules. Keeps-for_each _ rules apply_ip_rule-IsValid

  update_ip-IsValid : (mac ip : Text) → Keeps (On Sound) (update_ip platform mac ip)
  unfolding update_ip
  update_ip-IsValid mac ip = Keeps-statement Sound platform _ λ n t sent v.
      Yields-bind (cast platform.inet ip) _ λ i e. Yields-bind (cast platform.macaddr mac) _ λ m e.
        Yields-ok
          (endpoints_updated _ _ t.endpoints t.sessions (λ r. refl) (λ r. refl) (λ r b h. h) v)

  resend-IsValid :
      (mac ip : Text) (found : Option (EndpointRow Json))
      → Keeps (On Sound) (resend platform mac ip found)
  unfolding send
  resend-IsValid mac ip none = Keeps-pure tt
  resend-IsValid mac ip (some ep) =
      Meets-option (action_for ep.status) _ _ (λ e. Keeps-pure tt)
        λ action e. publish-IsValid platform _

  known_device-IsValid :
      (old : Option Text) (pending : Dict Text) (mac ip : Text)
      → Keeps (On Sound) (known_device platform old pending mac ip)
  unfolding known_device confirm_ip
  known_device-IsValid old pending mac ip =
      Meets-if (is_ip (map_some strip_cidr old) ip) _ _ (λ b. Keeps-pure _)
        λ b.
          Meets-if (is_ip (lookup mac pending) ip) _ _
            (λ b.
              Meets-bind
                (Meets-bind (Keeps-attempt (update_ip-IsValid mac ip)) λ written.
                  Meets-bind (Keeps-attempt (Keeps-find_by_mac Sound platform mac))
                    λ found. resend-IsValid mac ip (flatten found))
                λ done. Keeps-pure _)
            (λ b. Keeps-pure _)

  module _ (gateways : List Text) (existing : Dict (Option Text)) (seconds : ℕ) where
    sync_entry-IsValid :
        (pending : Dict Text) (mac ip : Text)
        → Keeps (On Sound) (sync_entry platform gateways existing seconds pending mac ip)
    unfolding sync_entry announce
    sync_entry-IsValid pending mac ip =
        Meets-if (contains_key ip gateways) _ _ (λ b. Keeps-pure _)
          λ b.
            Meets-option (lookup mac existing) _ _
              (λ e. Meets-bind (publish-IsValid platform _) λ sent. Keeps-pure _)
              (λ old e. known_device-IsValid old pending mac ip)

    sync_entries-IsValid :
        (entries pending : Dict Text)
        → Keeps (On Sound) (sync_entries platform gateways existing seconds entries pending)
    unfolding sync_entries
    sync_entries-IsValid [] pending = Keeps-pure pending
    sync_entries-IsValid ((mac, ip) ∷ rest) pending =
        Meets-bind (sync_entry-IsValid pending mac ip) λ next. sync_entries-IsValid rest next

  arp_sync-IsValid :
      (files : Files) (pending : Dict Text) → Keeps (On Sound) (arp_sync platform files pending)
  unfolding arp_sync sync_table list_addresses
  arp_sync-IsValid files pending =
      Meets-option (if files.host_arp_exists then files.host_arp else files.arp) _ _
        (λ e. Keeps-pure pending)
        (λ content e.
          Meets-bind (Keeps-statement Sound platform _ λ n t sent v. Yields-ok v)
            λ existing. sync_entries-IsValid _ _ _ _ _)

  scanned-IsValid :
      (pending : Dict Text) (r : Outcome StoreError (Dict Text) × World Json)
      → Ends (λ _. On Sound) (On Sound) r
      → IsValid (scanned platform pending r).world.tables
  scanned-IsValid pending (ok a, w) h = h
  scanned-IsValid pending (err e, w) h = h
  scanned-IsValid pending (panic, w) h = h
  scanned-IsValid pending (timeout, w) h = h

  handle-IsValid :
      (event : Event) (s : State Json)
      → IsValid s.world.tables
      → IsValid (handle platform event s).world.tables
  unfolding handle
  handle-IsValid (endpoint_detected event) s v =
      Ends-state (On Sound) _ ((process_event-IsValid platform event).at s.world v)
  handle-IsValid (auth_response resp) s v =
      Ends-state (On Sound) _ ((process_auth_response-IsValid platform resp).at s.world v)
  handle-IsValid (posture_report report) s v =
      Ends-state (On Sound) _ ((process_posture-IsValid platform report).at s.world v)
  handle-IsValid reconciliation s v = Ends-state (On Sound) _ (reconcile-IsValid.at s.world v)
  handle-IsValid (arp_scan files) s v =
      scanned-IsValid s.pending_ip _ ((arp_sync-IsValid files s.pending_ip).at s.world v)
  handle-IsValid (request req) s v = serve-IsValid platform req s.world v

  -- From valid tables every sequence of events leads to valid ones, whatever fails on the way, and
  -- also if the database does not enforce its CHECKs: every status and every state is one that they
  -- list, no two devices share a MAC address or an id, and every session is one of a device.
  pub run-IsValid :
      (events : List Event) (s : State Json)
      → IsValid s.world.tables
      → IsValid (run platform events s).world.tables
  unfolding run
  run-IsValid [] s v = v
  run-IsValid (e ∷ es) s v = run-IsValid es (handle platform e s) (handle-IsValid e s v)
