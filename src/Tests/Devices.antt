-- ===== src/Tests/Devices.antt =====
-- The handlers of services/policy-manager over small tables.
use lentropy.Common.{
  ℕ, ◌≡◌, refl, Bool, true, false, List, [], ◌∷◌, ◌++◌, some, none, Option, Text, codes, String,
  All, Any, find, str_eq, ◌⊎◌,
}
use lentropy.Outcome.{ok}
use lentropy.Store.Endpoint.{EndpointRow}
use lentropy.Store.Database.{Platform, Tables, World, SessionRow, Message, command}
use lentropy.Store.Endpoints.{UpsertEndpoint}
use lentropy.Store.Sessions.{find_active}
use lentropy.Store.Valid.{IsValid}
use lentropy.PolicyManager.Commands.{enforcement}
use lentropy.PolicyManager.ArpTable.{detect_default_gateways}
use lentropy.PolicyManager.Detected.{EndpointDetectedEvent, process_event}
use lentropy.PolicyManager.AuthResponse.{process_auth_response}
use lentropy.PolicyManager.PostureReports.{process_posture}
use lentropy.PolicyManager.Reconcile.{is_logged_in, is_restricted, reconcile}
use lentropy.PolicyManager.ArpSync.{arp_sync}
use lentropy.PolicyManager.Events.{run}
use lentropy.PolicyManager.Events.Rounds.{run-IsValid}
use lentropy.PolicyManager.Events.Announced.{Announced}
use lentropy.PolicyManager.Events.Announced.Handlers.{process_event-Announced}
use lentropy.PolicyManager.Events.Announced.Logins.{
  process_auth_response-Announced, process_posture-Announced,
}
use lentropy.PolicyManager.Events.Failures.{Untouched, failed_login}
use lentropy.PolicyManager.Events.Gateways.{Spares, arp_sync-Spares}
use lentropy.PolicyManager.Events.Restart.{restriction, reconcile_restricts}
use lentropy.PolicyManager.Events.LoggedIn.{statuses, logged_in_untouched}
use lentropy.Tests.SmallTables.{
  platform, mac, device, session, start, event, login, report, files, events, state,
}

start-IsValid : IsValid (start "pending" (session ∷ [])).tables
unfolding lentropy.Store.Database.is_status lentropy.Store.Database.is_state lentropy.Common.text_eq
start-IsValid = record {
  statuses = (refl, tt);
  states = (refl, tt);
  distinct_macs = (refl, tt);
  distinct_ids = (refl, tt);
  references = (refl, tt);
}

-- The CHECKs are not in force.
abbrev unchecked : Platform (Unit {0})
unchecked = record platform { checks = false }

run-IsValid_example : IsValid (run unchecked events state).world.tables
run-IsValid_example = run-IsValid unchecked events state start-IsValid

process_event-Announced_example :
    let after = (process_event platform event (start "pending" [])).1 in
    Announced [] after.tables.endpoints after.sent
process_event-Announced_example =
    process_event-Announced platform [] event (start "pending" []) refl

process_auth_response-Announced_example :
    let after = (process_auth_response platform (login true) (start "pending" [])).1 in
    Announced [] after.tables.endpoints after.sent
process_auth_response-Announced_example =
    process_auth_response-Announced platform [] (login true) (start "pending" []) refl

process_posture-Announced_example :
    let after = (process_posture platform report (start "pending" [])).1 in
    Announced [] after.tables.endpoints after.sent
process_posture-Announced_example =
    process_posture-Announced platform [] report (start "pending" []) refl

failed_login_example :
    let before = start "allowed" (session ∷ []) in
    let after = (process_auth_response platform (login false) before).1 in
    (after.sent ≡ before.sent) × Untouched before.tables.endpoints after.tables.endpoints
failed_login_example = failed_login platform (login false) (start "allowed" (session ∷ [])) refl

arp_sync-Spares_example :
    Spares platform []
      (detect_default_gateways files.route)
      (arp_sync platform files [] (start "pending" [])).1.sent
arp_sync-Spares_example = arp_sync-Spares platform files [] (start "pending" [])

abbrev detected_again : UpsertEndpoint
detected_again = record {
  mac_address = mac;
  ip_address = some (codes "192.168.0.25");
  hostname = none;
  os_family = none;
  os_version = none;
  device_type = none;
  vendor = none;
  interface = none;
  agent_id = none;
}

abbrev moved : EndpointRow (Unit {0})
moved = record (device "pending") { ip_address = some (codes "192.168.0.25"); last_seen = 7 }

abbrev after_move : Tables (Unit {0})
after_move = record (start "pending" []).tables { endpoints = moved ∷ [] }

reconcile_restricts_example :
    let after = (reconcile platform (start "allowed" [])).1 in
    All (λ r. is_logged_in r ≡ false) after.tables.endpoints
    × All
        (λ r. is_restricted r ≡ true → Any (λ m. m ≡ restriction r) after.sent)
        after.tables.endpoints
unfolding reconcile lentropy.Exec.◌>>=◌ lentropy.Exec.attempt
    lentropy.PolicyManager.Reconcile.end_open_sessions lentropy.Store.Database.statement
    lentropy.PolicyManager.Reconcile.log_out_all lentropy.Exec.for_each
    lentropy.PolicyManager.Reconcile.quarantine_again
    lentropy.PolicyManager.Reconcile.insert_session lentropy.Outcome.bail_if
    lentropy.PolicyManager.Commands.send lentropy.Store.Database.publish
    lentropy.PolicyManager.Reconcile.list_restricted lentropy.PolicyManager.Reconcile.restrict_again
    lentropy.PolicyManager.Reconcile.list_ip_rules
reconcile_restricts_example =
    reconcile_restricts platform (λ n. refl) (start "allowed" [])
      (reconcile platform (start "allowed" [])).1 refl

logged_in_untouched_example :
    let before = start "allowed" (session ∷ []) in
    let after = (process_event platform event before).1 in
    (statuses after.tables.endpoints ≡ statuses before.tables.endpoints)
    × (after.tables.sessions ≡ before.tables.sessions)
    × (after.sent ≡ before.sent)
unfolding lentropy.Common.text_eq lentropy.PolicyManager.Detected.has_login find_active
logged_in_untouched_example =
    logged_in_untouched platform (λ n. refl) event (start "allowed" (session ∷ [])) mac
      (device "allowed") session refl refl refl refl refl
