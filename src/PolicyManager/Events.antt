-- ===== src/PolicyManager/Events.antt =====
-- services/policy-manager/src/main.rs: its tasks, whose messages and rounds come in any order, and
-- are handled one at a time. An error is logged, and the tasks go on.
pub mod Valid
pub mod Rounds
pub mod Announced
pub mod Failures
pub mod Gateways
pub mod Restart
pub mod Enforced
pub mod LoggedIn
use lentropy.Common.{Option, none, some, List, [], ◌∷◌, Text}
use lentropy.Outcome.{Outcome, ok, err, panic, timeout}
use lentropy.Store.Database.{Platform, World, StoreError}
use lentropy.Store.Posture.{PostureReport}
use lentropy.PolicyManager.ArpTable.{Dict}
use lentropy.PolicyManager.Detected.{EndpointDetectedEvent, process_event}
use lentropy.PolicyManager.AuthResponse.{AuthResponse, process_auth_response}
use lentropy.PolicyManager.PostureReports.{process_posture}
use lentropy.PolicyManager.Reconcile.{reconcile}
use lentropy.PolicyManager.ArpSync.{Files, arp_sync}
use lentropy.PolicyManager.Api.Requests.{Request, serve}

pub data Event : Type 0 where
  endpoint_detected : EndpointDetectedEvent → Event
  auth_response : AuthResponse → Event
  posture_report : PostureReport → Event
  reconciliation : Event
  arp_scan : Files → Event
  request : Request → Event

-- The map of pending addresses is kept between two scans.
pub record State (Json : Type 0) : Type 0 where
  pub world : World Json
  pub pending_ip : Dict Text

module _ {Json : Type 0} (platform : Platform Json) where
  abbrev pub scanned : Dict Text → Outcome StoreError (Dict Text) × World Json → State Json
  scanned pending (ok next, w) = record { world = w; pending_ip = next }
  scanned pending (err e, w) = record { world = w; pending_ip = pending }
  scanned pending (panic, w) = record { world = w; pending_ip = pending }
  scanned pending (timeout, w) = record { world = w; pending_ip = pending }

  unfoldable pub handle : Event → State Json → State Json
  handle (endpoint_detected event) s = record s { world = (process_event platform event s.world).1 }
  handle (auth_response resp) s = record s {
    world = (process_auth_response platform resp s.world).1;
  }
  handle (posture_report report) s = record s {
    world = (process_posture platform report s.world).1;
  }
  handle reconciliation s = record s { world = (reconcile platform s.world).1 }
  handle (arp_scan files) s = scanned s.pending_ip (arp_sync platform files s.pending_ip s.world)
  handle (request req) s = record s { world = serve platform req s.world }

  unfoldable pub run : List Event → State Json → State Json
  unfolding handle
  run [] s = s
  run (e ∷ es) s = run es (handle e s)
