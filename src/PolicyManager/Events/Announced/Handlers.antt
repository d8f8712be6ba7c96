-- ===== src/PolicyManager/Events/Announced/Handlers.antt =====
-- The handlers of services/policy-manager/src publish at most one command, and one that the table
-- backs.
use lentropy.Common.{ℕ, Bool, true, false, not, ◌&&◌, Option, List, Text, String, str_eq, ◌≡◌}
use lentropy.Exec.{pure, when}
use lentropy.Exec.Triples.{
  Ends-state, Meets, Keeps, Meets-pure, Meets-if, Meets-option, Meets-bind, Meets-fails, Keeps-pure,
  Keeps-lift, Keeps-attempt, Keeps-when,
}
use lentropy.PolicyEngine.{PolicyDecision}
use lentropy.Store.Endpoint.{EndpointRow}
use lentropy.Store.Policy.{decision_to_status}
use lentropy.Store.Posture.{is_empty}
use lentropy.Store.Database.{Platform, Db, SessionRow, Message, World}
use lentropy.Store.Steps.{
  OnEndpoints, Keeps-log, Keeps-load_rules, Keeps-find_by_mac, Keeps-find_active_by_endpoint,
  Keeps-create,
}
use lentropy.PolicyManager.Commands.{action_of, evaluate_rules, publish_if_known}
use lentropy.PolicyManager.Detected.{
  EndpointDetectedEvent, has_login, already_authenticated, change_status, apply_decision,
  apply_policies, after_upsert, process_event,
}
use lentropy.PolicyManager.Events.Announced.{action_of-Means, Announced}
use lentropy.PolicyManager.Events.Announced.Devices.{
  Quiet, Stored, Ready, Quiet-Announced, keeping, upsert-Ready, set_status-Stored, send-Announced,
}

module _ {Json : Type 0} (platform : Platform Json) (before : List Message) where
  abbrev pub Told : World Json → Type 0
  Told = OnEndpoints (Announced before)

  abbrev pub Telling : ℕ → Text → String → Db Json (Unit {0}) → Type 0
  Telling id mac status m = Meets (OnEndpoints (Stored before id mac status)) Told m (λ _. Told)

  pub stop : (id : ℕ) (mac : Text) (status : String) → Telling id mac status (pure tt)
  unfolding Stored
  stop id mac status = Meets-pure tt λ w (q, a). Quiet-Announced before w.tables.endpoints w.sent q

  pub ready :
      {A : Type 0} {m : Db Json A} (row : EndpointRow Json)
      → Keeps (OnEndpoints (Ready before row)) m
      → Meets (OnEndpoints (Ready before row)) Told m (λ _. OnEndpoints (Ready before row))
  ready row k = keeping before row.id row.mac_address row.status k

  module _ (id : ℕ) (mac : Text) (status : String) where
    pub when-Telling :
        (b : Bool) {m : Db Json (Unit {0})}
        → Telling id mac status m
        → Telling id mac status (when b m)
    unfolding when
    when-Telling true k = k
    when-Telling false k = stop id mac status

    abbrev I : List (EndpointRow Json) → List SessionRow → List Message → Type 0
    I e s m = Stored before id mac status e m

    publish_if_known-Telling :
        (ip : Option Text) (decision : PolicyDecision)
        → Telling id mac status (publish_if_known platform mac ip status decision)
    unfolding publish_if_known
    publish_if_known-Telling ip decision =
        Meets-option (action_of status) _ _ (λ e. stop id mac status)
          λ action e.
            send-Announced before platform id mac status _ action _
              (action_of-Means status action e)

  change_status-Telling :
      (row : EndpointRow Json) (ip : Option Text) (new : String) (decision : PolicyDecision)
      → Telling row.id row.mac_address row.status (change_status platform row ip new decision)
  unfolding change_status
  change_status-Telling row ip new decision =
      Meets-bind (set_status-Stored before platform row.id row.mac_address row.status new) λ u.
        Meets-bind
          (keeping before row.id row.mac_address new
            (Keeps-log (I row.id row.mac_address new) platform _ _ _ _))
          λ v.
            Meets-bind
              (keeping before row.id row.mac_address new (
                Keeps-when _ (
                  Meets-bind
                    (Keeps-attempt
                      (Keeps-create (Stored before row.id row.mac_address new) platform _))
                    λ made. Keeps-pure tt)))
              λ o. publish_if_known-Telling row.id row.mac_address new ip decision

  apply_decision-Telling :
      (row : EndpointRow Json) (ip : Option Text) (moved : Bool) (d : PolicyDecision) (known : Bool)
      → Telling row.id row.mac_address row.status (apply_decision platform row ip moved d known)
  unfolding apply_decision
  apply_decision-Telling row ip moved d known =
      Meets-if (not known && not (str_eq row.status (decision_to_status d))) _ _
        (λ b. change_status-Telling row ip (decision_to_status d) d)
        (λ b.
          when-Telling row.id row.mac_address row.status _
            (publish_if_known-Telling row.id row.mac_address row.status ip d))

  already_authenticated-Ready :
      (row : EndpointRow Json)
      → Keeps (OnEndpoints (Ready before row)) (already_authenticated platform row)
  unfolding already_authenticated
  already_authenticated-Ready row =
      Meets-if (has_login row) _ _
        (λ b.
          Meets-bind
            (Keeps-attempt
              (Keeps-find_active_by_endpoint (λ e s m. Ready before row e m) platform row.id))
            λ found. Keeps-pure _)
        (λ b. Keeps-pure false)

  process_event-Told :
      (event : EndpointDetectedEvent)
      → Meets (OnEndpoints (Quiet before)) Told (process_event platform event) (λ _. Told)
  unfolding process_event after_upsert apply_policies evaluate_rules
  process_event-Told event =
      Meets-bind
        (Meets-fails
          (Keeps-attempt (Keeps-find_by_mac (λ e s m. Quiet before e m) platform event.mac_address))
          λ w q. Quiet-Announced before w.tables.endpoints w.sent q)
        λ old. Meets-bind (upsert-Ready before platform _) λ row.
          Meets-bind (ready row (Keeps-log (λ e s m. Ready before row e m) platform _ _ _ _)) λ d.
            Meets-bind
              (ready row
                (Keeps-when _ (Keeps-log (λ e s m. Ready before row e m) platform _ _ _ _)))
              λ c.
                Meets-bind (ready row (Keeps-load_rules (λ e s m. Ready before row e m) platform))
                  λ rules.
                    Meets-if (is_empty rules) _ _ (λ b. stop row.id row.mac_address row.status)
                      λ b. Meets-bind (ready row (Keeps-lift _)) λ decision.
                        Meets-bind (ready row (already_authenticated-Ready row))
                          λ known. apply_decision-Telling row _ _ decision known

  -- The handler of a detected device publishes at most one command, also when it fails. The table
  -- then holds a device with the MAC address of the command, with a status for which the
  -- enforcement service does what it does for the command's action.
  pub process_event-Announced :
      (event : EndpointDetectedEvent) (w : World Json)
      → w.sent ≡ before
      → let after = (process_event platform event w).1 in
        Announced before after.tables.endpoints after.sent
  process_event-Announced event w q = Ends-state Told _ ((process_event-Told event).at w q)
