-- ===== src/PolicyManager/Events/Announced/Logins.antt =====
-- The handlers of login results and of posture reports publish at most one command, and one that the
-- table backs.
use native.Mathlib.Omega.{arith}
use lentropy.Common.{Bool, not, Option, none, some, List, Text, String, str_eq, ◌≡◌, sym, eq_iff}
use lentropy.Exec.{when}
use lentropy.Exec.Triples.{
  Ends-state, Meets, Keeps, Meets-pure, Meets-if, Meets-when, Meets-option, Meets-bind,
  Meets-weaken, Keeps-pure, Keeps-lift, Keeps-when,
}
use lentropy.PolicyEngine.{PolicyDecision, PolicyRule}
use lentropy.Store.Endpoint.{EndpointRow}
use lentropy.Store.Policy.{decision_to_status}
use lentropy.Store.Posture.{PostureReport, is_empty}
use lentropy.Store.Database.{Platform, Db, SessionRow, Message, World}
use lentropy.Store.Endpoints.{has_id, find_by_id, set_status}
use lentropy.Store.Steps.{
  OnEndpoints, Keeps-log, Keeps-save, Keeps-load_rules, Keeps-find_active_by_endpoint,
  Keeps-find_session, Keeps-transition, Keeps-terminate,
}
use lentropy.PolicyManager.Commands.{non_empty, evaluate_rules, publish_after_auth}
use lentropy.PolicyManager.AuthResponse.{
  AuthResponse, has_host, look_up, find_by_host, register_missing, resolve, find_session, end_found,
  auth_failed, activate, apply_login, auth_succeeded, answer_login, answer_found,
  process_auth_response,
}
use lentropy.PolicyManager.PostureReports.{
  change_status, apply_posture, record_posture, record_found, process_posture,
}
use lentropy.PolicyManager.Events.Announced.{
  action_of-Means, decision-Means, decision_known, Announced,
}
use lentropy.PolicyManager.Events.Announced.Devices.{
  Stored, Ready, Found, Quiet-Announced, Finding, Finding-statement, Finding-find_by_mac,
  upsert-Ready, set_username-Stored, set_compliance-Stored, update_posture_fields-Stored, keeping,
  set_status-Stored, send-Announced,
}
use lentropy.PolicyManager.Events.Announced.Handlers.{Told, Telling, stop, ready, when-Telling}

module _ {Json : Type 0} (platform : Platform Json) (before : List Message) where
  look_up-Found : (resp : AuthResponse) → Finding before platform (look_up platform resp)
  unfolding look_up find_by_host find_by_id
  look_up-Found resp =
      Meets-option resp.endpoint_id _ _
        (λ e.
          Meets-option (non_empty resp.mac_address) _ _
            (λ e.
              Meets-option (non_empty resp.ip_address) _ _ (λ e. Meets-pure none λ w q. q)
                (λ ip e. Finding-statement before platform λ t. has_host platform ip))
            (λ mac e. Finding-find_by_mac before platform mac))
        (λ eid e. Finding-statement before platform λ t. has_id eid)

  register_missing-Found :
      (resp : AuthResponse) (found : Option (EndpointRow Json))
      → Meets
          (OnEndpoints (Found before found))
          (Told platform before)
          (register_missing platform resp found)
          (λ o. OnEndpoints (Found before o))
  register_missing-Found resp (some row) = Meets-pure (some row) λ w h. h
  register_missing-Found resp none =
      Meets-option (non_empty resp.mac_address) _ _ (λ e. Meets-pure none λ w q. q)
        λ mac e. Meets-bind (upsert-Ready before platform _) λ row. Meets-pure (some row) λ w h. h

  -- The status is what the decision makes it, whether it is written or was there before.
  settle_status :
      (endpoint : EndpointRow Json) (new : String)
      → Meets
          (OnEndpoints (Ready before endpoint))
          (Told platform before)
          (when (not (str_eq endpoint.status new)) (set_status platform endpoint.id new))
          (λ _. OnEndpoints (Stored before endpoint.id endpoint.mac_address new))
  settle_status endpoint new =
      Meets-when _
        (λ b.
          set_status-Stored before platform endpoint.id endpoint.mac_address endpoint.status new)
        (λ b w h.
          let same : endpoint.status ≡ new = (eq_iff endpoint.status new).0 (ground arith) in
          rw (sym same) h)

  apply_login-Telling :
      (resp : AuthResponse) (endpoint : EndpointRow Json) (username : Text)
      (rules : List PolicyRule)
      → Telling platform before endpoint.id endpoint.mac_address endpoint.status
          (apply_login platform resp endpoint username rules)
  unfolding apply_login evaluate_rules publish_after_auth
  apply_login-Telling resp endpoint username rules =
      Meets-bind (ready platform before endpoint (Keeps-lift _)) λ d.
        Meets-bind (settle_status endpoint (decision_to_status d)) λ s.
          Meets-bind
            (send-Announced before platform endpoint.id endpoint.mac_address (decision_to_status d)
              _ _ _ (action_of-Means (decision_to_status d) _ (decision_known d)))
            λ p. Keeps-log (λ e s m. Announced before e m) platform _ _ _ _

  activate-Ready :
      (endpoint : EndpointRow Json) (session : Option SessionRow) (username : Text)
      → Keeps (OnEndpoints (Ready before endpoint)) (activate platform session username)
  activate-Ready endpoint none username = Keeps-pure tt
  activate-Ready endpoint (some s) username =
      Keeps-transition (Ready before endpoint) platform s.id "active" (some username)

  end_found-Ready :
      (endpoint : EndpointRow Json) (session : Option SessionRow)
      → Keeps (OnEndpoints (Ready before endpoint)) (end_found platform session)
  end_found-Ready endpoint none = Keeps-pure tt
  end_found-Ready endpoint (some s) = Keeps-terminate (Ready before endpoint) platform s.id

  find_session-Ready :
      (resp : AuthResponse) (endpoint : EndpointRow Json)
      → Keeps (OnEndpoints (Ready before endpoint)) (find_session platform resp endpoint)
  unfolding find_session
  find_session-Ready resp endpoint =
      Meets-option resp.session_id _ _
        (λ e.
          Keeps-find_active_by_endpoint (λ e s m. Ready before endpoint e m) platform endpoint.id)
        (λ sid e. Keeps-find_session (λ e s m. Ready before endpoint e m) platform sid)

  abbrev Around :
      EndpointRow Json → List (EndpointRow Json) → List SessionRow → List Message → Type 0
  Around endpoint e s m = Ready before endpoint e m

  -- The last step, where nothing is published.
  closing :
      (endpoint : EndpointRow Json) {m : Db Json (Unit {0})}
      → Keeps (OnEndpoints (Ready before endpoint)) m
      → Telling platform before endpoint.id endpoint.mac_address endpoint.status m
  unfolding Stored
  closing endpoint k =
      Meets-weaken (ready platform before endpoint k) (λ w h. h)
        λ a w h. Quiet-Announced before w.tables.endpoints w.sent h.0

  answer_login-Telling :
      (resp : AuthResponse) (endpoint : EndpointRow Json)
      → Telling platform before endpoint.id endpoint.mac_address endpoint.status
          (answer_login platform resp endpoint)
  unfolding answer_login auth_succeeded auth_failed
  answer_login-Telling resp endpoint =
      let end = stop platform before endpoint.id endpoint.mac_address endpoint.status in
      Meets-bind (ready platform before endpoint (find_session-Ready resp endpoint)) λ session.
        Meets-if resp.success _ _
          (λ b.
            Meets-bind
              (ready platform before endpoint (
                Keeps-when _ (
                  set_username-Stored before platform endpoint.id endpoint.id endpoint.mac_address
                    endpoint.status _)))
              λ u.
                Meets-bind (ready platform before endpoint (activate-Ready endpoint session _)) λ a.
                  Meets-bind
                    (ready platform before endpoint (Keeps-load_rules (Around endpoint) platform))
                    λ rules.
                      Meets-if (is_empty rules) _ _ (λ b. end)
                        λ b. apply_login-Telling resp endpoint _ rules)
          (λ b.
            Meets-bind (ready platform before endpoint (end_found-Ready endpoint session))
              λ t. closing endpoint (Keeps-log (Around endpoint) platform _ _ _ _))

  answer_found-Telling :
      (resp : AuthResponse) (found : Option (EndpointRow Json))
      → Meets
          (OnEndpoints (Found before found))
          (Told platform before)
          (answer_found platform resp found)
          (λ _. Told platform before)
  answer_found-Telling resp none =
      Meets-pure tt λ w q. Quiet-Announced before w.tables.endpoints w.sent q
  answer_found-Telling resp (some endpoint) = answer_login-Telling resp endpoint

  -- The handler of a login's result publishes at most one command, also when it fails. The table then
  -- holds a device with the MAC address of the command, with a status for which the enforcement
  -- service does what it does for the command's action.
  pub process_auth_response-Announced :
      (resp : AuthResponse) (w : World Json)
      → w.sent ≡ before
      → let after = (process_auth_response platform resp w).1 in
        Announced before after.tables.endpoints after.sent
  unfolding process_auth_response resolve
  process_auth_response-Announced resp w q = Ends-state (Told platform before) _ (
      (Meets-bind (Meets-bind (look_up-Found resp) (register_missing-Found resp))
          (answer_found-Telling resp)).at
        w q)

  change_status-Telling :
      (report : PostureReport) (endpoint : EndpointRow Json) (is_compliant : Bool)
      (d : PolicyDecision)
      → Telling platform before endpoint.id endpoint.mac_address endpoint.status
          (change_status platform report endpoint is_compliant (decision_to_status d))
  unfolding change_status
  change_status-Telling report endpoint is_compliant d =
      let new = decision_to_status d in
      Meets-bind
        (set_status-Stored before platform endpoint.id endpoint.mac_address endpoint.status new)
        λ u.
          Meets-bind
            (keeping before endpoint.id endpoint.mac_address new (
              Keeps-log (λ e s m. Stored before endpoint.id endpoint.mac_address new e m) platform _
                _ _ _))
            λ v.
              send-Announced before platform endpoint.id endpoint.mac_address new _ new none
                (decision-Means d)

  record_found-Telling :
      (report : PostureReport) (found : Option (EndpointRow Json))
      → Meets
          (OnEndpoints (Found before found))
          (Told platform before)
          (record_found platform report found)
          (λ _. Told platform before)
  unfolding record_posture apply_posture evaluate_rules
  record_found-Telling report none =
      Meets-pure tt λ w q. Quiet-Announced before w.tables.endpoints w.sent q
  record_found-Telling report (some r) =
      Meets-bind (ready platform before r (Keeps-save (Around r) platform _ _ _)) λ s.
        Meets-bind
          (ready platform before r
            (set_compliance-Stored before platform r.id r.id r.mac_address r.status _))
          λ c.
            Meets-bind
              (ready platform before r
                (update_posture_fields-Stored before platform r.id r.id r.mac_address r.status _))
              λ f. Meets-bind (ready platform before r (Keeps-log (Around r) platform _ _ _ _)) λ l.
                Meets-bind (ready platform before r (Keeps-load_rules (Around r) platform)) λ rules.
                  Meets-if (is_empty rules) _ _
                    (λ b. stop platform before r.id r.mac_address r.status)
                    (λ b. Meets-bind (ready platform before r (Keeps-lift _)) λ d.
                      when-Telling platform before r.id r.mac_address r.status _
                        (change_status-Telling report r _ d))

  -- The handler of a posture report publishes at most one command, also when it fails. The table then
  -- holds a device with the MAC address of the command, with a status for which the enforcement
  -- service does what it does for the command's action.
  pub process_posture-Announced :
      (report : PostureReport) (w : World Json)
      → w.sent ≡ before
      → let after = (process_posture platform report w).1 in
        Announced before after.tables.endpoints after.sent
  unfolding process_posture
  process_posture-Announced report w q = Ends-state (Told platform before) _ (
      (Meets-bind (Finding-find_by_mac before platform report.device_id)
          (record_found-Telling report)).at
        w q)
