-- ===== src/PolicyManager/Events/Valid.antt =====
-- The handlers of services/policy-manager/src keep what the tables promise.
use lentropy.Common.{
  Bool, true, false, ◌≡◌, refl, not, ◌&&◌, Option, none, some, List, Text, String, str_eq,
}
use lentropy.Exec.Triples.{
  Keeps, Meets-if, Meets-option, Meets-bind, Keeps-pure, Keeps-lift, Keeps-attempt, Keeps-when,
}
use lentropy.PolicyEngine.{
  PolicyDecision, allow, allow_vlan, quarantine, deny, PolicyContext, PolicyRule,
}
use lentropy.Store.Endpoint.{EndpointRow}
use lentropy.Store.Policy.{decision_to_status}
use lentropy.Store.Posture.{PostureReport, is_empty}
use lentropy.Store.Database.{Platform, SessionRow, Message, is_status, is_state, publish}
use lentropy.Store.Steps.{
  On, Yields-ok, Keeps-statement, Keeps-log, Keeps-save, Keeps-load_rules, Keeps-find_by_mac,
  Keeps-find_by_id, Keeps-find_active_by_endpoint, Keeps-find_session, Meets-publish,
}
use lentropy.Store.Valid.Writes.{
  Sound, upsert-IsValid, set_status-IsValid, set_username-IsValid, set_compliance-IsValid,
  update_posture_fields-IsValid, create-IsValid, transition-IsValid, terminate-IsValid,
}
use lentropy.PolicyManager.Commands.{
  non_empty, evaluate_rules, send, publish_if_known, publish_after_auth, action_of,
}
use lentropy.PolicyManager.Detected.{
  EndpointDetectedEvent, context_of, has_login, already_authenticated, change_status,
  apply_decision, apply_policies, after_upsert, process_event,
}
use lentropy.PolicyManager.AuthResponse.{
  AuthResponse, look_up, find_by_host, resolve, find_session, auth_failed, activate, apply_login,
  auth_succeeded, answer_login, process_auth_response,
}
use lentropy.PolicyManager.PostureReports.{apply_posture, record_posture, process_posture}
use lentropy.PolicyManager.PostureReports

-- The status of a decision is one that the CHECK knows.
decision-IsStatus : (d : PolicyDecision) → is_status (decision_to_status d) ≡ true
unfolding is_status decision_to_status
decision-IsStatus allow = refl
decision-IsStatus (allow_vlan v) = refl
decision-IsStatus (quarantine v r) = refl
decision-IsStatus (deny r) = refl

module _ {Json : Type 0} (platform : Platform Json) where
  pub publish-IsValid : (m : Message) → Keeps (On Sound) (publish platform m)
  publish-IsValid m = Meets-publish platform m (λ w v. v) λ w v. v

  evaluate_rules-IsValid :
      (rules : List PolicyRule) (ctx : PolicyContext)
      → Keeps (On Sound) (evaluate_rules platform rules ctx)
  unfolding evaluate_rules
  evaluate_rules-IsValid rules ctx = Keeps-lift _

  publish_if_known-IsValid :
      (mac : Text) (ip : Option Text) (status : String) (decision : PolicyDecision)
      → Keeps (On Sound) (publish_if_known platform mac ip status decision)
  unfolding publish_if_known send
  publish_if_known-IsValid mac ip status decision =
      Meets-option (action_of status) _ _ (λ e. Keeps-pure tt) λ action e. publish-IsValid _

  change_status-IsValid :
      (row : EndpointRow Json) (new_ip : Option Text) (status : String) (decision : PolicyDecision)
      → is_status status ≡ true
      → Keeps (On Sound) (change_status platform row new_ip status decision)
  unfolding change_status
  change_status-IsValid row new_ip status decision good =
      Meets-bind (set_status-IsValid platform row.id status good) λ u.
        Meets-bind (Keeps-log Sound platform _ _ _ _) λ v.
          Meets-bind
            (Keeps-when _
              (Meets-bind (Keeps-attempt (create-IsValid platform _)) λ made. Keeps-pure tt))
            λ o. publish_if_known-IsValid row.mac_address new_ip status decision

  already_authenticated-IsValid :
      (row : EndpointRow Json) → Keeps (On Sound) (already_authenticated platform row)
  unfolding already_authenticated
  already_authenticated-IsValid row =
      Meets-if (has_login row) _ _
        (λ b.
          Meets-bind (Keeps-attempt (Keeps-find_active_by_endpoint Sound platform row.id))
            λ found. Keeps-pure _)
        (λ b. Keeps-pure false)

  apply_decision-IsValid :
      (row : EndpointRow Json) (ip : Option Text) (moved : Bool) (d : PolicyDecision) (known : Bool)
      → Keeps (On Sound) (apply_decision platform row ip moved d known)
  unfolding apply_decision
  apply_decision-IsValid row ip moved d known =
      Meets-if (not known && not (str_eq row.status (decision_to_status d))) _ _
        (λ b. change_status-IsValid row ip (decision_to_status d) d (decision-IsStatus d))
        (λ b. Keeps-when _ (publish_if_known-IsValid row.mac_address ip row.status d))

  pub process_event-IsValid :
      (event : EndpointDetectedEvent) → Keeps (On Sound) (process_event platform event)
  unfolding process_event after_upsert apply_policies
  process_event-IsValid event =
      Meets-bind (Keeps-attempt (Keeps-find_by_mac Sound platform event.mac_address)) λ old.
        Meets-bind (upsert-IsValid platform _) λ row.
          Meets-bind (Keeps-log Sound platform _ _ _ _) λ d.
            Meets-bind (Keeps-when _ (Keeps-log Sound platform _ _ _ _)) λ c.
              Meets-bind (Keeps-load_rules Sound platform) λ rules.
                Meets-if (is_empty rules) _ _ (λ b. Keeps-pure tt)
                  λ b. Meets-bind (evaluate_rules-IsValid rules (context_of row)) λ decision.
                    Meets-bind (already_authenticated-IsValid row)
                      λ known. apply_decision-IsValid row _ _ decision known

  look_up-IsValid : (resp : AuthResponse) → Keeps (On Sound) (look_up platform resp)
  unfolding look_up find_by_host
  look_up-IsValid resp =
      Meets-option resp.endpoint_id _ _
        (λ e.
          Meets-option (non_empty resp.mac_address) _ _
            (λ e.
              Meets-option (non_empty resp.ip_address) _ _ (λ e. Keeps-pure none)
                (λ ip e. Keeps-statement Sound platform _ λ n t sent v. Yields-ok v))
            (λ mac e. Keeps-find_by_mac Sound platform mac))
        (λ eid e. Keeps-find_by_id Sound platform eid)

  resolve-IsValid : (resp : AuthResponse) → Keeps (On Sound) (resolve platform resp)
  unfolding resolve
  resolve-IsValid resp = Meets-bind (look_up-IsValid resp) λ found.
      Meets-option found _ _
        (λ e.
          Meets-option (non_empty resp.mac_address) _ _ (λ e. Keeps-pure none)
            λ mac e. Meets-bind (upsert-IsValid platform _) λ row. Keeps-pure (some row))
        (λ row e. Keeps-pure (some row))

  auth_failed-IsValid :
      (resp : AuthResponse) (endpoint : EndpointRow Json) (session : Option SessionRow)
      → Keeps (On Sound) (auth_failed platform resp endpoint session)
  unfolding auth_failed
  auth_failed-IsValid resp endpoint none =
      Meets-bind (Keeps-pure tt) λ t. Keeps-log Sound platform _ _ _ _
  auth_failed-IsValid resp endpoint (some s) =
      Meets-bind (terminate-IsValid platform s.id) λ t. Keeps-log Sound platform _ _ _ _

  activate-IsValid :
      (session : Option SessionRow) (username : Text)
      → Keeps (On Sound) (activate platform session username)
  activate-IsValid none username = Keeps-pure tt
  activate-IsValid (some s) username =
      transition-IsValid platform s.id "active" (some username) (unfold is_state in refl)

  apply_login-IsValid :
      (resp : AuthResponse) (endpoint : EndpointRow Json) (username : Text)
      (rules : List PolicyRule)
      → Keeps (On Sound) (apply_login platform resp endpoint username rules)
  unfolding apply_login publish_after_auth send
  apply_login-IsValid resp endpoint username rules =
      Meets-bind (evaluate_rules-IsValid rules _) λ decision.
        Meets-bind
          (Keeps-when _ (set_status-IsValid platform endpoint.id _ (decision-IsStatus decision)))
          λ s. Meets-bind (publish-IsValid _) λ p. Keeps-log Sound platform _ _ _ _

  pub process_auth_response-IsValid :
      (resp : AuthResponse) → Keeps (On Sound) (process_auth_response platform resp)
  unfolding process_auth_response answer_login find_session auth_succeeded
  process_auth_response-IsValid resp = Meets-bind (resolve-IsValid resp) λ found.
      Meets-option found _ _ (λ e. Keeps-pure tt)
        λ endpoint e.
          Meets-bind
            (Meets-option resp.session_id _ _
              (λ e. Keeps-find_active_by_endpoint Sound platform endpoint.id)
              (λ sid e. Keeps-find_session Sound platform sid))
            λ session.
              Meets-if resp.success _ _
                (λ b. Meets-bind (Keeps-when _ (set_username-IsValid platform endpoint.id _)) λ u.
                  Meets-bind (activate-IsValid session _) λ a.
                    Meets-bind (Keeps-load_rules Sound platform) λ rules.
                      Meets-if (is_empty rules) _ _ (λ b. Keeps-pure tt)
                        λ b. apply_login-IsValid resp endpoint _ rules)
                (λ b. auth_failed-IsValid resp endpoint session)

  pub process_posture-IsValid :
      (report : PostureReport) → Keeps (On Sound) (process_posture platform report)
  unfolding process_posture record_posture apply_posture
      lentropy.PolicyManager.PostureReports.change_status send
  process_posture-IsValid report =
      Meets-bind (Keeps-find_by_mac Sound platform report.device_id) λ found.
        Meets-option found _ _ (λ e. Keeps-pure tt)
          λ endpoint e. Meets-bind (Keeps-save Sound platform _ _ _) λ s.
            Meets-bind (set_compliance-IsValid platform _ _) λ c.
              Meets-bind (update_posture_fields-IsValid platform _ _) λ f.
                Meets-bind (Keeps-log Sound platform _ _ _ _) λ l.
                  Meets-bind (Keeps-load_rules Sound platform) λ rules.
                    Meets-if (is_empty rules) _ _ (λ b. Keeps-pure tt)
                      λ b. Meets-bind (evaluate_rules-IsValid rules _) λ decision. Keeps-when _ (
                        Meets-bind (set_status-IsValid platform _ _ (decision-IsStatus decision))
                          λ u. Meets-bind (Keeps-log Sound platform _ _ _ _) λ v. publish-IsValid _)
