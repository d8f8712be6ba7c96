-- ===== src/PolicyManager/Api/Valid.antt =====
-- The requests of services/policy-manager/src/api keep what the tables promise.
use lentropy.Common.{
  ℕ, Bool, true, false, not, ◌||◌, Option, none, some, List, Text, String, str_eq, ◌≡◌, refl,
  if◌then◌else◌,
}
use lentropy.Outcome.{Outcome, ok, err, panic, timeout}
use lentropy.Exec.Triples.{Ends, Ends-state, Keeps, Meets-if, Meets-option, Meets-bind, Keeps-pure}
use lentropy.Store.Endpoint.{EndpointRow}
use lentropy.Store.Posture.{is_empty}
use lentropy.Store.Database.{
  Platform, Db, StoreError, unreachable, invalid_input, violated, serde_failed, policy_failed,
  World, is_status, Value, IpRuleRow,
}
use lentropy.Store.Steps.{On, Yields-ok, Yields-bail, Keeps-statement, Keeps-log, Keeps-find_by_id}
use lentropy.Store.Valid.{IsValid}
use lentropy.Store.Valid.Writes.{Sound, set_status-IsValid, set_policy-IsValid, set_exempt-IsValid}
use lentropy.PolicyManager.Commands.{send}
use lentropy.PolicyManager.Events.Valid.{publish-IsValid}
use lentropy.PolicyManager.Api.{
  AppError, answer_with, set_and_send, update_endpoint_status, allow_endpoint, block_endpoint,
  quarantine_endpoint, set_and_note, assign_policy, set_exempt,
}
use lentropy.PolicyManager.Api.IpRules.{
  CreateIpRuleRequest, unless_unique, publish_ip_enforcement, add_rule, create_ip_rule,
  delete_ip_rule, set_enabled, set_ip_rule_enabled,
}
use lentropy.PolicyManager.Api.IpRules
use lentropy.PolicyManager.Api.Decided.{Meets-fail, Meets-asked}
use lentropy.PolicyManager.Api.Requests.{
  Request, allow, block, quarantine, policy, exempt, create_rule, delete_rule, enable_rule, serve,
}

module _ {Json : Type 0} where
  unless_unique-Ends :
      (r : Outcome StoreError IpRuleRow × World Json)
      → Ends (λ _. On Sound) (On Sound) r
      → Ends (λ _. On Sound) (On Sound) (unless_unique r)
  unless_unique-Ends (ok a, w) h = h
  unless_unique-Ends (err unreachable, w) h = h
  unless_unique-Ends (err (invalid_input t), w) h = h
  unless_unique-Ends (err violated, w) h = h
  unless_unique-Ends (err serde_failed, w) h = h
  unless_unique-Ends (err (policy_failed e), w) h = h
  unless_unique-Ends (panic, w) h = h
  unless_unique-Ends (timeout, w) h = h

  unless_unique-IsValid :
      (m : Db Json IpRuleRow) → Keeps (On Sound) m → Keeps (On Sound) (λ w. unless_unique (m w))
  unless_unique-IsValid m k = record { at = λ w v. unless_unique-Ends (m w) (k.at w v) }

module _ {Json : Type 0} (platform : Platform Json) where
  answer_with-IsValid : (o : Option (EndpointRow Json)) → Keeps (On Sound) (answer_with platform o)
  unfolding answer_with
  answer_with-IsValid none = Meets-fail _ λ w v. v
  answer_with-IsValid (some ep) =
      Meets-option (platform.endpoint_to_value ep) _ _ (λ e. Meets-fail _ λ w v. v)
        λ a e. Keeps-pure a

  update_endpoint_status-IsValid :
      (id : ℕ) (status event_type : String)
      → is_status status ≡ true
      → Keeps (On Sound) (update_endpoint_status platform id status event_type)
  unfolding update_endpoint_status set_and_send send
  update_endpoint_status-IsValid id status event_type good =
      Meets-bind (Meets-asked (Keeps-find_by_id Sound platform id)) λ found.
        Meets-option found _ _ (λ e. Meets-fail _ λ w v. v)
          λ ep e. Meets-bind (Meets-asked (set_status-IsValid platform id status good)) λ s.
            Meets-bind (Meets-asked (Keeps-log Sound platform _ _ _ _)) λ l.
              Meets-bind (Meets-asked (publish-IsValid platform _)) λ p.
                Meets-bind (Meets-asked (Keeps-find_by_id Sound platform id))
                  λ updated. answer_with-IsValid updated

  set_and_note-IsValid :
      (m : Db Json (Unit {0})) (event_type : String) (id : ℕ) (detail : List (String × Value))
      → Keeps (On Sound) m
      → Keeps (On Sound) (set_and_note platform m event_type id detail)
  unfolding set_and_note
  set_and_note-IsValid m event_type id detail k = Meets-bind (Meets-asked k) λ s.
      Meets-bind (Meets-asked (Keeps-log Sound platform _ _ _ _)) λ l.
        Meets-bind (Meets-asked (Keeps-find_by_id Sound platform id))
          λ updated. answer_with-IsValid updated

  assign_policy-IsValid :
      (id : ℕ) (policy_id : Option ℕ) → Keeps (On Sound) (assign_policy platform id policy_id)
  unfolding assign_policy
  assign_policy-IsValid id policy_id =
      Meets-bind (Meets-asked (Keeps-find_by_id Sound platform id)) λ found.
        Meets-option found _ _ (λ e. Meets-fail _ λ w v. v)
          λ ep e. set_and_note-IsValid _ _ _ _ (set_policy-IsValid platform id policy_id)

  set_exempt_request-IsValid : (id : ℕ) (e : Bool) → Keeps (On Sound) (set_exempt platform id e)
  unfolding set_exempt
  set_exempt_request-IsValid id e =
      Meets-bind (Meets-asked (Keeps-find_by_id Sound platform id)) λ found.
        Meets-option found _ _ (λ e. Meets-fail _ λ w v. v)
          λ ep e'. set_and_note-IsValid _ _ _ _ (set_exempt-IsValid platform id e)

  publish_ip_enforcement-IsValid :
      (ip : Text) (action : String) → Keeps (On Sound) (publish_ip_enforcement platform ip action)
  unfolding publish_ip_enforcement send
  publish_ip_enforcement-IsValid ip action =
      Meets-if (str_eq action "block" || (str_eq action "quarantine" || str_eq action "allow")) _ _
        (λ b. Meets-asked (publish-IsValid platform _)) (λ b. Keeps-pure tt)

  create_ip_rule-IsValid :
      (req : CreateIpRuleRequest) → Keeps (On Sound) (create_ip_rule platform req)
  unfolding create_ip_rule add_rule
  create_ip_rule-IsValid req =
      Meets-if (is_empty (platform.trim req.ip_cidr)) _ _ (λ b. Meets-fail _ λ w v. v)
        λ b.
          Meets-if (not (str_eq req.action "block" || str_eq req.action "quarantine")) _ _
            (λ b. Meets-fail _ λ w v. v)
            λ b.
              Meets-bind
                (unless_unique-IsValid _ (
                  Keeps-statement Sound platform _
                    λ n t sent v. Yields-bail _ _ _ λ f. Yields-ok v))
                λ rule.
                  Meets-bind (publish_ip_enforcement-IsValid rule.ip_cidr rule.action)
                    λ p. Keeps-pure rule

  delete_ip_rule-IsValid : (id : ℕ) → Keeps (On Sound) (delete_ip_rule platform id)
  unfolding delete_ip_rule lentropy.PolicyManager.Api.IpRules.delete_rule
  delete_ip_rule-IsValid id =
      Meets-bind (Meets-asked (Keeps-statement Sound platform _ λ n t sent v. Yields-ok v)) λ row.
        Meets-option row _ _ (λ e. Meets-fail _ λ w v. v)
          λ r e. publish_ip_enforcement-IsValid r.ip_cidr "allow"

  set_enabled-IsValid :
      (id : ℕ) (enabled : Bool) → Keeps (On Sound) (set_enabled platform id enabled)
  unfolding set_enabled lentropy.PolicyManager.Api.IpRules.enable_rule
  set_enabled-IsValid id enabled =
      Meets-bind (Meets-asked (Keeps-statement Sound platform _ λ n t sent v. Yields-ok v)) λ row.
        Meets-option row _ _ (λ e. Meets-fail _ λ w v. v)
          λ r e. publish_ip_enforcement-IsValid r.ip_cidr (if enabled then r.action else "allow")

  set_ip_rule_enabled-IsValid :
      (id : ℕ) (action : String) → Keeps (On Sound) (set_ip_rule_enabled platform id action)
  unfolding set_ip_rule_enabled
  set_ip_rule_enabled-IsValid id action =
      Meets-if (str_eq action "enable") _ _ (λ b. set_enabled-IsValid id true)
        λ b.
          Meets-if (str_eq action "disable") _ _ (λ b. set_enabled-IsValid id false)
            λ b. Meets-fail _ λ w v. v

  pub serve-IsValid :
      (req : Request) (w : World Json) → IsValid w.tables → IsValid (serve platform req w).tables
  unfolding serve allow_endpoint block_endpoint quarantine_endpoint is_status
  serve-IsValid (allow id) w v =
      Ends-state (On Sound) _ ((update_endpoint_status-IsValid id _ _ refl).at w v)
  serve-IsValid (block id) w v =
      Ends-state (On Sound) _ ((update_endpoint_status-IsValid id _ _ refl).at w v)
  serve-IsValid (quarantine id) w v =
      Ends-state (On Sound) _ ((update_endpoint_status-IsValid id _ _ refl).at w v)
  serve-IsValid (policy id p) w v = Ends-state (On Sound) _ ((assign_policy-IsValid id p).at w v)
  serve-IsValid (exempt id e) w v =
      Ends-state (On Sound) _ ((set_exempt_request-IsValid id e).at w v)
  serve-IsValid (create_rule req) w v =
      Ends-state (On Sound) _ ((create_ip_rule-IsValid req).at w v)
  serve-IsValid (delete_rule id) w v = Ends-state (On Sound) _ ((delete_ip_rule-IsValid id).at w v)
  serve-IsValid (enable_rule id a) w v =
      Ends-state (On Sound) _ ((set_ip_rule_enabled-IsValid id a).at w v)
