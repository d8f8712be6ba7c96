-- ===== src/Tests/Commands.antt =====
-- The commands of services/policy-manager, and what services/enforcement does with them.
use lentropy.Common.{
  ℕ, ◌≡◌, refl, Bool, true, false, List, [], ◌∷◌, ◌++◌, some, none, Option, Text, codes, String,
  All, Any, find, str_eq, ◌⊎◌,
}
use lentropy.Outcome.{ok}
use lentropy.Exec.Triples.{Ends}
use lentropy.Store.Policy.{PolicyRow}
use lentropy.Store.Database.{Platform, Tables, World, SessionRow, Message, command}
use lentropy.Store.Endpoints.{UpsertEndpoint, upsert_rows}
use lentropy.Store.Sessions.{find_active}
use lentropy.Enforcement.Consumer.{EnforcementCommand, map_action}
use lentropy.Enforcement.Consumer
use lentropy.Enforcement.Firewall.{nft_mac}
use lentropy.PolicyManager.Commands.{enforcement}
use lentropy.PolicyManager.Detected.{EndpointDetectedEvent, process_event}
use lentropy.PolicyManager.Api.{update_endpoint_status}
use lentropy.PolicyManager.Api.Decided.{Applied, Halfway, update_endpoint_status-Applied}
use lentropy.PolicyManager.Api.Enforced.{request_then_enforced}
use lentropy.PolicyManager.Events.Enforced.{Restricted, detected_then_enforced}
use lentropy.Tests.Firewalls.{tools-SaysExists, tools-Deletes, host, world as firewall}
use lentropy.Tests.SmallTables.{platform, mac, device, start, event}

update_endpoint_status-Applied_example :
    let before = start "pending" [] in
    Ends
      (Applied platform 100 "denied" before.tables.endpoints [])
      (Halfway platform 100 "denied" before.tables.endpoints [])
      (update_endpoint_status platform 100 "denied" "endpoint_blocked" before)
update_endpoint_status-Applied_example =
    update_endpoint_status-Applied platform 100 "denied" "endpoint_blocked" (start "pending" [])

-- The quarantine that the detection publishes, and its handling.
published :
    (process_event platform event (start "pending" [])).1.sent
    ≡ command (enforcement mac (codes "192.168.0.25") "quarantine" (some 99)) ∷ []
unfolding process_event lentropy.Exec.◌>>=◌ lentropy.Exec.attempt
    lentropy.Store.Endpoints.find_by_mac lentropy.Store.Database.statement
    lentropy.Store.Endpoints.upsert lentropy.Outcome.bail_if lentropy.Common.text_eq
    lentropy.Store.Logs.log lentropy.Exec.when lentropy.Common.Net.before
    lentropy.Store.Policies.load_rules lentropy.Store.Policy.to_policy_rule
    lentropy.PolicyManager.Commands.evaluate_rules lentropy.PolicyEngine.Evaluator.evaluate
    lentropy.Store.Policy.decision_to_status lentropy.PolicyEngine.Evaluator.matches_condition
    lentropy.Outcome.collect lentropy.PolicyEngine.Evaluator.sort_rules
    lentropy.PolicyManager.Commands.action_of enforcement
    lentropy.PolicyManager.Commands.publish_if_known lentropy.PolicyManager.Commands.send
    lentropy.PolicyManager.Commands.strip_cidr lentropy.PolicyManager.Commands.vlan_of
    lentropy.PolicyManager.Detected.after_upsert
    lentropy.PolicyManager.Detected.already_authenticated
    lentropy.PolicyManager.Detected.apply_decision lentropy.PolicyManager.Detected.apply_policies
    lentropy.PolicyManager.Detected.change_status lentropy.PolicyManager.Detected.has_login
    lentropy.Store.Database.is_status lentropy.Store.Database.publish
    lentropy.Store.Endpoints.set_status upsert_rows lentropy.Store.Policies.by_priority
    lentropy.Store.Policy.condition_of lentropy.Store.Policy.decision_of
    lentropy.Store.Sessions.create
published = refl

handled :
    (Consumer.handle host
      (enforcement mac (codes "192.168.0.25") "quarantine" (some 99))
      firewall).0
    ≡ ok tt
unfolding lentropy.Enforcement.Consumer.handle Consumer.is_allow_action enforcement
    Consumer.execute_command map_action lentropy.Enforcement.Firewall.quarantine
    lentropy.Common.text_eq lentropy.Common.Net.before Consumer.get
    lentropy.Enforcement.Firewall.nft_add_elem lentropy.Common.Net.parse_ipv4
    lentropy.Common.Digits.parse_unsigned lentropy.Common.Digits.hex_digits
    lentropy.Enforcement.Proc.detect_default_gateway
handled = refl

detected_then_enforced_example :
    let cmd = enforcement mac (codes "192.168.0.25") "quarantine" (some 99) in
    Any
      (λ r.
        (r.mac_address ≡ mac)
        × Restricted
            (Consumer.handle host cmd firewall).1.firewall.members
            r.status
            (nft_mac host.tools mac))
      (process_event platform event (start "pending" [])).1.tables.endpoints
unfolding enforcement
detected_then_enforced_example =
    detected_then_enforced platform host tools-SaysExists tools-Deletes event (start "pending" [])
      (enforcement mac (codes "192.168.0.25") "quarantine" (some 99)) firewall published refl
      handled

-- A quarantine that is asked for over the API, and its handling.
request_answered :
    (update_endpoint_status platform 100 "quarantined" "endpoint_quarantined"
      (start "pending" [])).0
    ≡ ok tt
unfolding update_endpoint_status lentropy.Exec.◌>>=◌ lentropy.Store.Endpoints.find_by_id
    lentropy.Store.Database.statement lentropy.Store.Endpoints.set_status lentropy.Outcome.bail_if
    lentropy.Store.Database.is_status lentropy.Store.Logs.log lentropy.Store.Database.publish
    lentropy.Common.Net.before
request_answered = refl

abbrev requested : EnforcementCommand
requested = enforcement mac (codes "192.168.0.24") "quarantined" none

requested_by_request :
    (update_endpoint_status platform 100 "quarantined" "endpoint_quarantined"
      (start "pending" [])).1.sent
    ≡ command requested ∷ []
unfolding update_endpoint_status lentropy.Exec.◌>>=◌ lentropy.Store.Endpoints.find_by_id
    lentropy.Store.Database.statement lentropy.Store.Endpoints.set_status lentropy.Outcome.bail_if
    lentropy.Store.Database.is_status lentropy.Store.Logs.log lentropy.Store.Database.publish
    lentropy.Common.Net.before
requested_by_request = refl

obeyed : (Consumer.handle host requested firewall).0 ≡ ok tt
unfolding lentropy.Enforcement.Consumer.handle Consumer.is_allow_action enforcement
    Consumer.execute_command map_action lentropy.Enforcement.Firewall.quarantine
    lentropy.Common.text_eq lentropy.Common.Net.before Consumer.get
    lentropy.Enforcement.Firewall.nft_add_elem lentropy.Common.Net.parse_ipv4
    lentropy.Common.Digits.parse_unsigned lentropy.Common.Digits.hex_digits
    lentropy.Enforcement.Proc.detect_default_gateway
obeyed = refl

request_then_enforced_example :
    Restricted
      (Consumer.handle host requested firewall).1.firewall.members
      "quarantined"
      (nft_mac host.tools mac)
request_then_enforced_example =
    request_then_enforced platform host tools-SaysExists tools-Deletes 100 "quarantined"
      "endpoint_quarantined" (start "pending" []) (device "pending") tt requested firewall refl
      request_answered requested_by_request refl obeyed
