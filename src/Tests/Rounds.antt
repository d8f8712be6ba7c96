-- ===== src/Tests/Rounds.antt =====
-- An evaluation of the policies in services/policy-manager.
use native.Mathlib.Omega.{arith}
use lentropy.Common.{◌≡◌, true, false, List, [], ◌∷◌, some, none, codes, All, all}
use lentropy.Common.Int.{pos}
use lentropy.Outcome.{Outcome, ok, ◌>>=◌}
use lentropy.PolicyEngine.{Condition, deny}
use lentropy.Store.Endpoint.{EndpointRow}
use lentropy.Store.Policy.{PolicyRow, to_policy_rule}
use lentropy.PolicyManager.Evaluate.{
  Texts, Answers, RulesWithId, condition_matches, evaluate_policies, compare_os_version,
}
use lentropy.PolicyManager.Evaluate.Versions.{Compares, compare_os_version-dotted}
use lentropy.PolicyManager.Evaluate.Dotted.{dotted}
use lentropy.PolicyManager.Evaluate.Rounds.{DueIn, evaluate_policies-Due, to_policy_rule-matches}

abbrev Json : Type 0
Json = List Condition

abbrev texts : Texts Json
texts = record { to_lowercase = λ t. t; contains = λ s t. false; software_from_value = λ j. none }

abbrev store : Answers texts
store = record { find_rule_by_id = λ id. none; writes = λ id status. true }

abbrev rules : RulesWithId texts
rules =
    (
      5,
      record {
        name = codes "linux";
        priority = pos 1;
        condition = Condition.os_family (codes "linux");
        decision = deny (codes "policy: linux");
      },
    )
    ∷ []

abbrev device : EndpointRow Json
device = record {
  id = 1;
  mac_address = codes "02:00:00:00:00:09";
  ip_address = none;
  hostname = none;
  os_family = some (codes "Linux");
  os_version = some (codes "6.1");
  device_type = none;
  vendor = none;
  vlan_id = none;
  switch_port = none;
  interface = none;
  username = none;
  status = "allowed";
  first_seen = 0;
  last_seen = 0;
  is_compliant = none;
  last_posture_check = none;
  assigned_policy_id = none;
  policy_exempt = false;
  posture_sw = none;
  posture_missing_patches = pos 0;
  posture_usb_enabled = none;
  posture_bluetooth = none;
  posture_folder_sharing = none;
  posture_os_version = none;
  agent_id = none;
}

evaluate_policies-Due_example :
    All
      (DueIn texts store rules none (device ∷ []))
      (evaluate_policies texts store rules none (device ∷ [])).1
evaluate_policies-Due_example = evaluate_policies-Due texts store rules none (device ∷ [])

abbrev policy : PolicyRow Json
policy = record {
  id = 5;
  name = codes "linux";
  description = none;
  priority = pos 1;
  conditions = Condition.os_family (codes "linux") ∷ Condition.compliant false ∷ [];
  action = "deny";
  vlan_id = none;
  enabled = true;
  created_at = 0;
}

abbrev read : Json → Outcome (Unit {0}) (List Condition)
read j = ok j

to_policy_rule-matches_example :
    (to_policy_rule (λ j. false) read policy >>= λ rule.
    ok (condition_matches texts rule.condition device))
    ≡ (read policy.conditions >>= λ cs. ok (all (λ c. condition_matches texts c device) cs))
to_policy_rule-matches_example = to_policy_rule-matches texts (λ j. false) read policy device

compare_os_version-dotted_example :
    Compares
      (10 ∷ 0 ∷ 19045 ∷ [])
      (10 ∷ [])
      (compare_os_version (dotted (10 ∷ 0 ∷ 19045 ∷ [])) (dotted (10 ∷ [])))
compare_os_version-dotted_example =
    compare_os_version-dotted (10 ∷ 0 ∷ 19045 ∷ []) (10 ∷ [])
      (omega arith, (omega arith, (omega arith, tt))) (omega arith, tt)
