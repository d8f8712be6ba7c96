-- ===== src/Tests/Rules.antt =====
-- The rules of crates/nac-policy-engine, the rows of the policies table and the compliance policy.
use lentropy.Common.{◌≡◌, ◌⊎◌, ◌↔◌, true, false, List, [], ◌∷◌, some, none, Text, codes, All}
use lentropy.Common.Int.{pos}
use lentropy.Outcome.{ok}
use lentropy.PolicyEngine.{PolicyContext, PolicyRule, allow, deny, quarantine, Condition}
use lentropy.PolicyEngine.Evaluator.{evaluate, no_match_reason}
use lentropy.PolicyEngine.Priority.{Best, matching_rule, evaluate-Best}
use lentropy.Store.Posture.{PostureReport, CompliancePolicy, default_policy}
use lentropy.Store.Posture
use lentropy.Store.Posture.Compliance.{Complies, evaluate_lem}

abbrev same : Text → Text
same t = t

abbrev context : PolicyContext
context = record {
  mac_address = codes "02:00:00:00:00:09";
  ip_address = none;
  hostname = none;
  os_family = some (codes "Linux");
  device_type = none;
  username = none;
  groups = [];
  is_compliant = some true;
  switch_port = none;
}

abbrev rules : List PolicyRule
rules =
    record {
      name = codes "rest";
      priority = pos 20;
      condition = Condition.compliant true;
      decision = quarantine 99 (codes "rest");
    }
    ∷ record {
      name = codes "linux";
      priority = pos 10;
      condition = Condition.os_family (codes "Linux");
      decision = allow;
    }
    ∷ []

evaluate-Best_example :
    ((r : PolicyRule) × Best (matching_rule same rules context) rules r
      × ((evaluate same rules context).0 ≡ ok r.decision))
    ⊎ (All (λ r. matching_rule same rules context r ≡ false) rules
        × ((evaluate same rules context).0 ≡ ok (deny no_match_reason)))
evaluate-Best_example = evaluate-Best same rules context

abbrev report : PostureReport
report = record {
  device_id = codes "02:00:00:00:00:09";
  os = codes "Windows";
  os_version = codes "11";
  installed_software = record { name = codes "Antivirus"; version = codes "1" } ∷ [];
  missing_patches = [];
  usb_enabled = true;
  bluetooth_enabled = true;
  folder_sharing_enabled = true;
  timestamp = pos 0;
}

evaluate_lem_example :
    (Posture.evaluate same (λ s t. true) default_policy report ≡ true)
    ↔ Complies same (λ s t. true) default_policy report
evaluate_lem_example = evaluate_lem same (λ s t. true) default_policy report
