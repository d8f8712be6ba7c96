-- ===== src/Store/Policy.antt =====
-- crates/nac-store/src/policy.rs: how a row of the policies table becomes a rule, and how a decision
-- becomes the status of a device. The reading of the JSON column is serde's, a parameter.
use lentropy.Common.{
  ℕ, ◌-◌, ◌%◌, ◌^◌, Bool, Option, List, [], ◌∷◌, ◌++◌, codes, Text, String, str_eq, if◌then◌else◌,
  unwrap_or,
}
use lentropy.Common.Int.{ℤ, pos, negsuc}
use lentropy.Outcome.{Outcome, ok, ◌>>=◌}
use lentropy.PolicyEngine.{
  PolicyDecision, allow, allow_vlan, quarantine, deny, Condition, Conditions, nil, cons, PolicyRule,
}

pub record PolicyRow (Json : Type 0) : Type 0 where
  pub id : ℕ
  pub name : Text
  pub description : Option Text
  pub priority : ℤ
  pub conditions : Json
  pub action : String
  pub vlan_id : Option ℤ
  pub enabled : Bool
  pub created_at : ℕ

-- `v as u16` of an `i16`.
abbrev pub as_u16 : ℤ → ℕ
as_u16 (pos n) = n % 2 ^ 16
as_u16 (negsuc n) = 2 ^ 16 - 1 - n % 2 ^ 16

abbrev pub to_conditions : List Condition → Conditions
to_conditions [] = nil
to_conditions (c ∷ cs) = cons c (to_conditions cs)

-- No condition always matches, and one needs no conjunction.
unfoldable pub condition_of : List Condition → Condition
condition_of [] = Condition.and nil
condition_of (c ∷ []) = c
condition_of (c ∷ d ∷ cs) = Condition.and (to_conditions (c ∷ d ∷ cs))

unfoldable pub decision_of : String → Option ℤ → Text → PolicyDecision
decision_of action vlan_id name =
    let reason = codes "policy: " ++ name in
    if str_eq action "allow"
    then allow
    else if str_eq action "quarantine"
    then quarantine (as_u16 (unwrap_or vlan_id (pos 99))) reason
    else deny reason

module _ {Json Error : Type 0} where
  -- `is_null() || == Value::Array(vec![])`, and `serde_json::from_value`.
  unfoldable pub to_policy_rule :
      (Json → Bool)
      → (Json → Outcome Error (List Condition))
      → PolicyRow Json
      → Outcome Error PolicyRule
  unfolding condition_of decision_of
  to_policy_rule is_null_or_empty from_value row = do
    conditions ← if is_null_or_empty row.conditions then ok [] else from_value row.conditions
    ok (record {
      name = row.name;
      priority = row.priority;
      condition = condition_of conditions;
      decision = decision_of row.action row.vlan_id row.name;
    })

unfoldable pub decision_to_status : PolicyDecision → String
decision_to_status allow = "allowed"
decision_to_status (allow_vlan v) = "allowed"
decision_to_status (quarantine v r) = "quarantined"
decision_to_status (deny r) = "denied"
