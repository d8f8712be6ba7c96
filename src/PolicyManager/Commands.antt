-- ===== src/PolicyManager/Commands.antt =====
-- services/policy-manager/src: what its handlers share. The handlers of consumer.rs and
-- session_handler.rs have each a `publish_enforcement_command` of its own.
use lentropy.Common.{
  ℕ, ◌-◌, ◌^◌, Bool, true, false, Option, none, some, List, [], ◌∷◌, Text, String, str_eq, text_eq,
  ltb, if◌then◌else◌, unwrap_or,
}
use lentropy.Common.Int.{ℤ, pos, negsuc}
use lentropy.Common.Net.{before}
use lentropy.Outcome.{Outcome, ok, err, panic, timeout}
use lentropy.Exec.{pure, lift}
use lentropy.PolicyEngine.{
  PolicyError, PolicyDecision, allow_vlan, quarantine, PolicyContext, PolicyRule,
}
use lentropy.PolicyEngine.Evaluator.{evaluate}
use lentropy.Store.Database.{Platform, Db, StoreError, policy_failed, command, publish}
use lentropy.Enforcement.Consumer.{EnforcementCommand}

-- `s.split('/').next().unwrap_or(s)`.
unfoldable pub strip_cidr : Text → Text
strip_cidr ip = before b'/' ip

abbrev pub map_some {ℓ κ} : {A : Type ℓ} {B : Type κ} → (A → B) → Option A → Option B
map_some f none = none
map_some f (some a) = some (f a)

abbrev pub flatten {ℓ} : {A : Type ℓ} → Option (Option A) → Option A
flatten none = none
flatten (some o) = o

abbrev pub is_some {ℓ} : {A : Type ℓ} → Option A → Bool
is_some none = false
is_some (some a) = true

-- `Option<String>`'s `==`.
abbrev pub option_text_eq : Option Text → Option Text → Bool
option_text_eq none none = true
option_text_eq none (some b) = false
option_text_eq (some a) none = false
option_text_eq (some a) (some b) = text_eq a b

abbrev pub non_empty : Text → Option Text
non_empty [] = none
non_empty (c ∷ cs) = some (c ∷ cs)

-- `v as i16` of a `u16`.
abbrev pub as_i16 : ℕ → ℤ
as_i16 v = if ltb v (2 ^ 15) then pos v else negsuc (2 ^ 16 - 1 - v)

unfoldable pub vlan_of : PolicyDecision → Option ℕ
vlan_of (quarantine vlan reason) = some vlan
vlan_of (allow_vlan v) = some v
vlan_of _ = none

-- The action for a status; a status of another kind has none.
unfoldable pub action_of : String → Option String
action_of status =
    if str_eq status "quarantined"
    then some "quarantine"
    else if str_eq status "denied"
    then some "block"
    else if str_eq status "allowed"
    then some "allow"
    else none

unfoldable pub enforcement : Text → Text → String → Option ℕ → EnforcementCommand
enforcement mac ip action vlan_id = record {
  mac_address = mac;
  ip_address = ip;
  action = action;
  gateway_ip = [];
  gateway_mac = none;
  vlan_id = vlan_id;
}

module _ {Json : Type 0} (platform : Platform Json) where
  abbrev policy_result : Outcome PolicyError PolicyDecision → Outcome StoreError PolicyDecision
  policy_result (ok d) = ok d
  policy_result (err e) = err (policy_failed e)
  policy_result panic = panic
  policy_result timeout = timeout

  -- `evaluator::evaluate(&mut rules, &ctx)?`.
  unfoldable pub evaluate_rules : List PolicyRule → PolicyContext → Db Json PolicyDecision
  evaluate_rules rules ctx = lift (policy_result (evaluate platform.to_uppercase rules ctx).0)

  unfoldable pub send : Text → Text → String → Option ℕ → Db Json (Unit {0})
  unfolding enforcement
  send mac ip action vlan_id = publish platform (command (enforcement mac ip action vlan_id))

  -- consumer.rs: nothing is published for another status, and the IP address has no prefix length.
  unfoldable pub publish_if_known :
      Text → Option Text → String → PolicyDecision → Db Json (Unit {0})
  unfolding send strip_cidr action_of vlan_of
  publish_if_known mac ip status decision = elim (action_of status) [
    | none ↦ pure tt
    | some action ↦ send mac (unwrap_or (map_some strip_cidr ip) []) action (vlan_of decision)
  ]

  -- session_handler.rs: another status is published as "allow", and the IP address as it is.
  unfoldable pub publish_after_auth :
      Text → Option Text → String → PolicyDecision → Db Json (Unit {0})
  unfolding send action_of vlan_of
  publish_after_auth mac ip status decision =
      send mac (unwrap_or ip []) (unwrap_or (action_of status) "allow") (vlan_of decision)
