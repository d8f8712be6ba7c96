-- ===== src/PolicyManager/Evaluate.antt =====
-- services/policy-manager/src/api/evaluate.rs. The store's answers are parameters: the rules and the
-- endpoints that it lists, the rule that it finds for an id, and whether a change of status is
-- written. What a round does to the store and the message bus is a list of effects.
pub mod Versions
pub mod Dotted
pub mod Rounds
use lentropy.Common.{
  ℕ, ◌+◌, ◌^◌, Bool, true, false, not, ◌&&◌, ◌||◌, Option, none, some, List, [], ◌∷◌, ◌++◌, any,
  length, codes, Text, eq_ignore_ascii_case, String, str_eq, ◌==◌, ltb, if◌then◌else◌, or_else,
  unwrap_or, and_then,
}
use lentropy.Common.Int.{ℤ, pos, leb_ℤ}
use lentropy.Common.Digits.{parse_unsigned}
use lentropy.Common.Net.{split}
use lentropy.Outcome.{Outcome, ok, err, panic, timeout}
use lentropy.PolicyEngine.{Condition, Conditions, nil, cons, PolicyRule}
use lentropy.Store.Endpoint.{EndpointRow}
use lentropy.Store.Policy.{decision_to_status}

pub data Order : Type 0 where
  less equal greater : Order

unfoldable pub compare_ℕ : ℕ → ℕ → Order
compare_ℕ a b = if ltb a b then less else if ltb b a then greater else equal

abbrev pub then_order : Order → Order → Order
then_order equal next = next
then_order other next = other

-- The loop up to the greater length; a part that is missing is zero.
unfoldable pub compare_parts : List ℕ → List ℕ → Order
unfolding compare_ℕ
compare_parts [] [] = equal
compare_parts [] (y ∷ ys) = then_order (compare_ℕ 0 y) (compare_parts [] ys)
compare_parts (x ∷ xs) [] = then_order (compare_ℕ x 0) (compare_parts xs [])
compare_parts (x ∷ xs) (y ∷ ys) = then_order (compare_ℕ x y) (compare_parts xs ys)

abbrev pub keep_some {ℓ} : {A : Type ℓ} → Option A → List A → List A
keep_some none rest = rest
keep_some (some a) rest = a ∷ rest

-- The parts that are numbers of 64 bits; the others are left out.
unfoldable pub numbers : List Text → List ℕ
numbers [] = []
numbers (p ∷ ps) = keep_some (parse_unsigned (2 ^ 64) p) (numbers ps)

unfoldable pub parse_version : Text → List ℕ
unfolding numbers
parse_version s = numbers (split b'.' s)

unfoldable pub compare_os_version : Text → Text → Order
unfolding compare_parts parse_version
compare_os_version a b = compare_parts (parse_version a) (parse_version b)

abbrev pub is_less : Order → Bool
is_less less = true
is_less _ = false

abbrev ignore_case_some : Option Text → Text → Bool
ignore_case_some none v = false
ignore_case_some (some t) v = eq_ignore_ascii_case t v

abbrev eq_bool : Bool → Bool → Bool
eq_bool true b = b
eq_bool false b = not b

abbrev pub PostureSoftwareItem : Type 0
PostureSoftwareItem = Text × Text

pub record Texts (Json : Type 0) : Type 0 where
  pub to_lowercase : Text → Text
  -- `str::contains`, its argument last.
  pub contains : Text → Text → Bool
  -- `serde_json::from_value::<Vec<PostureSoftwareItem>>`, a name and a version each.
  pub software_from_value : Json → Option (List PostureSoftwareItem)

module _ {Json : Type 0} (texts : Texts Json) where
  open texts use {to_lowercase, contains, software_from_value}

  abbrev pub installed_software_list : EndpointRow Json → List PostureSoftwareItem
  installed_software_list ep = unwrap_or (and_then ep.posture_sw software_from_value) []

  abbrev pub ep_version : EndpointRow Json → Text
  ep_version ep = unwrap_or (or_else ep.posture_os_version ep.os_version) []

  abbrev pub has_software : Text → EndpointRow Json → Bool
  has_software name ep =
      any (λ s. contains (to_lowercase s.0) (to_lowercase name)) (installed_software_list ep)

  unfoldable mutual
    unfolding compare_os_version

    pub condition_matches : Condition → EndpointRow Json → Bool
    condition_matches (Condition.and cs) ep = all_match cs ep
    condition_matches (Condition.or cs) ep = any_match cs ep
    condition_matches (Condition.not c) ep = not (condition_matches c ep)
    condition_matches (Condition.os_family v) ep = ignore_case_some ep.os_family v
    condition_matches (Condition.device_type v) ep = ignore_case_some ep.device_type v
    condition_matches (Condition.compliant required) ep =
        eq_bool (unwrap_or ep.is_compliant false) required
    condition_matches (Condition.mac_list macs) ep =
        any (λ m. eq_ignore_ascii_case m ep.mac_address) macs
    condition_matches (Condition.mac_blacklist macs) ep =
        any (λ m. eq_ignore_ascii_case m ep.mac_address) macs
    condition_matches (Condition.user_group groups) ep = false
    condition_matches (Condition.os_version_below v) ep =
        is_less (compare_os_version (ep_version ep) v)
    condition_matches (Condition.os_version_at_least v) ep =
        not (is_less (compare_os_version (ep_version ep) v))
    condition_matches (Condition.software_installed name) ep = has_software name ep
    condition_matches (Condition.software_not_installed name) ep = not (has_software name ep)
    condition_matches Condition.has_missing_patches ep =
        not (leb_ℤ ep.posture_missing_patches (pos 0))
    condition_matches Condition.usb_enabled ep = unwrap_or ep.posture_usb_enabled false
    condition_matches Condition.bluetooth_enabled ep = unwrap_or ep.posture_bluetooth false
    condition_matches Condition.folder_sharing_enabled ep =
        unwrap_or ep.posture_folder_sharing false

    pub all_match : Conditions → EndpointRow Json → Bool
    all_match nil ep = true
    all_match (cons c cs) ep = condition_matches c ep && all_match cs ep

    pub any_match : Conditions → EndpointRow Json → Bool
    any_match nil ep = false
    any_match (cons c cs) ep = condition_matches c ep || any_match cs ep

  abbrev pub RulesWithId : Type 0
  RulesWithId = List (ℕ × PolicyRule)

  -- `id_to_idx` keeps the last index of an id.
  unfoldable pub rule_of : ℕ → RulesWithId → Option PolicyRule
  rule_of pid [] = none
  rule_of pid ((id, rule) ∷ rest) =
      or_else (rule_of pid rest) (if id == pid then some rule else none)

  unfoldable pub first_status : RulesWithId → EndpointRow Json → Option String
  first_status [] ep = none
  first_status ((id, rule) ∷ rest) ep =
      let later = first_status rest ep in
      if condition_matches rule.condition ep then some (decision_to_status rule.decision) else later

  pub data Effect : Type 0 where
    set_status : ℕ → String → Effect
    -- The MAC address, the IP address and the action of an enforcement command.
    publish : Text → Text → String → Effect

  pub record Counts : Type 0 where
    pub changed : ℕ
    pub skipped : ℕ

  pub data StoreError : Type 0 where
    set_status_failed : ℕ → StoreError

  pub record Answers : Type 0 where
    -- `find_rule_by_id`, `none` also for an error.
    pub find_rule_by_id : ℕ → Option PolicyRule
    -- Whether `set_status` succeeds.
    pub writes : ℕ → String → Bool

  module _ (store : Answers) (rules : RulesWithId) (default_action : Option String) where
    abbrev status_of : Option PolicyRule → Option String
    status_of none = none
    status_of (some rule) = some (decision_to_status rule.decision)

    abbrev pub new_status : EndpointRow Json → Option String
    new_status ep = elim ep.assigned_policy_id [
      | none ↦ first_status rules ep
      | some pid ↦ status_of (or_else (rule_of pid rules) (store.find_rule_by_id pid))
    ]

    unfoldable pub effective : EndpointRow Json → Option String
    unfolding first_status rule_of
    effective ep = or_else (new_status ep) default_action

    abbrev pub Round : Type 0
    Round = Outcome StoreError Counts × List Effect

    abbrev also : List Effect → Round → Round
    also es (r, effects) = (r, es ++ effects)

    -- `rest` is the loop over the endpoints that follow.
    abbrev change : EndpointRow Json → Option String → Counts → (Counts → Round) → Round
    change ep none counts rest = rest counts
    change ep (some status) counts rest =
        if str_eq ep.status status
        then rest counts
        else if store.writes ep.id status
        then also
            (set_status ep.id status
              ∷ publish ep.mac_address (unwrap_or ep.ip_address []) status
              ∷ [])
            (rest (record counts { changed = counts.changed + 1 }))
        else (err (set_status_failed ep.id), [])

    unfoldable pub endpoint_loop : List (EndpointRow Json) → Counts → Round
    unfolding effective
    endpoint_loop [] counts = (ok counts, [])
    endpoint_loop (ep ∷ eps) counts =
        let rest = endpoint_loop eps in
        if ep.policy_exempt
        then rest (record counts { skipped = counts.skipped + 1 })
        else change ep (effective ep) counts rest

    unfoldable pub evaluate_policies : List (EndpointRow Json) → Round
    unfolding endpoint_loop
    evaluate_policies endpoints = endpoint_loop endpoints (record { changed = 0; skipped = 0 })
