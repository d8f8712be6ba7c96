-- ===== src/PolicyEngine/Evaluator.antt =====
-- crates/nac-policy-engine/src/evaluator.rs. `str::to_uppercase` is a parameter, since it goes by
-- the Unicode tables; an `i32` is an integer, of which the code reads the order alone.
use lentropy.Common.{
  Bool, true, false, not, ◌&&◌, ◌||◌, Option, none, some, List, [], ◌∷◌, Text, codes, text_eq, any,
  find, if◌then◌else◌,
}
use lentropy.Common.Int.{leb_ℤ}
use lentropy.Outcome.{Outcome, ok}
use lentropy.PolicyEngine.{
  PolicyError, PolicyDecision, deny, PolicyContext, Condition, Conditions, nil, cons, PolicyRule,
}

-- `opt.as_deref() == Some(value)`.
unfoldable pub is_some_text : Option Text → Text → Bool
unfolding text_eq
is_some_text none v = false
is_some_text (some t) v = text_eq t v

-- `opt == Some(required)`.
unfoldable pub is_some_bool : Option Bool → Bool → Bool
is_some_bool none b = false
is_some_bool (some true) b = b
is_some_bool (some false) b = not b

-- `list.contains(t)`.
unfoldable pub contains_text : List Text → Text → Bool
contains_text l t = any (λ g. text_eq g t) l

module _ (to_uppercase : Text → Text) where
  unfoldable pub mac_in_list : List Text → Text → Bool
  mac_in_list macs mac = any (λ m. text_eq (to_uppercase m) (to_uppercase mac)) macs

  unfoldable mutual
    unfolding is_some_text is_some_bool contains_text

    pub matches_condition : Condition → PolicyContext → Bool
    matches_condition (Condition.os_family v) ctx = is_some_text ctx.os_family v
    matches_condition (Condition.user_group groups) ctx =
        any (λ g. contains_text ctx.groups g) groups
    matches_condition (Condition.compliant required) ctx = is_some_bool ctx.is_compliant required
    matches_condition (Condition.device_type v) ctx = is_some_text ctx.device_type v
    matches_condition (Condition.and cs) ctx = all_match cs ctx
    matches_condition (Condition.or cs) ctx = any_match cs ctx
    matches_condition (Condition.not c) ctx = not (matches_condition c ctx)
    matches_condition (Condition.mac_list macs) ctx = mac_in_list macs ctx.mac_address
    matches_condition (Condition.mac_blacklist macs) ctx = mac_in_list macs ctx.mac_address
    matches_condition (Condition.os_version_below v) ctx = false
    matches_condition (Condition.os_version_at_least v) ctx = false
    matches_condition (Condition.software_installed n) ctx = false
    matches_condition (Condition.software_not_installed n) ctx = false
    matches_condition Condition.has_missing_patches ctx = false
    matches_condition Condition.usb_enabled ctx = false
    matches_condition Condition.bluetooth_enabled ctx = false
    matches_condition Condition.folder_sharing_enabled ctx = false

    pub all_match : Conditions → PolicyContext → Bool
    all_match nil ctx = true
    all_match (cons c cs) ctx = matches_condition c ctx && all_match cs ctx

    pub any_match : Conditions → PolicyContext → Bool
    any_match nil ctx = false
    any_match (cons c cs) ctx = matches_condition c ctx || any_match cs ctx

-- `rules.sort_by_key(|r| r.priority)`: a stable sort.
unfoldable pub insert_rule : PolicyRule → List PolicyRule → List PolicyRule
insert_rule r [] = r ∷ []
insert_rule r (s ∷ rest) =
    if leb_ℤ r.priority s.priority then r ∷ s ∷ rest else s ∷ insert_rule r rest

unfoldable pub sort_rules : List PolicyRule → List PolicyRule
unfolding insert_rule
sort_rules [] = []
sort_rules (r ∷ rest) = insert_rule r (sort_rules rest)

abbrev pub no_match_reason : Text
no_match_reason = codes "no matching policy rule"

abbrev pub decide : Option PolicyRule → PolicyDecision
decide none = deny no_match_reason
decide (some r) = r.decision

-- The slice is sorted in place, so it comes back with the result.
module _ (to_uppercase : Text → Text) where
  unfoldable pub evaluate :
      List PolicyRule → PolicyContext → Outcome PolicyError PolicyDecision × List PolicyRule
  unfolding sort_rules
  evaluate rules ctx =
      let sorted = sort_rules rules in
      let hit = find (λ r. matches_condition to_uppercase r.condition ctx) sorted in
      (ok (decide hit), sorted)
