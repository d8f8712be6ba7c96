-- ===== src/Store/Policies.antt =====
-- crates/nac-store/src/policy.rs: the statements of `PolicyRepo`.
use lentropy.Common.{
  ℕ, Bool, true, not, ◌&&◌, ◌||◌, Option, none, some, List, [], ◌∷◌, ◌++◌, Text, text_eq, String,
  str_eq, ◌==◌, if◌then◌else◌, any, find, filter, or_else, unwrap_or,
}
use lentropy.Common.Int.{ℤ, leb_ℤ}
use lentropy.Outcome.{Outcome, ok, collect, map_ok, bail_if, ◌>>◌}
use lentropy.Exec.{pure, lift, ◌>>=◌}
use lentropy.PolicyEngine.{PolicyRule}
use lentropy.Store.Policy.{PolicyRow, to_policy_rule}
use lentropy.Store.Database.{StoreError, violated, Platform, Db, statement, update_where}

pub record CreatePolicy (Json : Type 0) : Type 0 where
  pub name : Text
  pub description : Option Text
  pub priority : ℤ
  pub conditions : Option Json
  pub action : String
  pub vlan_id : Option ℤ

pub record UpdatePolicy (Json : Type 0) : Type 0 where
  pub name : Option Text
  pub description : Option Text
  pub priority : Option ℤ
  pub conditions : Option Json
  pub action : Option String
  pub vlan_id : Option ℤ
  pub enabled : Option Bool

unfoldable pub is_action : String → Bool
is_action a = str_eq a "allow" || (str_eq a "quarantine" || str_eq a "deny")

abbrev is_some_id : Option ℕ → ℕ → Bool
is_some_id none id = Bool.false
is_some_id (some i) id = i == id

module _ {Json : Type 0} where
  -- `ORDER BY priority ASC`; rows of one priority stay in the order of the table.
  unfoldable pub insert_row : PolicyRow Json → List (PolicyRow Json) → List (PolicyRow Json)
  insert_row r [] = r ∷ []
  insert_row r (s ∷ rest) =
      if leb_ℤ r.priority s.priority then r ∷ s ∷ rest else s ∷ insert_row r rest

  unfoldable pub by_priority : List (PolicyRow Json) → List (PolicyRow Json)
  unfolding insert_row
  by_priority [] = []
  by_priority (r ∷ rest) = insert_row r (by_priority rest)

  abbrev policy_has_id : ℕ → PolicyRow Json → Bool
  policy_has_id id p = p.id == id

  module _ (platform : Platform Json) where
    open platform use {now, uuid, is_null_or_empty, conditions_from_value, empty_array}

    abbrev pub to_rule : PolicyRow Json → Outcome StoreError PolicyRule
    to_rule = to_policy_rule is_null_or_empty conditions_from_value

    abbrev with_id : PolicyRow Json → Outcome StoreError (ℕ × PolicyRule)
    with_id r = map_ok (λ rule. (r.id, rule)) (to_rule r)

    abbrev enabled_rows : Db Json (List (PolicyRow Json))
    enabled_rows =
        statement platform
          λ n tables. ok (by_priority (filter (λ p. p.enabled) tables.policies), tables)

    unfoldable pub load_rules : Db Json (List PolicyRule)
    unfolding by_priority collect
    load_rules = do rows ← enabled_rows; lift (collect to_rule rows)

    unfoldable pub load_rules_with_id : Db Json (List (ℕ × PolicyRule))
    unfolding by_priority collect
    load_rules_with_id = do rows ← enabled_rows; lift (collect with_id rows)

    unfoldable pub list_all : Db Json (List (PolicyRow Json))
    unfolding by_priority
    list_all = statement platform λ n tables. ok (by_priority tables.policies, tables)

    unfoldable pub find_by_id : ℕ → Db Json (Option (PolicyRow Json))
    find_by_id id =
        statement platform λ n tables. ok (find (policy_has_id id) tables.policies, tables)

    -- The CHECK on the action, the unique name and the primary key.
    abbrev new_policy : ℕ → CreatePolicy Json → PolicyRow Json
    new_policy n p = record {
      id = uuid n;
      name = p.name;
      description = p.description;
      priority = p.priority;
      conditions = unwrap_or p.conditions empty_array;
      action = p.action;
      vlan_id = p.vlan_id;
      enabled = true;
      created_at = now n;
    }

    unfoldable pub create : CreatePolicy Json → Db Json (PolicyRow Json)
    create p = statement platform λ n tables.
        bail_if
          (not (is_action p.action)
            || any (λ q. text_eq q.name p.name || policy_has_id (uuid n) q) tables.policies)
          violated
        >> ok (new_policy n p, record tables { policies = tables.policies ++ new_policy n p ∷ [] })

    abbrev patched : UpdatePolicy Json → PolicyRow Json → PolicyRow Json → PolicyRow Json
    patched p existing r = record r {
      name = unwrap_or p.name existing.name;
      description = or_else p.description existing.description;
      priority = unwrap_or p.priority existing.priority;
      conditions = unwrap_or p.conditions existing.conditions;
      action = unwrap_or p.action existing.action;
      vlan_id = or_else p.vlan_id existing.vlan_id;
      enabled = unwrap_or p.enabled existing.enabled;
    }

    abbrev write_policy : ℕ → UpdatePolicy Json → PolicyRow Json → Db Json (Option (PolicyRow Json))
    write_policy id p existing = statement platform λ n tables.
        let name = unwrap_or p.name existing.name in
        let rows = update_where (policy_has_id id) (patched p existing) tables.policies in
        bail_if
          (any (policy_has_id id) tables.policies
            && (not (is_action (unwrap_or p.action existing.action))
                || any (λ q. text_eq q.name name && not (policy_has_id id q)) tables.policies))
          violated
        >> ok (find (policy_has_id id) rows, record tables { policies = rows })

    unfoldable pub update : ℕ → UpdatePolicy Json → Db Json (Option (PolicyRow Json))
    unfolding find_by_id
    update id p = do
      found ← find_by_id id
      elim found [ none ↦ pure none | some existing ↦ write_policy id p existing ]

    -- `ON DELETE SET NULL` of the endpoints' column.
    unfoldable pub delete : ℕ → Db Json Bool
    delete id = statement platform λ n tables. ok (
      any (policy_has_id id) tables.policies,
      record tables {
        policies = filter (λ p. not (policy_has_id id p)) tables.policies;
        endpoints =
            update_where (λ e. is_some_id e.assigned_policy_id id)
              (λ e. record e { assigned_policy_id = none }) tables.endpoints;
      },
    )

    unfoldable pub find_rule_by_id : ℕ → Db Json (Option PolicyRule)
    unfolding find_by_id
    find_rule_by_id id = do
      found ← find_by_id id
      elim found [ none ↦ pure none | some r ↦ lift (to_rule r) >>= λ rule. pure (some rule) ]
