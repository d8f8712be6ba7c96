-- ===== src/PolicyManager/Api/IpRules.antt =====
-- services/policy-manager/src/api/ip_rules.rs: the requests that change the rules for addresses.
use lentropy.Common.{
  ℕ, Bool, true, false, not, ◌||◌, Option, none, some, [], ◌∷◌, ◌++◌, Text, String, codes, str_eq,
  text_eq, ◌==◌, if◌then◌else◌, any, find, filter,
}
use lentropy.Outcome.{Outcome, ok, err, panic, timeout, bail_if, ◌>>◌}
use lentropy.Exec.{pure, fail, ◌>>=◌}
use lentropy.Store.Posture.{is_empty}
use lentropy.Store.Database.{
  IpRuleRow, Platform, Db, StoreError, violated, World, statement, update_where,
}
use lentropy.PolicyManager.Commands.{strip_cidr, send}
use lentropy.PolicyManager.Api.{Api, AppError, db, not_found, asked}

pub record CreateIpRuleRequest : Type 0 where
  pub ip_cidr : Text
  pub action : String
  pub note : Option Text

abbrev rule_has_id : ℕ → IpRuleRow → Bool
rule_has_id id r = r.id == id

module _ {Json A : Type 0} where
  -- An error that tells of a unique key is answered with NotFound.
  abbrev pub unless_unique : Outcome StoreError A × World Json → Outcome AppError A × World Json
  unless_unique (ok a, w) = (ok a, w)
  unless_unique (err violated, w) = (err not_found, w)
  unless_unique (err e, w) = (err (db e), w)
  unless_unique (panic, w) = (panic, w)
  unless_unique (timeout, w) = (timeout, w)

module _ {Json : Type 0} (platform : Platform Json) where
  open platform use {now, uuid, trim}

  unfoldable pub publish_ip_enforcement : Text → String → Api Json (Unit {0})
  unfolding asked send strip_cidr
  publish_ip_enforcement ip action =
      if str_eq action "block" || (str_eq action "quarantine" || str_eq action "allow")
      then asked (send platform (codes "00:00:00:00:00:00") (strip_cidr ip) action none)
      else pure tt

  abbrev new_rule : ℕ → Text → String → Option Text → IpRuleRow
  new_rule n cidr action note = record {
    id = uuid n;
    ip_cidr = cidr;
    action = action;
    note = note;
    enabled = true;
    created_at = now n;
  }

  -- The keys of the table; the CHECK on the action is the one that the request has passed.
  unfoldable pub add_rule : Text → String → Option Text → Db Json IpRuleRow
  add_rule cidr action note = statement platform λ n tables.
      bail_if (any (λ r. text_eq r.ip_cidr cidr || rule_has_id (uuid n) r) tables.ip_rules) violated
      >> ok (
        new_rule n cidr action note,
        record tables { ip_rules = tables.ip_rules ++ new_rule n cidr action note ∷ [] },
      )

  unfoldable pub create_ip_rule : CreateIpRuleRequest → Api Json IpRuleRow
  unfolding add_rule publish_ip_enforcement
  create_ip_rule req =
      if is_empty (trim req.ip_cidr)
      then fail not_found
      else if not (str_eq req.action "block" || str_eq req.action "quarantine")
      then fail not_found
      else do
        rule ← λ w. unless_unique (add_rule (trim req.ip_cidr) req.action req.note w)
        p ← publish_ip_enforcement rule.ip_cidr rule.action
        pure rule

  unfoldable pub delete_rule : ℕ → Db Json (Option IpRuleRow)
  delete_rule id = statement platform λ n tables. ok (
    find (rule_has_id id) tables.ip_rules,
    record tables { ip_rules = filter (λ r. not (rule_has_id id r)) tables.ip_rules },
  )

  unfoldable pub delete_ip_rule : ℕ → Api Json (Unit {0})
  unfolding asked delete_rule publish_ip_enforcement
  delete_ip_rule id = do
    row ← asked (delete_rule id)
    elim row [ none ↦ fail not_found | some r ↦ publish_ip_enforcement r.ip_cidr "allow" ]

  unfoldable pub enable_rule : ℕ → Bool → Db Json (Option IpRuleRow)
  enable_rule id enabled = statement platform λ n tables.
      let rows =
        update_where (rule_has_id id) (λ r. record r { enabled = enabled }) tables.ip_rules in
      ok (find (rule_has_id id) rows, record tables { ip_rules = rows })

  unfoldable pub set_enabled : ℕ → Bool → Api Json (Unit {0})
  unfolding asked enable_rule publish_ip_enforcement
  set_enabled id enabled = do
    row ← asked (enable_rule id enabled)
    elim row [
      | none ↦ fail not_found
      | some r ↦ publish_ip_enforcement r.ip_cidr (if enabled then r.action else "allow")
    ]

  unfoldable pub set_ip_rule_enabled : ℕ → String → Api Json (Unit {0})
  unfolding set_enabled
  set_ip_rule_enabled id action =
      if str_eq action "enable"
      then set_enabled id true
      else if str_eq action "disable"
      then set_enabled id false
      else fail not_found
