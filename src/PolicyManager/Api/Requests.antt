-- ===== src/PolicyManager/Api/Requests.antt =====
-- services/policy-manager/src/api/mod.rs: the requests that change devices and rules for addresses,
-- each with its handler. The answer goes to the client.
use lentropy.Common.{ℕ, Bool, Option, String}
use lentropy.Store.Database.{Platform, World}
use lentropy.PolicyManager.Api.{
  allow_endpoint, block_endpoint, quarantine_endpoint, assign_policy, set_exempt,
}
use lentropy.PolicyManager.Api.IpRules.{
  CreateIpRuleRequest, create_ip_rule, delete_ip_rule, set_ip_rule_enabled,
}

pub data Request : Type 0 where
  allow : ℕ → Request
  block : ℕ → Request
  quarantine : ℕ → Request
  policy : ℕ → Option ℕ → Request
  exempt : ℕ → Bool → Request
  create_rule : CreateIpRuleRequest → Request
  delete_rule : ℕ → Request
  enable_rule : ℕ → String → Request

module _ {Json : Type 0} (platform : Platform Json) where
  unfoldable pub serve : Request → World Json → World Json
  serve (allow id) w = (allow_endpoint platform id w).1
  serve (block id) w = (block_endpoint platform id w).1
  serve (quarantine id) w = (quarantine_endpoint platform id w).1
  serve (policy id policy_id) w = (assign_policy platform id policy_id w).1
  serve (exempt id e) w = (set_exempt platform id e w).1
  serve (create_rule req) w = (create_ip_rule platform req w).1
  serve (delete_rule id) w = (delete_ip_rule platform id w).1
  serve (enable_rule id action) w = (set_ip_rule_enabled platform id action w).1
