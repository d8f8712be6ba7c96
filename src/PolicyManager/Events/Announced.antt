-- ===== src/PolicyManager/Events/Announced.antt =====
-- What the handlers of services/policy-manager/src publish: at most one command, and one that the
-- table backs.
pub mod Devices
pub mod Handlers
pub mod Logins
use native.Mathlib.Omega.{arith}
use lentropy.Common.{
  ℕ, suc, Bool, true, false, not, ◌&&◌, ◌||◌, Option, none, some, List, [], ◌∷◌, ◌++◌, Text, String,
  str_eq, eq_iff, ◌==◌, ◌≡◌, refl, sym, ◌⊎◌, inl, inr, if◌then◌else◌, if_lem, Option-cases,
  Bool-cases, find, any, Any, here, there, Any-last, find-Any, ==_refl, text_eq_refl, unwrap_or,
}
use lentropy.Outcome.{Outcome, ok, err}
use lentropy.Exec.{Exec, pure}
use lentropy.Exec.Triples.{
  Ends, Ends-state, Meets, Keeps, Meets-pure, Meets-if, Meets-option, Meets-bind, Meets-fails,
  Meets-weaken, Keeps-pure, Keeps-lift, Keeps-attempt, Keeps-when,
}
use lentropy.PolicyEngine.{
  PolicyDecision, allow, allow_vlan, quarantine, deny, PolicyContext, PolicyRule,
}
use lentropy.Store.Endpoint.{EndpointRow}
use lentropy.Store.Policy.{decision_to_status}
use lentropy.Store.Database.{
  Platform, Db, StoreError, Tables, Message, command, World, statement, publish, cast, cast_option,
  update_where,
}
use lentropy.Store.Endpoints.{
  UpsertEndpoint, PostureFields, has_mac, has_id, insert_endpoint, merge_endpoint, upsert_rows,
  upsert, find_by_mac, find_by_id, set_status, set_username, set_compliance, update_posture_fields,
  update_row,
}
use lentropy.Store.Steps.{
  OnEndpoints, Yields, Yields-ok, Yields-bail, Yields-bind, Meets-statement, Meets-publish,
}
use lentropy.Enforcement.Consumer.{EnforcementCommand, is_allow_action, map_action}
use lentropy.PolicyManager.Commands.{action_of, enforcement, send}

-- The enforcement service does for the action what the status asks for.
abbrev pub Means : String → String → Type 0
Means status action =
    (is_allow_action action ≡ str_eq status "allowed") × (map_action action ≡ map_action status)

told :
    (status action status' action' : String)
    → str_eq status status' ≡ true
    → some action' ≡ some action
    → Means status' action'
    → Means status action
told status action status' action' b e means =
    let same : status ≡ status' = (eq_iff status status').0 b in
    let acts : action' ≡ action = cc in rw (same, sym acts) means

pub action_of-Means :
    (status action : String) → action_of status ≡ some action → Means status action
unfolding action_of is_allow_action map_action
action_of-Means status action e =
    if_lem (λ o. o ≡ some action → Means status action) (str_eq status "quarantined") _ _
      (λ b e. told status action "quarantined" "quarantine" b e (refl, refl))
      (λ b e.
        if_lem (λ o. o ≡ some action → Means status action) (str_eq status "denied") _ _
          (λ b e. told status action "denied" "block" b e (refl, refl))
          (λ b e.
            if_lem (λ o. o ≡ some action → Means status action) (str_eq status "allowed") _ _
              (λ b e. told status action "allowed" "allow" b e (refl, refl)) (λ b e. absurd cc) e)
          e)
      e

pub decision-Means : (d : PolicyDecision) → Means (decision_to_status d) (decision_to_status d)
unfolding decision_to_status is_allow_action map_action
decision-Means allow = (refl, refl)
decision-Means (allow_vlan v) = (refl, refl)
decision-Means (quarantine v r) = (refl, refl)
decision-Means (deny r) = (refl, refl)

pub decision_known :
    (d : PolicyDecision)
    → action_of (decision_to_status d) ≡ some (unwrap_or (action_of (decision_to_status d)) "allow")
unfolding decision_to_status action_of
decision_known allow = refl
decision_known (allow_vlan v) = refl
decision_known (quarantine v r) = refl
decision_known (deny r) = refl

module _ {Json : Type 0} where
  -- The table holds a device with the MAC address of the command and a status that it means.
  pub record Backs (cmd : EnforcementCommand) (r : EndpointRow Json) : Type 0 where
    pub mac : r.mac_address ≡ cmd.mac_address
    pub means : Means r.status cmd.action

  pub data Announced (before : List Message) : List (EndpointRow Json) → List Message → Type 0 where
    nothing : {rows : List (EndpointRow Json)} → Announced before rows before
    one :
        {rows : List (EndpointRow Json)} {sent : List Message} (cmd : EnforcementCommand)
        → sent ≡ before ++ command cmd ∷ []
        → Any (Backs cmd) rows
        → Announced before rows sent

  pub record Device (id : ℕ) (mac : Text) (status : String) (r : EndpointRow Json) : Type 0 where
    pub same_id : r.id ≡ id
    pub same_mac : r.mac_address ≡ mac
    pub same_status : r.status ≡ status

  Any-update :
      {P Q : EndpointRow Json → Type 0} (p : EndpointRow Json → Bool)
      (f : EndpointRow Json → EndpointRow Json) (rows : List (EndpointRow Json))
      → ((r : EndpointRow Json) → P r → p r ≡ true → Q (f r))
      → ((r : EndpointRow Json) → P r → p r ≡ false → Q r)
      → Any P rows
      → Any Q (update_where p f rows)
  Any-update p f [] h k a = elim a [ ]
  Any-update {Q = Q} p f (r ∷ rows) h k (here x) = here (if_lem Q (p r) (f r) r (h r x) (k r x))
  Any-update p f (r ∷ rows) h k (there a) = there (Any-update p f rows h k a)
