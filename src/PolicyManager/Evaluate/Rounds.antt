-- ===== src/PolicyManager/Evaluate/Rounds.antt =====
-- Which changes a round of services/policy-manager/src/api/evaluate.rs makes, and what the rules that
-- crates/nac-store/src/policy.rs makes of the table's rows match.
use native.Mathlib.Omega.{arith}
use lentropy.Common.{
  ℕ, ◌+◌, Bool, true, false, ◌&&◌, Bool-cases, Option, none, some, List, [], ◌∷◌, String, str_eq,
  refl, ap, inl, inr, All, All-map, all, if◌then◌else◌, if_lem, ◌≡◌,
}
use lentropy.Outcome.{Outcome, ok, err, panic, timeout, ◌>>=◌}
use lentropy.PolicyEngine.{Condition, PolicyRule}
use lentropy.Store.Endpoint.{EndpointRow}
use lentropy.Store.Policy.{PolicyRow, to_conditions, condition_of, decision_of, to_policy_rule}
use lentropy.PolicyManager.Evaluate.{
  Texts, condition_matches, all_match, RulesWithId, Effect, set_status, publish, Answers, Counts,
  Round, effective, change, endpoint_loop, evaluate_policies,
}

pub data OneOf {Json : Type 0} (ep : EndpointRow Json) : List (EndpointRow Json) → Type 0 where
  here : {rest : List (EndpointRow Json)} → OneOf ep (ep ∷ rest)
  there :
      {other : EndpointRow Json} {rest : List (EndpointRow Json)}
      → OneOf ep rest
      → OneOf ep (other ∷ rest)

module _ {Json : Type 0} (texts : Texts Json) (store : Answers texts) (rules : RulesWithId texts)
    (default_action : Option String) where
  -- The effect is due for a device of the list: it is not exempt, and the status is the one that
  -- the policies give it and not the one that it has.
  pub Due : EndpointRow Json → Effect texts → Type 0
  Due ep (set_status id status) =
      (ep.id ≡ id)
      × (ep.policy_exempt ≡ false)
      × (effective texts store rules default_action ep ≡ some status)
      × (str_eq ep.status status ≡ false)
  Due ep (publish mac ip status) =
      (ep.mac_address ≡ mac)
      × (ep.policy_exempt ≡ false)
      × (effective texts store rules default_action ep ≡ some status)
      × (str_eq ep.status status ≡ false)

  pub DueIn : List (EndpointRow Json) → Effect texts → Type 0
  DueIn endpoints e = (ep : EndpointRow Json) × OneOf ep endpoints × Due ep e

  later :
      (ep : EndpointRow Json) (eps : List (EndpointRow Json)) (e : Effect texts)
      → DueIn eps e
      → DueIn (ep ∷ eps) e
  unfolding DueIn
  later ep eps e (ep', there_is, due) = (ep', there there_is, due)

  change-Due :
      (ep : EndpointRow Json) (o : Option String) (counts : Counts texts)
      (rest : Counts texts → Round texts store rules default_action) (eps : List (EndpointRow Json))
      → effective texts store rules default_action ep ≡ o
      → ep.policy_exempt ≡ false
      → ((c : Counts texts) → All (DueIn (ep ∷ eps)) (rest c).1)
      → All (DueIn (ep ∷ eps)) (change texts store rules default_action ep o counts rest).1
  unfolding DueIn Due
  change-Due ep none counts rest eps e not_exempt h = h counts
  change-Due ep (some status) counts rest eps e not_exempt h =
      elim (Bool-cases (str_eq ep.status status)) [
        | inl same ↦ rw same (h counts)
        | inr differs ↦ elim (Bool-cases (store.writes ep.id status)) [
          | inl w ↦
              rw (differs, w)
                (
                  (ep, here, (refl, not_exempt, e, differs)),
                  (
                    (ep, here, (refl, not_exempt, e, differs)),
                    h (record counts { changed = counts.changed + 1 }),
                  ),
                )
          | inr w ↦ rw (differs, w) tt
        ]
      ]

  endpoint_loop-Due :
      (eps : List (EndpointRow Json)) (counts : Counts texts)
      → All (DueIn eps) (endpoint_loop texts store rules default_action eps counts).1
  unfolding endpoint_loop
  endpoint_loop-Due [] counts = tt
  endpoint_loop-Due (ep ∷ eps) counts =
      let behind : (c : Counts texts)
          → All (DueIn (ep ∷ eps)) (endpoint_loop texts store rules default_action eps c).1 =
        λ c. All-map _ (later ep eps) (endpoint_loop-Due eps c) in
      if_lem (λ (r : Round texts store rules default_action). All (DueIn (ep ∷ eps)) r.1)
        ep.policy_exempt _ _ (λ e. behind _)
        λ e.
          change-Due ep (effective texts store rules default_action ep) counts
            (endpoint_loop texts store rules default_action eps) eps refl e behind

  -- Every change of a status and every command that an evaluation of the policies makes is for a
  -- listed device that is not exempt, and carries the status that the policies, or the default
  -- action, give the device and that differs from the one it has.
  pub evaluate_policies-Due :
      (endpoints : List (EndpointRow Json))
      → All (DueIn endpoints) (evaluate_policies texts store rules default_action endpoints).1
  unfolding evaluate_policies
  evaluate_policies-Due endpoints =
      endpoint_loop-Due endpoints (record { changed = 0; skipped = 0 })

-- How many of the effects change a status.
module _ {Json : Type 0} (texts : Texts Json) where
  abbrev pub is_set_status : Effect texts → ℕ
  is_set_status (set_status id status) = 1
  is_set_status (publish mac ip status) = 0

  abbrev pub status_changes : List (Effect texts) → ℕ
  status_changes [] = 0
  status_changes (e ∷ es) = is_set_status e + status_changes es

  module _ (store : Answers texts) (rules : RulesWithId texts)
      (default_action : Option String) where
    Counted : Counts texts → Round texts store rules default_action → Type 0
    Counted from r =
        (to : Counts texts) → r.0 ≡ ok to → to.changed ≡ from.changed + status_changes r.1

    change-Counted :
        (ep : EndpointRow Json) (o : Option String) (counts : Counts texts)
        (rest : Counts texts → Round texts store rules default_action)
        → ((c : Counts texts) → Counted c (rest c))
        → Counted counts (change texts store rules default_action ep o counts rest)
    unfolding Counted
    change-Counted ep none counts rest h = h counts
    change-Counted ep (some status) counts rest h = elim (Bool-cases (str_eq ep.status status)) [
      | inl same ↦ rw same (h counts)
      | inr differs ↦ elim (Bool-cases (store.writes ep.id status)) [
        | inl w ↦
            rw (differs, w)
              λ to e.
                let all = h (record counts { changed = counts.changed + 1 }) to e in omega arith
        | inr w ↦ rw (differs, w) λ to e. absurd cc
      ]
    ]

    endpoint_loop-Counted :
        (eps : List (EndpointRow Json)) (counts : Counts texts)
        → Counted counts (endpoint_loop texts store rules default_action eps counts)
    unfolding endpoint_loop Counted
    endpoint_loop-Counted [] counts = λ to e. let same : counts ≡ to = cc in rw⁻¹ same (omega arith)
    endpoint_loop-Counted (ep ∷ eps) counts =
        if_lem (Counted counts) ep.policy_exempt _ _
          (λ e. endpoint_loop-Counted eps (record counts { skipped = counts.skipped + 1 }))
          λ e.
            change-Counted ep (effective texts store rules default_action ep) counts
              (endpoint_loop texts store rules default_action eps) (endpoint_loop-Counted eps)

    -- An evaluation that ends without an error counts as changed what it changed.
    pub evaluate_policies-counts :
        (endpoints : List (EndpointRow Json)) (counts : Counts texts)
        → (evaluate_policies texts store rules default_action endpoints).0 ≡ ok counts
        → counts.changed
          ≡ status_changes (evaluate_policies texts store rules default_action endpoints).1
    unfolding evaluate_policies Counted
    evaluate_policies-counts endpoints counts e =
        let all = endpoint_loop-Counted endpoints (record { changed = 0; skipped = 0 }) counts e in
        omega arith

-- The conditions of a row.
module _ {Json : Type 0} (texts : Texts Json) where
  to_conditions-all :
      (cs : List Condition) (ep : EndpointRow Json)
      → all_match texts (to_conditions cs) ep ≡ all (λ c. condition_matches texts c ep) cs
  unfolding all_match
  to_conditions-all [] ep = refl
  to_conditions-all (c ∷ cs) ep =
      ap (λ b. condition_matches texts c ep && b) (to_conditions-all cs ep)

  condition_of-all :
      (cs : List Condition) (ep : EndpointRow Json)
      → condition_matches texts (condition_of cs) ep ≡ all (λ c. condition_matches texts c ep) cs
  unfolding condition_of condition_matches
  condition_of-all [] ep = refl
  condition_of-all (c ∷ []) ep = elim (condition_matches texts c ep) as (λ b. b ≡ (b && true)) [
    | true ↦ refl
    | false ↦ refl
  ]
  condition_of-all (c ∷ d ∷ cs) ep = to_conditions-all (c ∷ d ∷ cs) ep

  -- A rule that is made of a row matches a device exactly if all conditions of the row do, those of
  -- a row without any included; a row that cannot be read gives its error instead.
  pub to_policy_rule-matches :
      {Error : Type 0} (is_null_or_empty : Json → Bool)
      (from_value : Json → Outcome Error (List Condition)) (row : PolicyRow Json)
      (ep : EndpointRow Json)
      → (to_policy_rule is_null_or_empty from_value row >>= λ rule.
          ok (condition_matches texts rule.condition ep))
        ≡ ((if is_null_or_empty row.conditions then ok [] else from_value row.conditions) >>= λ cs.
            ok (all (λ c. condition_matches texts c ep) cs))
  unfolding to_policy_rule
  to_policy_rule-matches is_null_or_empty from_value row ep =
      let made : List Condition → PolicyRule = λ cs. record {
        name = row.name;
        priority = row.priority;
        condition = condition_of cs;
        decision = decision_of row.action row.vlan_id row.name;
      } in
      elim (if is_null_or_empty row.conditions then ok [] else from_value row.conditions)
        as (λ m.
          ((m >>= λ cs. ok (made cs)) >>= λ rule. ok (condition_matches texts rule.condition ep))
          ≡ (m >>= λ cs. ok (all (λ c. condition_matches texts c ep) cs))) [
            | ok cs ↦ ap ok (condition_of-all cs ep)
            | err e ↦ refl
            | panic ↦ refl
            | timeout ↦ refl
          ]
