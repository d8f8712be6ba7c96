-- ===== src/PolicyEngine/Priority.antt =====
-- Which rule `evaluate` of crates/nac-policy-engine/src/evaluator.rs picks, told without the sort.
use mathlib.Core.List.{Perm}
use mathlib.Core.List.Perm
use lentropy.Common.{
  ◌≡◌, refl, ap, ◌∙◌, ◌⊎◌, inl, inr, Bool, true, false, Bool-cases, Option, none, some,
  Option-cases, List, [], ◌∷◌, ◌++◌, All, All-map, All-append, find, if◌then◌else◌, arith, Text,
}
use lentropy.Common.Int.{◌≤ℤ◌, leb_ℤ, ≤ℤ_trans, leb_ℤ→≤}
use lentropy.Outcome.{ok}
use lentropy.PolicyEngine.{PolicyRule, PolicyContext, deny}
use lentropy.PolicyEngine.Evaluator.{
  insert_rule, sort_rules, matches_condition, no_match_reason, evaluate,
}

abbrev AtLeast : PolicyRule → List PolicyRule → Type 0
AtLeast r = All (λ s. r.priority ≤ℤ s.priority)

-- The priorities rise along the list.
abbrev pub IsSorted : List PolicyRule → Type 0
IsSorted [] = Unit {0}
IsSorted (r ∷ rules) = AtLeast r rules × IsSorted rules

AtLeast-trans :
    (r s : PolicyRule) (rules : List PolicyRule)
    → r.priority ≤ℤ s.priority
    → AtLeast s rules
    → AtLeast r rules
AtLeast-trans r s [] h all = tt
AtLeast-trans r s (t ∷ rules) h all =
    (≤ℤ_trans r.priority s.priority t.priority h all.0, AtLeast-trans r s rules h all.1)

AtLeast-insert :
    (q r : PolicyRule) (rules : List PolicyRule)
    → q.priority ≤ℤ r.priority
    → AtLeast q rules
    → AtLeast q (insert_rule r rules)
unfolding insert_rule
AtLeast-insert q r [] h all = (h, tt)
AtLeast-insert q r (s ∷ rules) h all = elim (Bool-cases (leb_ℤ r.priority s.priority)) [
  | inl e ↦ rw e (h, all)
  | inr e ↦ rw e (all.0, AtLeast-insert q r rules h all.1)
]

insert-IsSorted :
    (r : PolicyRule) (rules : List PolicyRule) → IsSorted rules → IsSorted (insert_rule r rules)
unfolding insert_rule
insert-IsSorted r [] sorted = (tt, tt)
insert-IsSorted r (s ∷ rules) sorted = elim (Bool-cases (leb_ℤ r.priority s.priority)) [
  | inl e ↦
      let h = leb_ℤ→≤ r.priority s.priority e in
      rw e ((h, AtLeast-trans r s rules h sorted.0), sorted)
  | inr e ↦
      rw e (AtLeast-insert s r rules (ground arith) sorted.0, insert-IsSorted r rules sorted.1)
]

pub sort_rules-IsSorted : (rules : List PolicyRule) → IsSorted (sort_rules rules)
unfolding sort_rules
sort_rules-IsSorted [] = tt
sort_rules-IsSorted (r ∷ rules) = insert-IsSorted r (sort_rules rules) (sort_rules-IsSorted rules)

insert-perm : (r : PolicyRule) (rules : List PolicyRule) → Perm (insert_rule r rules) (r ∷ rules)
unfolding insert_rule
insert-perm r [] = Perm.refl (r ∷ [])
insert-perm r (s ∷ rules) = elim (Bool-cases (leb_ℤ r.priority s.priority)) [
  | inl e ↦ rw e (Perm.refl (r ∷ s ∷ rules))
  | inr e ↦ rw e (Perm.trans (Perm.cons s (insert-perm r rules)) (Perm.swap r s rules))
]

sort_rules-perm : (rules : List PolicyRule) → Perm (sort_rules rules) rules
unfolding sort_rules
sort_rules-perm [] = Perm.refl []
sort_rules-perm (r ∷ rules) =
    Perm.trans (insert-perm r (sort_rules rules)) (Perm.cons r (sort_rules-perm rules))

module _ (hit : PolicyRule → Bool) where
  -- Of two rules that match, the first wins unless the second has the smaller number.
  abbrev prefer : PolicyRule → Option PolicyRule → Option PolicyRule
  prefer r none = some r
  prefer r (some s) = if leb_ℤ r.priority s.priority then some r else some s

  abbrev best_of : List PolicyRule → Option PolicyRule
  best_of [] = none
  best_of (r ∷ rules) = let rest = best_of rules in if hit r then prefer r rest else rest

  prefer-AtLeast :
      (r : PolicyRule) (rules : List PolicyRule)
      → AtLeast r rules
      → prefer r (find hit rules) ≡ some r
  prefer-AtLeast r [] all = refl
  prefer-AtLeast r (s ∷ rules) all = ground (arith, prefer-AtLeast r rules all.1)

  find-insert :
      (r : PolicyRule) (rules : List PolicyRule)
      → IsSorted rules
      → find hit (insert_rule r rules)
        ≡ (if hit r then prefer r (find hit rules) else find hit rules)
  unfolding insert_rule
  find-insert r [] sorted = ground arith
  find-insert r (s ∷ rules) sorted = ground (
    arith,
    find-insert r rules sorted.1,
    leb_ℤ→≤ r.priority s.priority,
    AtLeast-trans r s rules,
    prefer-AtLeast r rules,
  )

  find-sort : (rules : List PolicyRule) → find hit (sort_rules rules) ≡ best_of rules
  unfolding sort_rules
  find-sort [] = refl
  find-sort (r ∷ rules) =
      find-insert r (sort_rules rules) (sort_rules-IsSorted rules)
      ∙ ap (λ b. if hit r then prefer r b else b) (find-sort rules)

  -- `r` matches, every matching rule before it has a larger number, and no matching rule after it
  -- has a smaller one.
  pub record Best (rules : List PolicyRule) (r : PolicyRule) : Type 0 where
    pub before : List PolicyRule
    pub after : List PolicyRule
    pub split : rules ≡ before ++ r ∷ after
    pub matching : hit r ≡ true
    pub earlier : All (λ s. hit s ≡ true → ¬ (s.priority ≤ℤ r.priority)) before
    pub later : All (λ s. hit s ≡ true → r.priority ≤ℤ s.priority) after

  abbrev NoneBelow : PolicyRule → List PolicyRule → Type 0
  NoneBelow r = All (λ s. hit s ≡ true → r.priority ≤ℤ s.priority)

  Best-NoneBelow : (rules : List PolicyRule) (r : PolicyRule) → Best rules r → NoneBelow r rules
  Best-NoneBelow rules r b = rw b.split (
      All-append (λ s. hit s ≡ true → r.priority ≤ℤ s.priority) b.before (r ∷ b.after)
        (All-map b.before (λ s f h. let g = f h in omega arith) b.earlier)
        (λ _. omega arith, b.later))

  best_of-none : (rules : List PolicyRule) → best_of rules ≡ none → All (λ s. hit s ≡ false) rules
  best_of-none [] e = tt
  best_of-none (r ∷ rules) e = elim (Bool-cases (hit r)) [
    | inl h ↦ absurd (ground arith)
    | inr h ↦ (h, best_of-none rules (ground arith))
  ]

  here_first :
      (r : PolicyRule) (rules : List PolicyRule)
      → hit r ≡ true
      → NoneBelow r rules
      → Best (r ∷ rules) r
  here_first r rules h below = record {
    before = [];
    after = rules;
    split = refl;
    matching = h;
    earlier = tt;
    later = below;
  }

  there :
      (x r : PolicyRule) (rules : List PolicyRule)
      → (hit x ≡ true → ¬ (x.priority ≤ℤ r.priority))
      → Best rules r
      → Best (x ∷ rules) r
  there x r rules above b = record {
    before = x ∷ b.before;
    after = b.after;
    split = ap (◌∷◌ x) b.split;
    matching = b.matching;
    earlier = (above, b.earlier);
    later = b.later;
  }

  prefer-Best :
      (x s : PolicyRule) (rules : List PolicyRule) (r : PolicyRule)
      → hit x ≡ true
      → Best rules s
      → prefer x (some s) ≡ some r
      → Best (x ∷ rules) r
  prefer-Best x s rules r h b e = elim (Bool-cases (leb_ℤ x.priority s.priority)) [
    | inl le ↦
        let same : x ≡ r = ground arith in
        rw (← same) (
          here_first x rules h (
            All-map rules
              (λ t f k.
                ≤ℤ_trans x.priority s.priority t.priority (leb_ℤ→≤ x.priority s.priority le) (f k))
              (Best-NoneBelow rules s b)))
    | inr gt ↦
        let same : s ≡ r = ground arith in rw (← same) (there x s rules (λ _ k. ground arith) b)
  ]

  best_of-Best : (rules : List PolicyRule) (r : PolicyRule) → best_of rules ≡ some r → Best rules r
  best_of-Best [] r e = absurd (ground arith)
  best_of-Best (x ∷ rules) r e = elim (Bool-cases (hit x)) [
    | inr miss ↦ there x r rules (λ h. absurd (ground arith)) (best_of-Best rules r (ground arith))
    | inl h ↦ elim (Option-cases (best_of rules)) [
      | inl empty ↦
          let same : x ≡ r = ground arith in
          rw (← same) (
            here_first x rules h
              (All-map rules (λ t f k. absurd (ground arith)) (best_of-none rules empty)))
      | inr (s, found) ↦ prefer-Best x s rules r h (best_of-Best rules s found) (ground arith)
    ]
  ]

module _ (to_uppercase : Text → Text) (rules : List PolicyRule) (ctx : PolicyContext) where
  abbrev pub matching_rule : PolicyRule → Bool
  matching_rule r = matches_condition to_uppercase r.condition ctx

  -- `evaluate` returns the decision of the rule with the smallest priority number among those whose
  -- condition matches, the first of them in the given order if several have that number, and
  -- `Deny` with the reason "no matching policy rule" exactly if no condition matches.
  pub evaluate-Best :
      ((r : PolicyRule) × Best matching_rule rules r
        × ((evaluate to_uppercase rules ctx).0 ≡ ok r.decision))
      ⊎ (All (λ r. matching_rule r ≡ false) rules
          × ((evaluate to_uppercase rules ctx).0 ≡ ok (deny no_match_reason)))
  unfolding evaluate
  evaluate-Best = elim (Option-cases (best_of matching_rule rules)) [
    | inl e ↦ inr (best_of-none matching_rule rules e, rw (find-sort matching_rule rules, e))
    | inr (r, e) ↦
        inl (r, best_of-Best matching_rule rules r e, rw (find-sort matching_rule rules, e))
  ]

  -- The slice that `evaluate` leaves behind holds the same rules, by rising priority number.
  pub evaluate-sorts :
      Perm (evaluate to_uppercase rules ctx).1 rules × IsSorted (evaluate to_uppercase rules ctx).1
  unfolding evaluate
  evaluate-sorts = (sort_rules-perm rules, sort_rules-IsSorted rules)
