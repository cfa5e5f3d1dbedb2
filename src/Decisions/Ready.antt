-- ===== src/Decisions/Ready.antt =====
-- src/services/evaluation.ts: when evidence is ready, and what follows of it.
use poolstatis.Common.{
  ℕ, ◌-◌, ◌*◌, ◌≤◌, ◌≡◌, refl, sym, ap, subst, ◌↔◌, min, true, false, not, Option, none, some,
  String, List, [], ◌∷◌, ◌++◌, map, any, All, arith,
}
use poolstatis.Contracts.Declaration.{
  Contract, Registry, Issue, no_issues, semantic_issues, validate_declaration,
}
use poolstatis.Contracts.Anchored.{IsAnchored, validate-IsAnchored}
use poolstatis.Decisions.Evidence.{
  Numbers, Aggregate, Query, Code, issue, trust_blocker, block, both, evaluated, evaluate_metric,
  evaluate_all, WindowEvidence, measured,
}
use poolstatis.Decisions.Verdict.{
  coverage_blockers, extent_blockers, sample_is_met, window_is_complete, none_left, concluded,
  evaluate, planned_to, day,
}

abbrev pub IsAnswered : Option Aggregate → Type 0
IsAnswered o = (a : Aggregate) × (o ≡ some a)

abbrev pub Answers : Query → ℕ → ℕ → ℕ → String → Type 0
Answers query from deployed to key =
    IsAnswered (query key from deployed) × IsAnswered (query key deployed to)

-- What the evidence of the primary metric has to be.
abbrev pub IsSufficient : Numbers → Contract → Aggregate → Type 0
IsSufficient n c a =
    (1 ≤ a.events)
    × (n.one ≤ a.registered_coverage)
    × (n.nine_tenths ≤ a.distinct_id_coverage)
    × (c.minimum_sample_size ≤ a.actors)

append_iff :
    {P Q : Type 0} (xs ys : List Code)
    → (none_left xs ≡ true) ↔ P
    → (none_left ys ≡ true) ↔ Q
    → (none_left (xs ++ ys) ≡ true) ↔ (P × Q)
unfolding none_left
append_iff [] ys h k = (λ e. (h.0 refl, k.0 e), λ (p, q). k.1 q)
append_iff (x ∷ xs) ys h k = (λ e. absurd cc, λ (p, q). absurd (let no = h.1 p in cc))

map-issue_iff : (xs : List Issue) → (none_left (map issue xs) ≡ true) ↔ (no_issues xs ≡ true)
unfolding none_left no_issues
map-issue_iff [] = (λ e. refl, λ e. refl)
map-issue_iff (x ∷ xs) = (λ e. absurd cc, λ e. absurd cc)

itself : {P : Type 0} → P ↔ P
itself = (λ p. p, λ p. p)

evaluated_iff :
    (n : Numbers) (key : String) (o p : Option Aggregate)
    → (none_left (evaluated n key (both o p)).1 ≡ true) ↔ (IsAnswered o × IsAnswered p)
unfolding evaluated both none_left
evaluated_iff n key (some a) (some b) = (λ e. ((a, refl), (b, refl)), λ h. refl)
evaluated_iff n key (some a) none = (λ e. absurd cc, λ h. absurd (let e = h.1.1 in cc))
evaluated_iff n key none p = (λ e. absurd cc, λ h. absurd (let e = h.0.1 in cc))

evaluate_all_iff :
    (n : Numbers) (query : Query) (from deployed to : ℕ) (keys : List String)
    → (none_left (evaluate_all n query from deployed to keys).1 ≡ true)
      ↔ All (Answers query from deployed to) keys
unfolding evaluate_all evaluate_metric
evaluate_all_iff n query from deployed to [] = (λ e. tt, λ h. unfold none_left in refl)
evaluate_all_iff n query from deployed to (key ∷ keys) =
    append_iff _ _ (evaluated_iff n key _ _) (evaluate_all_iff n query from deployed to keys)

checks_iff :
    (n : Numbers) (c : Contract) (deployed now : ℕ) (a : Aggregate)
    → (none_left (coverage_blockers n a ++ extent_blockers c deployed now a) ≡ true)
      ↔ (IsSufficient n c a × (planned_to c deployed ≤ now))
unfolding coverage_blockers extent_blockers block none_left sample_is_met window_is_complete
checks_iff n c deployed now a = ground arith

concluded_iff :
    {P : Type 0} (n : Numbers) (c : Contract) (deployed now : ℕ) (failures : List Code)
    (primary : WindowEvidence) (guardrails : List WindowEvidence)
    → (none_left failures ≡ true) ↔ P
    → ((concluded n c deployed now failures primary guardrails).ready ≡ true)
      ↔ (P × (IsSufficient n c primary.observed × (planned_to c deployed ≤ now)))
unfolding concluded
concluded_iff n c deployed now failures primary guardrails h =
    append_iff failures _ h (checks_iff n c deployed now primary.observed)

evaluated_observed :
    (n : Numbers) (key : String) (o p : Option Aggregate) (b : Aggregate)
    → IsAnswered o
    → p ≡ some b
    → (evaluated n key (both o p)).0.observed ≡ b
unfolding evaluated both measured
evaluated_observed n key (some a) (some p) b h e = cc
evaluated_observed n key none p b h e = absurd (let f = h.1 in cc)
evaluated_observed n key (some a) none b h e = absurd cc

metric_iff :
    (n : Numbers) (query : Query) (from deployed to : ℕ) (key : String)
    → (none_left (evaluate_metric n query from deployed to key).1 ≡ true)
      ↔ Answers query from deployed to key
unfolding evaluate_metric
metric_iff n query from deployed to key = evaluated_iff n key _ _

metric_observed :
    (n : Numbers) (query : Query) (from deployed to : ℕ) (key : String) (b : Aggregate)
    → IsAnswered (query key from deployed)
    → query key deployed to ≡ some b
    → (evaluate_metric n query from deployed to key).0.observed ≡ b
unfolding evaluate_metric
metric_observed n query from deployed to key b h e = evaluated_observed n key _ _ b h e

issues_iff :
    (registry : Registry) (c : Contract)
    → (none_left (map issue (semantic_issues registry c)) ≡ true) ↔ IsAnchored registry c
unfolding validate_declaration
issues_iff registry c =
    let iff = validate-IsAnchored registry c in
    let mapped = map-issue_iff (semantic_issues registry c) in
    (λ e. iff.0 (mapped.0 e), λ h. mapped.1 (iff.1 h))

-- The evidence of a release is ready exactly when the check of the contract finds nothing, both windows of
-- the primary metric and of every guardrail metric are answered, the observed window of the primary metric
-- has an event, registered coverage of at least one, coverage of stable actors of at least nine tenths and
-- the sample that the contract asks for, and the observation is over.
pub evaluate-ready :
    (n : Numbers) (query : Query) (registry : Registry) (c : Contract) (deployed now : ℕ)
    → let from = deployed - c.baseline_window_days * day in
      let to = min now (planned_to c deployed) in
      ((evaluate n query registry c deployed now).ready ≡ true) ↔ (
        IsAnchored registry c
        × (IsAnswered (query c.primary_metric_key from deployed)
            × (All (Answers query from deployed to) c.guardrail_metric_keys
                × (((a : Aggregate) × (query c.primary_metric_key deployed to ≡ some a)
                      × IsSufficient n c a)
                    × (planned_to c deployed ≤ now)))))
unfolding evaluate
evaluate-ready n query registry c deployed now =
    let from = deployed - c.baseline_window_days * day in
    let to = min now (planned_to c deployed) in
    let key = c.primary_metric_key in
    let iff =
      concluded_iff n c deployed now _ (evaluate_metric n query from deployed to key).0
        (evaluate_all n query from deployed to c.guardrail_metric_keys).0
        (append_iff _ _ (issues_iff registry c) (
          append_iff _ _ (metric_iff n query from deployed to key)
            (evaluate_all_iff n query from deployed to c.guardrail_metric_keys))) in
    (
      λ h.
          let ((anchored, ((before, (a, e)), rest)), (enough, over)) = iff.0 h in
          let same = metric_observed n query from deployed to key a before e in
          (anchored, (before, (rest, ((a, e, subst (IsSufficient n c) same enough), over)))),
      λ (anchored, (before, (rest, ((a, e, enough), over)))).
          let same = metric_observed n query from deployed to key a before e in
          iff.1 (
            (anchored, ((before, (a, e)), rest)),
            (subst (IsSufficient n c) (sym same) enough, over),
          ),
    )

any-none_left : (xs : List Code) → none_left xs ≡ true → any trust_blocker xs ≡ false
unfolding none_left
any-none_left [] h = refl
any-none_left (x ∷ xs) h = absurd cc

-- Ready evidence is trusted.
pub ready-trusted :
    (n : Numbers) (query : Query) (registry : Registry) (c : Contract) (deployed now : ℕ)
    → (evaluate n query registry c deployed now).ready ≡ true
    → (evaluate n query registry c deployed now).trusted ≡ true
unfolding evaluate concluded
ready-trusted n query registry c deployed now h = ap not (any-none_left _ h)
