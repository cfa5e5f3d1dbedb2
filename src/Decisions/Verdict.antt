-- ===== src/Decisions/Verdict.antt =====
-- src/services/evaluation.ts: the blockers of the evidence of a release, and the outcome that it proposes.
use poolstatis.Common.{
  ℕ, ◌+◌, ◌-◌, ◌*◌, min, Bool, true, false, not, ◌&&◌, Option, none, some, String, List, [], ◌∷◌,
  ◌++◌, map, any, get, str_eq, ltb, leb, ◌==◌, if◌then◌else◌, ℤ, pos, leb_ℤ, ltb_ℤ, minus, negate,
  abs,
}
use poolstatis.Contracts.Declaration.{
  Direction, increase, stay_within_range, Contract, Registry, semantic_issues,
}
use poolstatis.Decisions.Evidence.{
  keep, fix, rollback, inconclusive, primary_metric_no_observations,
  primary_metric_unregistered_evidence, distinct_id_coverage_low, minimum_sample_not_reached,
  observation_window_incomplete, target_property_coverage_low, issue, Numbers, Outcome, Aggregate,
  WindowEvidence, Code, trust_blocker, block, Query, evaluate_metric, evaluate_all,
}

-- What the observed window of the primary metric lacks.
unfoldable pub coverage_blockers : Numbers → Aggregate → List Code
unfolding block
coverage_blockers n a =
    block (a.events == 0) primary_metric_no_observations
    ++ (block (not (a.events == 0) && ltb a.registered_coverage n.one)
          primary_metric_unregistered_evidence
        ++ block (not (a.events == 0) && ltb a.distinct_id_coverage n.nine_tenths)
            distinct_id_coverage_low)

unfoldable pub or_zero : Option ℕ → ℕ
or_zero none = 0
or_zero (some x) = x

unfoldable pub property_warnings : Numbers → Aggregate → List String → List Code
unfolding block or_zero
property_warnings n a [] = []
property_warnings n a (p ∷ ps) =
    block (ltb (or_zero (get a.property_coverage p)) n.nine_tenths) (target_property_coverage_low p)
    ++ property_warnings n a ps

-- `[...new Set(names)]`
unfoldable pub distinct : List String → List String → List String
distinct seen [] = []
distinct seen (p ∷ ps) =
    let skipped = distinct seen ps in
    let rest = distinct (p ∷ seen) ps in if any (str_eq p) seen then skipped else p ∷ rest

unfoldable pub day : ℕ
day = 86400000

unfoldable pub planned_to : Contract → ℕ → ℕ
unfolding day
planned_to c deployed = deployed + c.observation_window_days * day

unfoldable pub sample_is_met : Contract → Aggregate → Bool
sample_is_met c a = leb c.minimum_sample_size a.actors

unfoldable pub window_is_complete : Contract → ℕ → ℕ → Bool
unfolding planned_to
window_is_complete c deployed now = leb (planned_to c deployed) now

unfoldable pub extent_blockers : Contract → ℕ → ℕ → Aggregate → List Code
unfolding block sample_is_met window_is_complete
extent_blockers c deployed now a =
    block (not (sample_is_met c a)) minimum_sample_not_reached
    ++ block (not (window_is_complete c deployed now)) observation_window_incomplete

unfoldable pub regressed : ℕ → WindowEvidence → Bool
unfolding minus
regressed effect e = elim e.relative [ none ↦ false | some x ↦ ltb_ℤ x (minus effect) ]

unfoldable pub aligned : Direction → ℤ → ℤ
unfolding negate
aligned increase x = x
aligned _ x = negate x

unfoldable pub directed : ℕ → ℤ → Outcome
unfolding minus
directed effect x =
    if leb_ℤ (pos effect) x then keep else if leb_ℤ x (minus effect) then rollback else fix

unfoldable pub propose_moved : Direction → ℕ → ℤ → Outcome
unfolding directed aligned abs
propose_moved stay_within_range effect x = if leb_ℤ (abs x) (pos effect) then keep else fix
propose_moved direction effect x = directed effect (aligned direction x)

-- `proposeOutcome`
unfoldable pub propose_outcome : Bool → Direction → ℕ → Option ℤ → Bool → Outcome
unfolding propose_moved
propose_outcome ready direction effect none regression = inconclusive
propose_outcome ready direction effect (some x) regression =
    if not ready then inconclusive else if regression then fix else propose_moved direction effect x

unfoldable pub none_left : List Code → Bool
none_left [] = true
none_left (_ ∷ _) = false

pub record Evaluation : Type 0 where
  pub baseline_window : ℕ × ℕ
  pub observed_window : ℕ × ℕ
  pub primary : WindowEvidence
  pub guardrails : List WindowEvidence
  pub blockers : List Code
  pub warnings : List Code
  pub sample_size : ℕ
  pub ready : Bool
  pub trusted : Bool
  pub guardrail_regression : Bool
  pub outcome : Outcome

-- `evaluateRelease` from the blockers on, for evidence that has been collected.
unfoldable pub concluded :
    Numbers → Contract → ℕ → ℕ → List Code → WindowEvidence → List WindowEvidence → Evaluation
unfolding day coverage_blockers extent_blockers property_warnings regressed propose_outcome
    none_left trust_blocker or_zero planned_to distinct
concluded n c deployed now failures primary guardrails =
    let blockers =
      failures
      ++ (coverage_blockers n primary.observed
          ++ extent_blockers c deployed now primary.observed) in
    let regression = any (regressed (or_zero c.minimum_meaningful_effect)) guardrails in
    record {
      baseline_window = (deployed - c.baseline_window_days * day, deployed);
      observed_window = (deployed, min now (planned_to c deployed));
      primary = primary;
      guardrails = guardrails;
      blockers = blockers;
      warnings = property_warnings n primary.observed (distinct [] c.target_properties);
      sample_size = primary.observed.actors;
      ready = none_left blockers;
      trusted = not (any trust_blocker blockers);
      guardrail_regression = regression;
      outcome =
          propose_outcome (none_left blockers) c.expected_direction
            (or_zero c.minimum_meaningful_effect) primary.relative regression;
    }

-- `evaluateRelease` up to its writes. No window begins before the time 0.
unfoldable pub evaluate : Numbers → Query → Registry → Contract → ℕ → ℕ → Evaluation
unfolding day planned_to evaluate_metric evaluate_all concluded
evaluate n query registry c deployed now =
    let from = deployed - c.baseline_window_days * day in
    let to = min now (planned_to c deployed) in
    let (primary, failed) = evaluate_metric n query from deployed to c.primary_metric_key in
    let (guardrails, more) = evaluate_all n query from deployed to c.guardrail_metric_keys in
    concluded n c deployed now (map issue (semantic_issues registry c) ++ (failed ++ more)) primary
      guardrails
