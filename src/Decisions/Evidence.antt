-- ===== src/Decisions/Evidence.antt =====
-- src/services/evaluation.ts: what the evaluation of a release computes from the answers of the queries.
use poolstatis.Common.{
  ℕ, zero, Bool, true, false, Option, none, some, String, List, [], ◌∷◌, ◌++◌, Map, ℤ, pos,
}
use poolstatis.Contracts.Declaration.{
  Issue, unknown_metric, inactive_metric, incompatible_metric, unsupported_metric_source,
  unknown_target_property, untrusted_target_property, unknown_flag, unknown_experiment,
}

-- Any numbers of JavaScript are whole multiples of one unit. `one` and `nine_tenths` are 1 and 0.9 in
-- it, `difference` and `ratio` the subtraction and `Number((a / Math.abs(b)).toFixed(6))`.
pub record Numbers : Type 0 where
  pub one : ℕ
  pub nine_tenths : ℕ
  pub difference : ℤ → ℤ → ℤ
  pub ratio : ℤ → ℤ → ℤ

pub data Outcome : Type 0 where
  keep fix rollback inconclusive : Outcome

-- The answer to the aggregation of a window. `rawActors` has no part in the evaluation.
pub record Aggregate : Type 0 where
  pub value : ℤ
  pub events : ℕ
  pub actors : ℕ
  pub registered_coverage : ℕ
  pub distinct_id_coverage : ℕ
  pub property_coverage : Map ℕ

abbrev pub empty_aggregate : Aggregate
empty_aggregate = record {
  value = pos 0;
  events = 0;
  actors = 0;
  registered_coverage = 0;
  distinct_id_coverage = 0;
  property_coverage = [];
}

pub record WindowEvidence : Type 0 where
  pub metric_key : String
  pub baseline : Aggregate
  pub observed : Aggregate
  pub absolute : ℤ
  pub relative : Option ℤ

-- The codes of the blockers and warnings; their texts are left out.
pub data Code : Type 0 where
  issue : Issue → Code
  metric_evaluation_failed : String → Code
  primary_metric_no_observations primary_metric_unregistered_evidence distinct_id_coverage_low :
      Code
  minimum_sample_not_reached observation_window_incomplete : Code
  target_property_coverage_low : String → Code

-- `trustBlocker`, on the codes whose text has one of its words.
unfoldable pub trust_issue : Issue → Bool
trust_issue (unknown_metric _) = true
trust_issue (inactive_metric _) = true
trust_issue (incompatible_metric _) = true
trust_issue (unsupported_metric_source _) = false
trust_issue unknown_target_property = true
trust_issue untrusted_target_property = true
trust_issue unknown_flag = true
trust_issue unknown_experiment = true

unfoldable pub trust_blocker : Code → Bool
unfolding trust_issue
trust_blocker (issue i) = trust_issue i
trust_blocker (metric_evaluation_failed _) = true
trust_blocker primary_metric_no_observations = false
trust_blocker primary_metric_unregistered_evidence = true
trust_blocker distinct_id_coverage_low = true
trust_blocker minimum_sample_not_reached = false
trust_blocker observation_window_incomplete = false
trust_blocker (target_property_coverage_low _) = false

unfoldable pub block : Bool → Code → List Code
block true c = c ∷ []
block false c = []

-- `QueryService.aggregateMetricWindow` for one metric and the times of a window; an error is `none`.
abbrev pub Query : Type 0
Query = String → ℕ → ℕ → Option Aggregate

unfoldable pub relative_change : Numbers → ℤ → ℤ → Option ℤ
relative_change n absolute (pos zero) = none
relative_change n absolute baseline = some (n.ratio absolute baseline)

unfoldable pub measured : Numbers → String → Aggregate → Aggregate → WindowEvidence
unfolding relative_change
measured n key baseline observed = record {
  metric_key = key;
  baseline = baseline;
  observed = observed;
  absolute = n.difference observed.value baseline.value;
  relative = relative_change n (n.difference observed.value baseline.value) baseline.value;
}

unfoldable pub unavailable : String → WindowEvidence
unavailable key = record {
  metric_key = key;
  baseline = empty_aggregate;
  observed = empty_aggregate;
  absolute = pos 0;
  relative = none;
}

-- `Promise.all` of the two windows.
unfoldable pub both : Option Aggregate → Option Aggregate → Option (Aggregate × Aggregate)
both (some a) (some b) = some (a, b)
both _ _ = none

-- `evaluateMetric`: the evidence, and the blocker that an error adds.
unfoldable pub evaluated :
    Numbers → String → Option (Aggregate × Aggregate) → WindowEvidence × List Code
unfolding measured unavailable
evaluated n key none = (unavailable key, metric_evaluation_failed key ∷ [])
evaluated n key (some (a, b)) = (measured n key a b, [])

unfoldable pub evaluate_metric : Numbers → Query → ℕ → ℕ → ℕ → String → WindowEvidence × List Code
unfolding evaluated both
evaluate_metric n query from deployed to key =
    evaluated n key (both (query key from deployed) (query key deployed to))

unfoldable pub evaluate_all :
    Numbers → Query → ℕ → ℕ → ℕ → List String → List WindowEvidence × List Code
unfolding evaluate_metric
evaluate_all n query from deployed to [] = ([], [])
evaluate_all n query from deployed to (key ∷ keys) =
    let (evidence, codes) = evaluate_metric n query from deployed to key in
    let (rest, more) = evaluate_all n query from deployed to keys in
    (evidence ∷ rest, codes ++ more)
