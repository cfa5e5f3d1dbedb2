-- ===== src/Contracts/Declaration.antt =====
-- src/services/contracts.ts: what a measurement contract declares, and the check of its references
-- against the registry of the project. The windows, the sizes and the direction of a contract have no
-- part in the check, and its name, texts and references are left out.
use poolstatis.Common.{
  ℕ, Bool, true, false, not, ◌&&◌, Option, none, some, String, List, [], ◌∷◌, ◌++◌, Map, get,
}

pub data ContractStatus : Type 0 where
  draft active archived : ContractStatus

pub data Direction : Type 0 where
  increase decrease stay_within_range : Direction

-- `MeasurementContractInput`. The effect is a number of the unit of all numbers.
pub record Contract : Type 0 where
  pub key : String
  pub primary_metric_key : String
  pub guardrail_metric_keys : List String
  pub target_properties : List String  -- `property` of each target filter
  pub baseline_window_days : ℕ
  pub observation_window_days : ℕ
  pub minimum_sample_size : ℕ
  pub expected_direction : Direction
  pub minimum_meaningful_effect : Option ℕ
  pub flag_key : Option String
  pub experiment_key : Option String
  pub status : ContractStatus

pub data MetricType : Type 0 where
  count unique_actors value other : MetricType

pub record Metric : Type 0 where
  pub kind : MetricType
  pub is_active : Bool
  pub from_posthog : Bool

-- The tables of one project that `semanticIssues` reads. A property has whether it is trusted.
pub record Registry : Type 0 where
  pub metrics : Map Metric
  pub properties : Map Bool
  pub flags : Map (Unit {0})
  pub experiments : Map (Unit {0})

-- The codes of the issues; those of a metric say whether it is the primary one.
pub data Issue : Type 0 where
  unknown_metric inactive_metric incompatible_metric unsupported_metric_source : Bool → Issue
  unknown_target_property untrusted_target_property unknown_flag unknown_experiment : Issue

unfoldable pub compatible : MetricType → Bool
compatible count = true
compatible unique_actors = true
compatible value = true
compatible other = false

unfoldable pub is_value : MetricType → Bool
is_value value = true
is_value _ = false

unfoldable pub report : Bool → Issue → List Issue
report true i = i ∷ []
report false i = []

unfoldable pub metric_issues : Bool → Option Metric → List Issue
unfolding report
metric_issues primary none = unknown_metric primary ∷ []
metric_issues primary (some m) =
    report (not m.is_active) (inactive_metric primary)
    ++ (report (not (compatible m.kind)) (incompatible_metric primary)
        ++ report (is_value m.kind && m.from_posthog) (unsupported_metric_source primary))

unfoldable pub check_metric : Registry → Bool → String → List Issue
unfolding metric_issues
check_metric r primary key = metric_issues primary (get r.metrics key)

unfoldable pub guardrail_issues : Registry → List String → List Issue
guardrail_issues r [] = []
guardrail_issues r (key ∷ keys) = check_metric r false key ++ guardrail_issues r keys

unfoldable pub property_issues : Option Bool → List Issue
property_issues none = unknown_target_property ∷ []
property_issues (some trusted) = report (not trusted) untrusted_target_property

unfoldable pub filter_issues : Registry → List String → List Issue
filter_issues r [] = []
filter_issues r (p ∷ ps) = property_issues (get r.properties p) ++ filter_issues r ps

unfoldable pub is_missing : Map (Unit {0}) → Option String → Bool
is_missing m none = false
is_missing m (some key) = elim (get m key) [ none ↦ true | some _ ↦ false ]

-- `semanticIssues`, for one contract.
unfoldable pub semantic_issues : Registry → Contract → List Issue
semantic_issues r c =
    check_metric r true c.primary_metric_key
    ++ (guardrail_issues r c.guardrail_metric_keys
        ++ (filter_issues r c.target_properties
            ++ (report (is_missing r.flags c.flag_key) unknown_flag
                ++ report (is_missing r.experiments c.experiment_key) unknown_experiment)))

unfoldable pub no_issues : List Issue → Bool
no_issues [] = true
no_issues (_ ∷ _) = false

-- `validateDeclaration(...).valid`, for a declaration with one contract.
unfoldable pub validate_declaration : Registry → Contract → Bool
unfolding no_issues
validate_declaration r c = no_issues (semantic_issues r c)
