-- ===== src/Contracts/Anchored.antt =====
-- src/services/contracts.ts: the contracts that the check lets through.
use poolstatis.Common.{
  ◌≡◌, refl, sym, subst, ◌↔◌, Bool, true, false, not, ◌&&◌, Option, none, some, String, List, [],
  ◌∷◌, ◌++◌, Map, get, All,
}
use poolstatis.Contracts.Declaration.{
  Contract, Metric, Registry, Issue, compatible, is_value, report, metric_issues, check_metric,
  guardrail_issues, property_issues, filter_issues, is_missing, semantic_issues, no_issues,
  validate_declaration, unknown_flag, unknown_experiment, inactive_metric, incompatible_metric,
  unsupported_metric_source,
}

-- A metric that a contract may name: it is active, of a type that can be evaluated, and not a value
-- metric of PostHog.
abbrev pub IsUsable : Metric → Type 0
IsUsable m =
    (m.is_active ≡ true)
    × ((compatible m.kind ≡ true) × ((is_value m.kind && m.from_posthog) ≡ false))

abbrev pub HasUsable : Registry → String → Type 0
HasUsable r key = (m : Metric) × (get r.metrics key ≡ some m) × IsUsable m

abbrev pub HasTrusted : Registry → String → Type 0
HasTrusted r key = get r.properties key ≡ some true

-- A link that is given names a row.
abbrev pub IsLinked : Map (Unit {0}) → Option String → Type 0
IsLinked rows none = Unit
IsLinked rows (some key) = get rows key ≡ some tt

abbrev pub IsAnchored : Registry → Contract → Type 0
IsAnchored r c =
    HasUsable r c.primary_metric_key
    × (All (HasUsable r) c.guardrail_metric_keys
        × (All (HasTrusted r) c.target_properties
            × (IsLinked r.flags c.flag_key × IsLinked r.experiments c.experiment_key)))

some-eq : {A : Type 0} {a b : A} → some a ≡ some b → a ≡ b
some-eq h = cc

append_iff :
    {P Q : Type 0} (xs ys : List Issue)
    → (no_issues xs ≡ true) ↔ P
    → (no_issues ys ≡ true) ↔ Q
    → (no_issues (xs ++ ys) ≡ true) ↔ (P × Q)
unfolding no_issues
append_iff [] ys h k = (λ e. (h.0 refl, k.0 e), λ (p, q). k.1 q)
append_iff (x ∷ xs) ys h k = (λ e. absurd cc, λ (p, q). absurd (let no = h.1 p in cc))

report_iff : (b : Bool) (i : Issue) → (no_issues (report b i) ≡ true) ↔ (b ≡ false)
unfolding report no_issues
report_iff true i = (λ e. absurd cc, λ e. absurd cc)
report_iff false i = (λ e. refl, λ e. refl)

report-not_iff : (b : Bool) (i : Issue) → (no_issues (report (not b) i) ≡ true) ↔ (b ≡ true)
unfolding report no_issues
report-not_iff true i = (λ e. refl, λ e. refl)
report-not_iff false i = (λ e. absurd cc, λ e. absurd cc)

metric_issues_iff :
    (primary : Bool) (o : Option Metric)
    → (no_issues (metric_issues primary o) ≡ true) ↔ ((m : Metric) × (o ≡ some m) × IsUsable m)
unfolding metric_issues
metric_issues_iff primary none = (λ e. absurd (unfold no_issues in cc), λ (m, e, _). absurd cc)
metric_issues_iff primary (some m) =
    let iff = append_iff _ _ (report-not_iff m.is_active (inactive_metric primary)) (
      append_iff _ _ (report-not_iff (compatible m.kind) (incompatible_metric primary))
        (report_iff (is_value m.kind && m.from_posthog) (unsupported_metric_source primary))) in
    (λ e. (m, refl, iff.0 e), λ (n, e, u). iff.1 (subst IsUsable (some-eq (sym e)) u))

guardrail_issues_iff :
    (r : Registry) (keys : List String)
    → (no_issues (guardrail_issues r keys) ≡ true) ↔ All (HasUsable r) keys
unfolding guardrail_issues check_metric
guardrail_issues_iff r [] = (λ e. tt, λ e. unfold no_issues in refl)
guardrail_issues_iff r (key ∷ keys) =
    append_iff _ _ (metric_issues_iff false (get r.metrics key)) (guardrail_issues_iff r keys)

property_issues_iff : (o : Option Bool) → (no_issues (property_issues o) ≡ true) ↔ (o ≡ some true)
unfolding property_issues report no_issues
property_issues_iff none = (λ e. absurd cc, λ e. absurd cc)
property_issues_iff (some true) = (λ e. refl, λ e. refl)
property_issues_iff (some false) = (λ e. absurd cc, λ e. absurd cc)

filter_issues_iff :
    (r : Registry) (keys : List String)
    → (no_issues (filter_issues r keys) ≡ true) ↔ All (HasTrusted r) keys
unfolding filter_issues
filter_issues_iff r [] = (λ e. tt, λ e. unfold no_issues in refl)
filter_issues_iff r (key ∷ keys) =
    append_iff _ _ (property_issues_iff (get r.properties key)) (filter_issues_iff r keys)

found_iff :
    (o : Option (Unit {0})) (i : Issue)
    → (no_issues (report (elim o [ none ↦ true | some _ ↦ false ]) i) ≡ true) ↔ (o ≡ some tt)
unfolding report no_issues
found_iff none i = (λ e. absurd cc, λ e. absurd cc)
found_iff (some u) i = (λ e. refl, λ e. refl)

is_missing_iff :
    (rows : Map (Unit {0})) (link : Option String) (i : Issue)
    → (no_issues (report (is_missing rows link) i) ≡ true) ↔ IsLinked rows link
unfolding is_missing
is_missing_iff rows none i = (λ e. tt, λ e. unfold report no_issues in refl)
is_missing_iff rows (some key) i = found_iff (get rows key) i

-- The check of a contract finds nothing exactly when the primary metric and every guardrail metric are
-- registered, active, of a type that can be evaluated and not a value metric of PostHog, every property
-- of its target filters is registered and trusted, and the flag and the experiment that it names exist.
pub validate-IsAnchored :
    (r : Registry) (c : Contract) → (validate_declaration r c ≡ true) ↔ IsAnchored r c
unfolding validate_declaration semantic_issues check_metric
validate-IsAnchored r c =
    append_iff _ _ (metric_issues_iff true (get r.metrics c.primary_metric_key)) (
      append_iff _ _ (guardrail_issues_iff r c.guardrail_metric_keys) (
        append_iff _ _ (filter_issues_iff r c.target_properties) (
          append_iff _ _ (is_missing_iff r.flags c.flag_key unknown_flag)
            (is_missing_iff r.experiments c.experiment_key unknown_experiment))))
