-- ===== src/Decisions/Outcomes.antt =====
-- src/services/evaluation.ts: what `proposeOutcome` proposes, in the words of a contract.
use poolstatis.Common.{
  ℕ, ◌+◌, ◌≤◌, ◌<◌, ◌≡◌, ◌↔◌, Bool, true, false, some, arith, ℤ, pos, pos_part, neg_part, ◌≤ℤ◌,
  minus_parts, negate_parts, abs_parts,
}
use poolstatis.Contracts.Declaration.{Direction, increase, decrease, stay_within_range}
use poolstatis.Decisions.Evidence.{Outcome, keep, rollback, inconclusive}
use poolstatis.Decisions.Verdict.{aligned, directed, propose_moved, propose_outcome}

-- The primary metric moved as the contract expects it to.
abbrev pub Cleared : Direction → ℕ → ℤ → Type 0
Cleared increase effect x = pos effect ≤ℤ x
Cleared decrease effect x = pos_part x + effect ≤ neg_part x
Cleared stay_within_range effect x = pos_part x + neg_part x ≤ effect

-- It moved the other way by as much, and not by zero where nothing was asked for.
abbrev pub Reversed : Direction → ℕ → ℤ → Type 0
Reversed increase effect x = (pos_part x + effect ≤ neg_part x) × (pos_part x < effect + neg_part x)
Reversed decrease effect x = (pos effect ≤ℤ x) × (neg_part x < effect + pos_part x)
Reversed stay_within_range effect x = 1 ≤ 0

abbrev Judged : Direction → ℕ → ℤ → Outcome → Type 0
Judged d effect x o =
    ((o ≡ inconclusive) ↔ (1 ≤ 0))
    × ((o ≡ keep) ↔ Cleared d effect x)
    × ((o ≡ rollback) ↔ Reversed d effect x)

propose_moved-Judged :
    (d : Direction) (effect : ℕ) (x : ℤ) → Judged d effect x (propose_moved d effect x)
unfolding propose_moved directed aligned
propose_moved-Judged increase effect x = ground (arith, minus_parts effect)
propose_moved-Judged decrease effect x = ground (arith, minus_parts effect, negate_parts x)
propose_moved-Judged stay_within_range effect x = ground (arith, abs_parts x)

-- For evidence with a relative change, the proposed outcome is inconclusive exactly when the evidence is not
-- ready; it is to keep the release exactly when the evidence is ready, no guardrail regressed and the primary
-- metric moved as the contract expects; and it is to roll back exactly when the evidence is ready, no guardrail
-- regressed and the metric moved the other way by the effect that the contract asks for.
pub propose_outcome-Judged :
    (ready : Bool) (d : Direction) (effect : ℕ) (x : ℤ) (regression : Bool)
    → ((propose_outcome ready d effect (some x) regression ≡ inconclusive) ↔ (ready ≡ false))
      × ((propose_outcome ready d effect (some x) regression ≡ keep)
          ↔ ((ready ≡ true) × (regression ≡ false) × Cleared d effect x))
      × ((propose_outcome ready d effect (some x) regression ≡ rollback)
          ↔ ((ready ≡ true) × (regression ≡ false) × Reversed d effect x))
unfolding propose_outcome
propose_outcome-Judged false d effect x regression = ground arith
propose_outcome-Judged true d effect x true = ground arith
propose_outcome-Judged true d effect x false = ground (arith, propose_moved-Judged d effect x)
