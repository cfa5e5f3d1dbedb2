-- ===== src/Decisions/Queue.antt =====
-- src/services/decisions.ts: `listDecisions`, the queue of the decisions to review.
use poolstatis.Common.{
  ℕ, Bool, true, false, ◌&&◌, ◌||◌, Option, none, some, String, List, [], ◌∷◌, map, Map, str_eq,
  if◌then◌else◌, sort_by,
}
use poolstatis.Decisions.Evidence.{Outcome, keep, fix, rollback, inconclusive}
use poolstatis.Decisions.Tables.{
  EvidenceSet, Status, proposed, approved, rejected, Decision, Tables, find_evidence,
}
use poolstatis.Releases.Table.{Release, find_release}

-- A row of the join.
pub record Joined : Type 0 where
  pub decision : Decision
  pub release : Release
  pub evidence : EvidenceSet

pub record Filter : Type 0 where
  pub status : Option Status
  pub release_id : Option String
  pub env : Option String
  pub experiment_key : Option String

unfoldable pub same_status : Status → Status → Bool
same_status proposed proposed = true
same_status approved approved = true
same_status rejected rejected = true
same_status _ _ = false

unfoldable pub wanted : Option String → String → Bool
wanted none x = true
wanted (some y) x = str_eq x y

-- A column that is NULL equals nothing.
unfoldable pub wanted_link : Option String → Option String → Bool
wanted_link none x = true
wanted_link (some y) none = false
wanted_link (some y) (some x) = str_eq x y

unfoldable pub wanted_status : Option Status → Status → Bool
unfolding same_status
wanted_status none s = true
wanted_status (some p) s = same_status s p

unfoldable pub passes : Filter → Joined → Bool
unfolding wanted wanted_link wanted_status
passes f j =
    wanted_status f.status j.decision.status
    && (wanted f.release_id j.decision.release_id
        && (wanted f.env j.release.env && wanted_link f.experiment_key j.release.experiment_key))

unfoldable pub join_with : Decision → Option Release → Option EvidenceSet → List Joined
join_with d (some r) (some e) = record { decision = d; release = r; evidence = e } ∷ []
join_with d _ _ = []

unfoldable pub join : String → Tables → Decision → List Joined
unfolding join_with
join project t d =
    join_with d (find_release project d.release_id t.releases)
      (find_evidence project d.evidence_id t)

unfoldable pub keep_passing : Filter → List Joined → List Joined → List Joined
unfolding passes
keep_passing f [] rest = rest
keep_passing f (j ∷ js) rest =
    let more = keep_passing f js rest in if passes f j then j ∷ more else more

-- FROM, JOIN and WHERE.
unfoldable pub select : String → Filter → Tables → Map Decision → List Joined
unfolding join keep_passing
select project f t [] = []
select project f t ((_, d) ∷ rows) =
    let rest = select project f t rows in
    if str_eq d.project_id project then keep_passing f (join project t d) rest else rest

pub data Risk : Type 0 where
  high medium low : Risk

unfoldable pub is_rollback : Outcome → Bool
is_rollback rollback = true
is_rollback _ = false

-- `proposed_outcome IN ('fix', 'inconclusive')`
unfoldable pub is_doubtful : Outcome → Bool
is_doubtful fix = true
is_doubtful inconclusive = true
is_doubtful _ = false

-- `queueRisk`
unfoldable pub queue_risk : Joined → Risk
unfolding is_rollback is_doubtful
queue_risk j =
    if is_rollback j.decision.proposed_outcome || j.evidence.result.guardrail_regression
    then high
    else if is_doubtful j.decision.proposed_outcome
    then medium
    else low

-- The CASE `riskOrder` of the statement.
unfoldable pub risk_order : Outcome → Bool → ℕ
risk_order rollback regression = 0
risk_order keep regression = if regression then 0 else 2
risk_order _ regression = if regression then 0 else 1

unfoldable pub status_order : Status → ℕ
status_order proposed = 0
status_order _ = 1

unfoldable pub ready_order : Bool → ℕ
ready_order true = 0
ready_order false = 1

-- ORDER BY. `uuid` is the number that a text in the form of a UUID stands for.
unfoldable pub order_key : (String → ℕ) → Joined → List ℕ
unfolding status_order ready_order risk_order
order_key uuid j =
    status_order j.decision.status
    ∷ ready_order j.evidence.result.ready
    ∷ risk_order j.decision.proposed_outcome j.evidence.result.guardrail_regression
    ∷ j.decision.created_at
    ∷ uuid j.decision.id
    ∷ []

pub record QueueItem : Type 0 where
  pub decision : Decision
  pub is_ready : Bool
  pub risk : Risk

unfoldable pub item_of : Joined → QueueItem
unfolding queue_risk
item_of j = record {
  decision = j.decision;
  is_ready = j.evidence.result.ready;
  risk = queue_risk j;
}

-- `listDecisions`
unfoldable pub list_decisions : (String → ℕ) → String → Filter → Tables → List QueueItem
unfolding select order_key item_of
list_decisions uuid project f t =
    map item_of (sort_by (order_key uuid) (select project f t t.decisions))
