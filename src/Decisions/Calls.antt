-- ===== src/Decisions/Calls.antt =====
-- src/services/evaluation.ts: `evaluateRelease`; src/services/decisions.ts: `reviseDecision`.
use poolstatis.Common.{
  ℕ, ◌+◌, Bool, true, false, not, ◌&&◌, ◌||◌, Option, none, some, String, List, [], ◌∷◌,
  if◌then◌else◌,
}
use poolstatis.Decisions.Evidence.{Outcome, inconclusive, Numbers, Query}
use poolstatis.Decisions.Verdict.{Evaluation, evaluate}
use poolstatis.Decisions.Tables.{
  EvidenceSet, Status, proposed, approved, rejected, Decision, was_approved, was_edited,
  was_rejected, Action, Tables, Error, release_error, not_evaluable, missing_deployment,
  decision_not_found, already_reviewed, already_approved, directional_forbidden, evidence_missing,
  Answer, failed, done, committed, find_decision, find_evidence, write_decision, Fresh, persist,
}
use poolstatis.Releases.Lifecycle as Releases
use poolstatis.Releases.Table.{Release, World, deployed, observing, status_eq, find_release}
use poolstatis.Releases.Table as Rows
use poolstatis.Releases.Transition.{transition, finalize_observed}

-- What surrounds the calls: numbers, queries, the reading and the spelling of times, the text of a
-- rationale and the SHA-256 of the evidence, which also sees the texts of the blockers.
pub record Surroundings : Type 0 where
  pub numbers : Numbers
  pub query : String → Release → Query
  pub millis : String → ℕ
  pub iso : String → String
  pub spell : ℕ → String
  pub rationale : Evaluation → String
  pub hash : Release → Evaluation → String

unfoldable pub observed : Tables → Rows.Answer Release → Answer (Unit {0})
observed t (Rows.failed e) = failed t (release_error e)
observed t (Rows.done u _) = done (record t { releases = u }) tt

-- `transitionRelease`, another transaction: ready evidence of a deployed release begins its observation.
unfoldable pub observe :
    Surroundings → World → String → String → ℕ → Bool → Release → Tables → Answer (Unit {0})
unfolding observed
observe s w project actor now ready r t =
    if ready && status_eq r.status deployed
    then observed t (transition s.iso w project r.id observing none actor (s.spell now) t.releases)
    else done t tt

unfoldable pub persist_after :
    Answer (Unit {0})
    → Fresh
    → Release
    → Evaluation
    → String
    → String
    → String
    → Answer (EvidenceSet × (Decision × Bool))
persist_after (failed t e) f r result key rationale actor = failed t e
persist_after (done t _) f r result key rationale actor = persist f r result key rationale actor t

unfoldable pub evaluate_at :
    Surroundings
    → World
    → String
    → String
    → Fresh
    → Release
    → String
    → Tables
    → Answer (EvidenceSet × (Decision × Bool))
unfolding observe persist_after evaluate
evaluate_at s w project actor f r at t =
    let result =
      evaluate s.numbers (s.query project r) (w.registry project) r.contract_snapshot (s.millis at)
        f.now in
    persist_after (observe s w project actor f.now result.ready r t) f r result (s.hash r result)
      (s.rationale result) actor

unfoldable pub evaluate_deployed :
    Surroundings
    → World
    → String
    → String
    → Fresh
    → Tables
    → Release
    → Option String
    → Answer (EvidenceSet × (Decision × Bool))
unfolding evaluate_at
evaluate_deployed s w project actor f t r none = failed t missing_deployment
evaluate_deployed s w project actor f t r (some at) = evaluate_at s w project actor f r at t

unfoldable pub evaluate_found :
    Surroundings
    → World
    → String
    → String
    → Fresh
    → Tables
    → Release
    → Answer (EvidenceSet × (Decision × Bool))
unfolding evaluate_deployed
evaluate_found s w project actor f t r =
    if not (status_eq r.status deployed || status_eq r.status observing)
    then failed t not_evaluable
    else evaluate_deployed s w project actor f t r r.deployed_at

-- `evaluateRelease`
unfoldable pub evaluate_release :
    Surroundings
    → World
    → String
    → String
    → String
    → Fresh
    → Tables
    → Answer (EvidenceSet × (Decision × Bool))
unfolding evaluate_found
evaluate_release s w project id actor f t = elim (find_release project id t.releases) [
  | none ↦ failed t (release_error Rows.not_found)
  | some r ↦ evaluate_found s w project actor f t r
]

pub data Command : Type 0 where
  approve reject : Command
  edit : Outcome → Command

abbrev pub is_proposed : Status → Bool
is_proposed proposed = true
is_proposed _ = false

abbrev pub is_approved : Status → Bool
is_approved approved = true
is_approved _ = false

-- The two guards on the status.
unfoldable pub refusal : Command → Status → Option Error
refusal (edit o) status = if is_approved status then some already_approved else none
refusal _ status = if is_proposed status then none else some already_reviewed

unfoldable pub command_outcome : Command → Decision → Option Outcome
command_outcome approve d = some d.proposed_outcome
command_outcome (edit o) d = some o
command_outcome reject d = none

unfoldable pub is_directional : Option Outcome → Bool
is_directional none = false
is_directional (some inconclusive) = false
is_directional (some _) = true

unfoldable pub command_status : Command → Status
command_status reject = rejected
command_status _ = approved

unfoldable pub command_action : Command → Action
command_action approve = was_approved
command_action (edit _) = was_edited
command_action reject = was_rejected

unfoldable pub revised : Command → String → Decision → Decision
unfolding command_status command_outcome
revised command rationale d = record d {
  status = command_status command;
  accepted_outcome = command_outcome command d;
  accepted_rationale = some rationale;
  current_revision = d.current_revision + 1;
}

-- `finalizeObservedRelease`, in the same transaction.
unfoldable pub finalize : Command → String → String → Decision → Tables → Tables
finalize reject project actor d t = t
finalize _ project actor d t = record t {
  releases = finalize_observed project d.release_id actor t.releases;
}

unfoldable pub write_revision :
    Command → String → String → String → Decision → Tables → Answer Decision
unfolding revised command_action finalize write_decision
write_revision command rationale project actor d t =
    done
      (finalize command project actor d (
        write_decision (revised command rationale d) (command_action command) actor (some d)
          rationale t))
      (revised command rationale d)

unfoldable pub revise_with :
    Command → String → String → String → Decision → Tables → EvidenceSet → Answer Decision
unfolding is_directional command_outcome write_revision
revise_with command rationale project actor d t e =
    if is_directional (command_outcome command d) && (not e.result.ready || not e.result.trusted)
    then failed t directional_forbidden
    else write_revision command rationale project actor d t

unfoldable pub revise_found :
    Command → String → String → String → Tables → Decision → Answer Decision
unfolding refusal revise_with
revise_found command rationale project actor t d = elim (refusal command d.status) [
  | some e ↦ failed t e
  | none ↦ elim (find_evidence project d.evidence_id t) [
    | none ↦ failed t evidence_missing
    | some e ↦ revise_with command rationale project actor d t e
  ]
]

-- `reviseDecision`. The row is locked, so that the UPDATE finds the revision that was read.
unfoldable pub revise : Command → String → String → String → String → Tables → Answer Decision
unfolding revise_found
revise command rationale project id actor t = elim (find_decision project id t) [
  | none ↦ failed t decision_not_found
  | some d ↦ revise_found command rationale project actor t d
]

-- The calls that write these tables and those of the releases.
pub data Call : Type 0 where
  evaluates : World → String → String → String → Fresh → Call
  revises : Command → String → String → String → String → Call
  of_releases : Releases.Call → Call

unfoldable pub step : Surroundings → Call → Tables → Tables
step s (evaluates w project id actor f) t = committed (evaluate_release s w project id actor f t)
step s (revises command rationale project id actor) t =
    committed (revise command rationale project id actor t)
step s (of_releases c) t = record t { releases = Releases.step s.iso c t.releases }

unfoldable pub run : Surroundings → List Call → Tables → Tables
run s [] t = t
run s (c ∷ cs) t = run s cs (step s c t)
