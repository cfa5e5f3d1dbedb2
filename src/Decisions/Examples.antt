-- ===== src/Decisions/Examples.antt =====
-- Evidence and decisions on the release of one deployment.
use poolstatis.Common.{
  ℕ, ◌-◌, ◌*◌, ◌/◌, ◌≤◌, ◌≡◌, ◌↔◌, refl, min, Bool, true, false, none, some, String, List, [], ◌∷◌,
  map, get, set, All, ◌==◌, if◌then◌else◌, pos, negsuc, pos_part, minus, IsOrdered, Perm,
}
use poolstatis.Contracts.Declaration.{
  decrease, semantic_issues, validate_declaration, check_metric, metric_issues, report, compatible,
  is_value, guardrail_issues, filter_issues, property_issues, is_missing,
}
use poolstatis.Contracts.Anchored.{IsAnchored}
use poolstatis.Decisions.Evidence.{
  Numbers, keep, rollback, inconclusive, Aggregate, Query, evaluate_metric, evaluate_all, evaluated,
  both, measured, relative_change, block, trust_blocker,
}
use poolstatis.Decisions.Verdict.{
  Evaluation, evaluate, planned_to, day, concluded, coverage_blockers, extent_blockers,
  sample_is_met, window_is_complete, none_left, regressed, or_zero, propose_outcome, propose_moved,
  directed, aligned,
}
use poolstatis.Decisions.Outcomes.{Cleared, Reversed, propose_outcome-Judged}
use poolstatis.Decisions.Ready.{IsAnswered, Answers, IsSufficient, evaluate-ready}
use poolstatis.Decisions.Tables.{
  EvidenceSet, Decision, Tables, Answer, done, find_evidence, set_of_project, find_evidence_key,
  Fresh, new_evidence, new_decision, id_is_taken, insert_evidence, insert_evaluation,
  write_decision, persist, persist_new, find_decision, of_project, committed,
}
use poolstatis.Decisions.Calls.{
  Surroundings, evaluate_release, evaluate_found, evaluate_deployed, evaluate_at, observe, observed,
  persist_after, reject, edit, Call, evaluates, revises, step, run, revise, revise_found,
  revise_with, write_revision, refusal, revised, command_outcome, command_status, command_action,
  is_directional, finalize,
}
use poolstatis.Decisions.Kept.{empty, empty-IsReviewed, other_releases}
use poolstatis.Decisions.Runs.{run-IsReviewed, insert-IsReviewed}
use poolstatis.Decisions.Invariant.{IsReviewed}
use poolstatis.Decisions.Reviews.{Reviewed, conclusive, review_of}
use poolstatis.Decisions.Course.{run-Reviewed, run-approved}
use poolstatis.Decisions.Settled.{IsSettled, run-IsSettled}
use poolstatis.Decisions.Again.{evaluate_release-repeats}
use poolstatis.Decisions.Selected.{Selects}
use poolstatis.Decisions.Queue.{Joined, Filter, item_of, list_decisions}
use poolstatis.Decisions.Order.{shown_key, list_decisions-IsOrdered}
use poolstatis.Releases.Examples.{
  spelled, contract, registry, world, exact, row, stored, exact-stored-IsLedger,
}
use poolstatis.Releases.Table.{
  Release, observing, is_some, find_release, in_project, row_check, status_check, write,
  append_revision,
}
use poolstatis.Releases.Transition.{
  transition, transition_found, update_release, moved, moved_time, allowed_transition,
  contract_is_valid, is_active,
}

-- The unit is a tenth.
abbrev figures : Numbers
figures = record {
  one = 10;
  nine_tenths = 9;
  difference = λ a b. pos (pos_part a - pos_part b);
  ratio = λ a b. pos (pos_part a * 10 / pos_part b);
}

abbrev total : ℕ → Aggregate
total n = record {
  value = pos n;
  events = n;
  actors = n;
  registered_coverage = 10;
  distinct_id_coverage = 10;
  property_coverage = [];
}

-- The deployment is at 3000000000; before it there are 120 events, from it on 180.
abbrev answers : Query
answers key from to = some (if from == 3000000000 then total 180 else total 120)

abbrev around : Surroundings
around = record {
  numbers = figures;
  query = λ _ _. answers;
  millis = λ _. 3000000000;
  iso = spelled;
  spell = λ _. "2026-08-11T00:00:00.000Z";
  rationale = λ _. "moved";
  hash = λ _ _. "hash";
}

abbrev result : Evaluation
result = evaluate figures answers registry contract.declared 3000000000 5000000000

result_keeps : (result.ready ≡ true) × (result.trusted ≡ true) × (result.outcome ≡ keep)
unfolding evaluate concluded evaluate_metric evaluate_all evaluated both measured relative_change
    coverage_blockers extent_blockers block sample_is_met window_is_complete none_left trust_blocker
    regressed or_zero propose_outcome propose_moved directed aligned planned_to day semantic_issues
    check_metric metric_issues report compatible is_value guardrail_issues filter_issues
    property_issues is_missing get minus
result_keeps = (refl, refl, refl)

-- Half of the window has passed.
result_waits :
    (evaluate figures answers registry contract.declared 3000000000 4000000000).outcome
    ≡ inconclusive
unfolding evaluate concluded evaluate_metric evaluate_all evaluated both measured relative_change
    coverage_blockers extent_blockers block sample_is_met window_is_complete none_left trust_blocker
    regressed or_zero propose_outcome propose_moved directed aligned planned_to day semantic_issues
    check_metric metric_issues report compatible is_value guardrail_issues filter_issues
    property_issues is_missing get minus
result_waits = refl

evaluate-ready_example :
    let from = 3000000000 - 28 * day in
    let to = min 5000000000 (planned_to contract.declared 3000000000) in
    (result.ready ≡ true) ↔ (
      IsAnchored registry contract.declared
      × (IsAnswered (answers "activations" from 3000000000)
          × (All (Answers answers from 3000000000 to) ("errors" ∷ [])
              × (((a : Aggregate) × (answers "activations" 3000000000 to ≡ some a)
                    × IsSufficient figures contract.declared a)
                  × (planned_to contract.declared 3000000000 ≤ 5000000000)))))
evaluate-ready_example =
    evaluate-ready figures answers registry contract.declared 3000000000 5000000000

propose_outcome-Judged_example :
    ((propose_outcome true decrease 2 (some (negsuc 4)) false ≡ inconclusive) ↔ (true ≡ false))
    × ((propose_outcome true decrease 2 (some (negsuc 4)) false ≡ keep)
        ↔ ((true ≡ true) × (false ≡ false) × Cleared decrease 2 (negsuc 4)))
    × ((propose_outcome true decrease 2 (some (negsuc 4)) false ≡ rollback)
        ↔ ((true ≡ true) × (false ≡ false) × Reversed decrease 2 (negsuc 4)))
propose_outcome-Judged_example = propose_outcome-Judged true decrease 2 (negsuc 4) false

abbrev fresh : String → String → Fresh
fresh e d = record { evidence_id = e; decision_id = d; now = 5000000000 }

abbrev release : Release
release = row exact "r1"

-- The release is deployed, and nothing is evaluated yet.
abbrev start : Tables
start = record empty { releases = stored exact "r1" }

start-IsReviewed : IsReviewed start
start-IsReviewed = other_releases empty (stored exact "r1") exact-stored-IsLedger empty-IsReviewed

abbrev evidence : EvidenceSet
evidence = new_evidence (fresh "e1" "d1") release result "hash"

abbrev decision : Decision
decision = new_decision (fresh "e1" "d1") release result "moved" "agent"

abbrev evaluated_once : Tables
evaluated_once = insert_evaluation (fresh "e1" "d1") evidence decision "moved" "agent" start

first_is_new :
    persist (fresh "e1" "d1") release result "hash" "moved" "agent" start
    ≡ done evaluated_once (evidence, (decision, false))
unfolding persist find_evidence_key persist_new id_is_taken is_some get
first_is_new = refl

abbrev review : List Call
review =
    revises reject "wait" "p1" "d1" "owner"
    ∷ revises (edit rollback) "broken" "p1" "d1" "owner"
    ∷ []

-- The first evaluation begins the observation, and the proposal is rejected.
abbrev evaluation : Answer (EvidenceSet × (Decision × Bool))
evaluation = evaluate_release around world "p1" "r1" "agent" (fresh "e1" "d1") start

first_is_stored : evaluation ≡ done (committed evaluation) (evidence, (decision, false))
unfolding run step committed revise find_decision of_project revise_found refusal revise_with
    is_directional write_revision finalize revised command_outcome command_status command_action
    find_evidence set_of_project insert_evaluation write_decision insert_evidence new_decision
    new_evidence get set evaluate concluded evaluate_metric evaluate_all evaluated both measured
    relative_change coverage_blockers extent_blockers block sample_is_met window_is_complete
    none_left trust_blocker regressed or_zero propose_outcome propose_moved directed aligned
    planned_to day semantic_issues check_metric metric_issues report compatible is_value
    guardrail_issues filter_issues property_issues is_missing minus evaluate_release evaluate_found
    evaluate_deployed evaluate_at observe observed persist_after persist find_evidence_key
    persist_new id_is_taken is_some transition transition_found update_release moved moved_time
    allowed_transition contract_is_valid find_release in_project row_check status_check write
    append_revision is_active validate_declaration
first_is_stored = refl

abbrev rejection : List Call
rejection = revises reject "wait" "p1" "d1" "owner" ∷ []

abbrev watched : Release
watched = record release { status = observing }

still_watched :
    find_release "p1" "r1" (run around rejection (committed evaluation)).releases ≡ some watched
unfolding run step committed revise find_decision of_project revise_found refusal revise_with
    is_directional write_revision finalize revised command_outcome command_status command_action
    find_evidence set_of_project insert_evaluation write_decision insert_evidence new_decision
    new_evidence get set evaluate concluded evaluate_metric evaluate_all evaluated both measured
    relative_change coverage_blockers extent_blockers block sample_is_met window_is_complete
    none_left trust_blocker regressed or_zero propose_outcome propose_moved directed aligned
    planned_to day semantic_issues check_metric metric_issues report compatible is_value
    guardrail_issues filter_issues property_issues is_missing minus evaluate_release evaluate_found
    evaluate_deployed evaluate_at observe observed persist_after persist find_evidence_key
    persist_new id_is_taken is_some transition transition_found update_release moved moved_time
    allowed_transition contract_is_valid find_release in_project row_check status_check write
    append_revision is_active validate_declaration
still_watched = refl

evaluate_release-repeats_example :
    (q : Decision) × (evaluate_release around world "p1" "r1" "agent"
        (fresh "e2" "d2")
        (run around rejection (committed evaluation))
      ≡ done (run around rejection (committed evaluation)) (evidence, (q, true)))
    × (q.id ≡ decision.id)
    × (get (run around rejection (committed evaluation)).decisions decision.id ≡ some q)
unfolding new_evidence evaluate semantic_issues check_metric get compatible is_value
    guardrail_issues filter_issues property_issues is_missing
evaluate_release-repeats_example =
    evaluate_release-repeats around world world "p1" "r1" "agent" "agent" (fresh "e1" "d1")
      (fresh "e2" "d2") rejection start (committed evaluation) evidence decision watched
      "2026-07-19T01:00:00.000Z" result start-IsReviewed first_is_stored still_watched refl refl
      refl refl refl

once-IsReviewed : IsReviewed evaluated_once
unfolding id_is_taken get is_some
once-IsReviewed =
    insert-IsReviewed start (fresh "e1" "d1") release result "hash" "moved" "agent" start-IsReviewed
      refl

abbrev calls : List Call
calls = evaluates world "p1" "r1" "agent" (fresh "e1" "d1") ∷ review

run-IsReviewed_example : IsReviewed (run around calls start)
run-IsReviewed_example = run-IsReviewed around calls start start-IsReviewed

start-IsSettled : IsSettled start
unfolding get
start-IsSettled id d there = absurd cc

run-IsSettled_example : IsSettled (run around calls start)
run-IsSettled_example = run-IsSettled around calls start start-IsReviewed start-IsSettled

decision_is_there : get evaluated_once.decisions "d1" ≡ some decision
unfolding insert_evaluation write_decision insert_evidence new_decision get set
decision_is_there = refl

evidence_is_found :
    find_evidence decision.project_id decision.evidence_id evaluated_once ≡ some evidence
unfolding insert_evaluation write_decision insert_evidence new_decision new_evidence get set
    find_evidence set_of_project
evidence_is_found = refl

run-Reviewed_example :
    (q : Decision) × (get (run around review evaluated_once).decisions "d1" ≡ some q)
    × (Reviewed (conclusive evidence) (review_of decision) (review_of q))
    × (find_evidence q.project_id q.evidence_id (run around review evaluated_once) ≡ some evidence)
run-Reviewed_example =
    run-Reviewed around review evaluated_once "d1" evidence decision once-IsReviewed
      decision_is_there evidence_is_found

abbrev approved_row : Decision
approved_row = revised (edit rollback) "broken" (revised reject "wait" decision)

review_approves : get (run around review evaluated_once).decisions "d1" ≡ some approved_row
unfolding run step committed revise find_decision of_project revise_found refusal revise_with
    is_directional write_revision finalize revised command_outcome command_status command_action
    find_evidence set_of_project insert_evaluation write_decision insert_evidence new_decision
    new_evidence get set evaluate concluded evaluate_metric evaluate_all evaluated both measured
    relative_change coverage_blockers extent_blockers block sample_is_met window_is_complete
    none_left trust_blocker regressed or_zero propose_outcome propose_moved directed aligned
    planned_to day semantic_issues check_metric metric_issues report compatible is_value
    guardrail_issues filter_issues property_issues is_missing minus
review_approves = refl

run-approved_example :
    (get (run around review (run around review evaluated_once)).decisions "d1" ≡ some approved_row)
    × (find_evidence approved_row.project_id approved_row.evidence_id
          (run around review (run around review evaluated_once))
        ≡ find_evidence approved_row.project_id approved_row.evidence_id
            (run around review evaluated_once))
unfolding revised command_status
run-approved_example =
    run-approved around review (run around review evaluated_once) "d1" approved_row
      (run-IsReviewed around review evaluated_once once-IsReviewed) review_approves refl

abbrev all_of : Filter
all_of = record { status = none; release_id = none; env = some "prod"; experiment_key = none }

list_decisions-IsOrdered_example :
    IsOrdered (shown_key (λ _. 1)) (list_decisions (λ _. 1) "p1" all_of evaluated_once)
    × ((rows : List Joined) × (Selects "p1" all_of evaluated_once evaluated_once.decisions rows)
        × Perm (list_decisions (λ _. 1) "p1" all_of evaluated_once) (map item_of rows))
list_decisions-IsOrdered_example = list_decisions-IsOrdered (λ _. 1) "p1" all_of evaluated_once
