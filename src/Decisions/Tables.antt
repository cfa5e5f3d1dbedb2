-- ===== src/Decisions/Tables.antt =====
-- src/services/evaluation.ts, src/services/decisions.ts and migrations/019_decision_evidence.sql: the
-- tables of the evidence and of the decisions, and the calls that write them.
use poolstatis.Common.{
  ℕ, Bool, true, false, ◌&&◌, ◌||◌, Option, none, some, String, List, [], ◌∷◌, ◌++◌, Map, get, set,
  str_eq, if◌then◌else◌,
}
use poolstatis.Decisions.Evidence.{Outcome}
use poolstatis.Decisions.Verdict.{Evaluation}
use poolstatis.Releases.Table as Releases
use poolstatis.Releases.Table.{World, deployed, observing, status_eq, find_release}

-- A row of `evidence_sets`. The query specifications and the time of the row are left out.
pub record EvidenceSet : Type 0 where
  pub id : String
  pub project_id : String
  pub release_id : String
  pub contract_id : String
  pub evaluated_at : ℕ
  pub result : Evaluation
  pub evidence_key : String

pub data Status : Type 0 where
  proposed approved rejected : Status

-- A row of `decisions`.
pub record Decision : Type 0 where
  pub id : String
  pub project_id : String
  pub release_id : String
  pub contract_id : String
  pub evidence_id : String
  pub status : Status
  pub proposed_outcome : Outcome
  pub proposed_rationale : String
  pub accepted_outcome : Option Outcome
  pub accepted_rationale : Option String
  pub current_revision : ℕ
  pub created_by : String
  pub created_at : ℕ

pub data Action : Type 0 where
  was_proposed was_approved was_edited was_rejected : Action

-- A row of `decision_revisions`.
pub record Revision : Type 0 where
  pub decision_id : String
  pub revision : ℕ
  pub action : Action
  pub actor : String
  pub previous_snapshot : Option Decision
  pub snapshot : Decision
  pub rationale : String

pub record Tables : Type 0 where
  pub evidence : Map EvidenceSet
  pub decisions : Map Decision
  pub revisions : List Revision
  pub releases : Releases.Tables

pub data Error : Type 0 where
  release_error : Releases.Error → Error
  not_evaluable missing_deployment id_taken evidence_without_decision : Error
  decision_not_found already_reviewed already_approved directional_forbidden : Error
  evidence_missing revision_conflict : Error

-- The end of a call, with the tables as it leaves them.
pub data Answer (A : Type 0) : Type 0 where
  failed : Tables → Error → Answer A
  done : Tables → A → Answer A

unfoldable pub committed : {A : Type 0} → Answer A → Tables
committed (failed t e) = t
committed (done t a) = t

-- `WHERE project_id = $1 AND id = $2`
unfoldable pub of_project : String → Option Decision → Option Decision
of_project project none = none
of_project project (some d) = if str_eq d.project_id project then some d else none

unfoldable pub find_decision : String → String → Tables → Option Decision
unfolding of_project
find_decision project id t = of_project project (get t.decisions id)

unfoldable pub set_of_project : String → Option EvidenceSet → Option EvidenceSet
set_of_project project none = none
set_of_project project (some e) = if str_eq e.project_id project then some e else none

unfoldable pub find_evidence : String → String → Tables → Option EvidenceSet
unfolding set_of_project
find_evidence project id t = set_of_project project (get t.evidence id)

-- The row that ON CONFLICT (project_id, release_id, evidence_key) meets.
unfoldable pub has_evidence_key : String → String → String → EvidenceSet → Bool
has_evidence_key project release key e =
    str_eq e.project_id project && (str_eq e.release_id release && str_eq e.evidence_key key)

unfoldable pub find_evidence_key : String → String → String → Map EvidenceSet → Option EvidenceSet
find_evidence_key project release key [] = none
find_evidence_key project release key ((_, e) ∷ rows) =
    if has_evidence_key project release key e
    then some e
    else find_evidence_key project release key rows

-- `JOIN decisions d ON d.evidence_id = e.id`
unfoldable pub decision_of : String → Map Decision → Option Decision
decision_of evidence [] = none
decision_of evidence ((_, d) ∷ rows) =
    if str_eq d.evidence_id evidence then some d else decision_of evidence rows

-- A row of `decisions` is written with its revision.
unfoldable pub write_decision :
    Decision → Action → String → Option Decision → String → Tables → Tables
write_decision d action actor previous rationale t = record t {
  decisions = set t.decisions d.id d;
  revisions =
      t.revisions
      ++ record {
        decision_id = d.id;
        revision = d.current_revision;
        action = action;
        actor = actor;
        previous_snapshot = previous;
        snapshot = d;
        rationale = rationale;
      }
        ∷ [];
}

-- The ids that the database gives to the new rows, and the time of the call.
pub record Fresh : Type 0 where
  pub evidence_id : String
  pub decision_id : String
  pub now : ℕ

unfoldable pub new_evidence : Fresh → Releases.Release → Evaluation → String → EvidenceSet
new_evidence f r result key = record {
  id = f.evidence_id;
  project_id = r.project_id;
  release_id = r.id;
  contract_id = r.contract_id;
  evaluated_at = f.now;
  result = result;
  evidence_key = key;
}

unfoldable pub new_decision : Fresh → Releases.Release → Evaluation → String → String → Decision
new_decision f r result rationale actor = record {
  id = f.decision_id;
  project_id = r.project_id;
  release_id = r.id;
  contract_id = r.contract_id;
  evidence_id = f.evidence_id;
  status = proposed;
  proposed_outcome = result.outcome;
  proposed_rationale = rationale;
  accepted_outcome = none;
  accepted_rationale = none;
  current_revision = 1;
  created_by = actor;
  created_at = f.now;
}

unfoldable pub insert_evidence : EvidenceSet → Tables → Tables
insert_evidence e t = record t { evidence = set t.evidence e.id e }

unfoldable pub id_is_taken : Fresh → Tables → Bool
unfolding Releases.is_some
id_is_taken f t =
    Releases.is_some (get t.evidence f.evidence_id)
    || Releases.is_some (get t.decisions f.decision_id)

-- The rows of a new evidence set: its decision, and the first revision of that.
unfoldable pub insert_evaluation :
    Fresh → EvidenceSet → Decision → String → String → Tables → Tables
unfolding insert_evidence write_decision
insert_evaluation f e d rationale actor t =
    write_decision d was_proposed actor none rationale (insert_evidence e t)

unfoldable pub persist_new :
    Fresh
    → Releases.Release
    → Evaluation
    → String
    → String
    → String
    → Tables
    → Answer (EvidenceSet × (Decision × Bool))
unfolding id_is_taken insert_evaluation new_evidence new_decision
persist_new f r result key rationale actor t =
    if id_is_taken f t
    then failed t id_taken
    else done
        (insert_evaluation f (new_evidence f r result key) (new_decision f r result rationale actor)
          rationale actor t)
        (new_evidence f r result key, (new_decision f r result rationale actor, false))

unfoldable pub persist_existing : EvidenceSet → Tables → Answer (EvidenceSet × (Decision × Bool))
persist_existing e t = elim (decision_of e.id t.decisions) [
  | none ↦ failed t evidence_without_decision
  | some d ↦ done t (e, (d, true))
]

-- `persistEvaluation`
unfoldable pub persist :
    Fresh
    → Releases.Release
    → Evaluation
    → String
    → String
    → String
    → Tables
    → Answer (EvidenceSet × (Decision × Bool))
unfolding persist_new persist_existing
persist f r result key rationale actor t =
    elim (find_evidence_key r.project_id r.id key t.evidence) [
      | none ↦ persist_new f r result key rationale actor t
      | some e ↦ persist_existing e t
    ]
