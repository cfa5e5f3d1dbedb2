-- ===== src/Decisions/Changes.antt =====
-- src/services/evaluation.ts and src/services/decisions.ts: each call leaves the rows of the decisions as
-- they are, inserts evidence with its decision, or revises one decision.
use poolstatis.Common.{
  ◌≡◌, inl, inr, Bool, true, false, not, ◌&&◌, ◌||◌, none, some, String, get, Option-cases, if_elim,
}
use poolstatis.Decisions.Verdict.{Evaluation}
use poolstatis.Decisions.Tables.{
  EvidenceSet, Decision, Tables, Answer, committed, find_evidence, find_evidence_key,
  write_decision, Fresh, new_evidence, new_decision, id_is_taken, insert_evidence,
  insert_evaluation, persist_new, persist_existing, persist, decision_of,
}
use poolstatis.Decisions.Calls.{
  Command, reject, refusal, is_directional, command_outcome, command_action, revised,
}
use poolstatis.Releases.Changes.{
  some-eq, transition-Change, finalize_observed-Change, find_release-get,
}
use poolstatis.Releases.Changes as Releases
use poolstatis.Releases.Table.{
  Release, World, deployed, observing, status_eq, find_release, in_project,
}
use poolstatis.Releases.Table as Rows
use poolstatis.Releases.Transition.{moved}

-- A release that is no longer planned or only deployed.
unfoldable pub is_past : Rows.Status → Bool
is_past Rows.planned = false
is_past deployed = false
is_past _ = true

-- The release of new evidence is there, and its observation has begun if the evidence is ready.
abbrev pub IsGrounded : Release → Evaluation → Rows.Tables → Type 0
IsGrounded r result u =
    (q : Release) × (get u.releases r.id ≡ some q)
    × ((q.project_id ≡ r.project_id) × ((not result.ready || is_past q.status) ≡ true))

-- The release of a decision is not observed.
abbrev pub IsOver : Decision → Rows.Tables → Type 0
IsOver d u =
    (q : Release)
    → get u.releases d.release_id ≡ some q
    → q.project_id ≡ d.project_id
    → status_eq q.status observing ≡ false

abbrev pub IsClosed : Command → Decision → Rows.Tables → Type 0
IsClosed reject d u = Unit
IsClosed _ d u = IsOver d u

pub data Change (t : Tables) : Tables → Type 0 where
  kept : (u : Rows.Tables) → Releases.Change t.releases u → Change t (record t { releases = u })
  inserts :
      (u : Rows.Tables) (f : Fresh) (r : Release) (result : Evaluation)
      (key rationale actor : String)
      → Releases.Change t.releases u
      → IsGrounded r result u
      → id_is_taken f t ≡ false
      → find_evidence_key r.project_id r.id key t.evidence ≡ none
      → Change t
          (record (insert_evaluation f
            (new_evidence f r result key)
            (new_decision f r result rationale actor)
            rationale
            actor
            t) { releases = u })
  revised_one :
      (u : Rows.Tables) (command : Command) (rationale actor : String) (d : Decision)
      (e : EvidenceSet)
      → Releases.Change t.releases u
      → IsClosed command d u
      → get t.decisions d.id ≡ some d
      → refusal command d.status ≡ none
      → find_evidence d.project_id d.evidence_id t ≡ some e
      → (is_directional (command_outcome command d) && (not e.result.ready || not e.result.trusted))
        ≡ false
      → Change t
          (record (write_decision
            (revised command rationale d)
            (command_action command)
            actor
            (some d)
            rationale
            t) { releases = u })

-- Every row stands under its id.
abbrev pub IsKeyed : Tables → Type 0
IsKeyed t = (id : String) (d : Decision) → get t.decisions id ≡ some d → d.id ≡ id

pub unchanged : (t : Tables) → Change t t
unchanged t = kept t.releases Releases.kept

pub persist-Change :
    (f : Fresh) (r : Release) (result : Evaluation) (key rationale actor : String) (t : Tables)
    (u : Rows.Tables)
    → Releases.Change t.releases u
    → IsGrounded r result u
    → Change t (committed (persist f r result key rationale actor (record t { releases = u })))
unfolding persist persist_new persist_existing committed insert_evaluation insert_evidence
    write_decision id_is_taken
persist-Change f r result key rationale actor t u moved grounded =
    elim (Option-cases (find_evidence_key r.project_id r.id key t.evidence)) [
      | inl e ↦
          rw (e, persist)
            (if_elim (λ (a : Answer (EvidenceSet × (Decision × Bool))). Change t (committed a))
              (id_is_taken f t) (λ _. kept u moved)
              (λ free. inserts u f r result key rationale actor moved grounded free e))
      | inr (q, e) ↦
          rw (e, persist)
            (elim (Option-cases (decision_of q.id t.decisions)) [
              | inl h ↦ rw (h, persist_existing) (kept u moved)
              | inr (d, h) ↦ rw (h, persist_existing) (kept u moved)
            ])
    ]
