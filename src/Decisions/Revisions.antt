-- ===== src/Decisions/Revisions.antt =====
-- src/services/decisions.ts: a review leaves the rows as they are or revises one decision, and closes its release.
use poolstatis.Common.{
  ◌≡◌, ◌∙◌, refl, sym, subst, inl, inr, false, not, ◌&&◌, ◌||◌, Option, none, some, String, get,
  str_eq, eq_iff, get-set, Bool-cases, Option-cases, if_elim,
}
use poolstatis.Decisions.Tables.{
  EvidenceSet, Decision, Tables, Answer, committed, of_project, find_decision, find_evidence,
  write_decision,
}
use poolstatis.Decisions.Calls.{
  Surroundings, Command, approve, reject, edit, refusal, is_directional, command_outcome, finalize,
  write_revision, revise_with, revise_found, revise, Call, evaluates, revises, of_releases, step,
}
use poolstatis.Releases.Changes.{
  some-eq, transition-Change, finalize_observed-Change, find_release-get,
}
use poolstatis.Releases.Changes as Releases
use poolstatis.Releases.Invariant.{IsLedger}
use poolstatis.Releases.Lifecycle as Calls
use poolstatis.Releases.Table.{
  Release, World, deployed, observing, status_eq, find_release, in_project,
}
use poolstatis.Releases.Table as Rows
use poolstatis.Releases.Transition.{finalize_observed, finalize_found}
use poolstatis.Decisions.Changes.{kept, revised_one, IsOver, Change, IsKeyed, unchanged}
use poolstatis.Decisions.Evaluations.{find_release-some, evaluate_release-Change}

of_project-some :
    (project : String) (o : Option Decision) {d : Decision}
    → of_project project o ≡ some d
    → (o ≡ some d) × (d.project_id ≡ project)
unfolding of_project
of_project-some project none h = absurd cc
of_project-some project (some q) {d} h = elim (Bool-cases (str_eq q.project_id project)) [
  | inl e ↦
      let h' = rw e at h in
      (h', subst (λ (x : Decision). x.project_id ≡ project) (some-eq h') ((eq_iff _ _).0 e))
  | inr e ↦ let h' = rw e at h in absurd cc
]

finalize_found-IsOver :
    (actor : String) (d : Decision) (u : Rows.Tables) (r : Release)
    → get u.releases d.release_id ≡ some r
    → r.id ≡ d.release_id
    → IsOver d (finalize_found actor u r)
unfolding finalize_found Rows.write
finalize_found-IsOver actor d u r there same = elim (Bool-cases (status_eq r.status observing)) [
  | inl e ↦ rw e (λ q at p.
      let at' =
        rw
          (
            get-set u.releases r.id d.release_id (record r { status = Rows.decided }),
            (eq_iff r.id d.release_id).1 same,
          )
          at at in
      subst (λ (x : Release). status_eq x.status observing ≡ false) (some-eq at') refl)
  | inr e ↦ rw e (λ q at p.
      subst (λ (x : Release). status_eq x.status observing ≡ false) (some-eq (sym there ∙ at)) e)
]

finalize-IsOver :
    (actor : String) (d : Decision) (t : Tables)
    → IsLedger t.releases
    → IsOver d (finalize_observed d.project_id d.release_id actor t.releases)
unfolding finalize_observed
finalize-IsOver actor d t h =
    elim (Option-cases (find_release d.project_id d.release_id t.releases)) [
      | inl e ↦
          rw (e, finalize_observed)
            (λ q there p.
              let found = find_release-some d.project_id d.release_id t.releases q there p in
              absurd cc)
      | inr (r, e) ↦
          let (there, _, _) = find_release-get d.project_id d.release_id t.releases h e in
          rw (e, finalize_observed)
            (finalize_found-IsOver actor d t.releases r there (h.keyed d.release_id there))
    ]

written :
    (command : Command) (rationale actor : String) (t : Tables) (d : Decision) (e : EvidenceSet)
    → IsLedger t.releases
    → get t.decisions d.id ≡ some d
    → refusal command d.status ≡ none
    → find_evidence d.project_id d.evidence_id t ≡ some e
    → (is_directional (command_outcome command d) && (not e.result.ready || not e.result.trusted))
      ≡ false
    → Change t (committed (write_revision command rationale d.project_id actor d t))
unfolding write_revision finalize committed write_decision
written approve rationale actor t d e h there allowed k g =
    revised_one _ approve rationale actor d e
      (finalize_observed-Change d.project_id d.release_id actor t.releases h)
      (finalize-IsOver actor d t h) there allowed k g
written (edit o) rationale actor t d e h there allowed k g =
    revised_one _ (edit o) rationale actor d e
      (finalize_observed-Change d.project_id d.release_id actor t.releases h)
      (finalize-IsOver actor d t h) there allowed k g
written reject rationale actor t d e h there allowed k g =
    revised_one t.releases reject rationale actor d e Releases.kept tt there allowed k g

find_decision-get :
    (project id : String) (t : Tables) {d : Decision}
    → IsKeyed t
    → find_decision project id t ≡ some d
    → (get t.decisions d.id ≡ some d) × (d.project_id ≡ project)
unfolding find_decision
find_decision-get project id t {d} h e =
    let (there, p) = of_project-some project (get t.decisions id) e in
    (subst (λ (i : String). get t.decisions i ≡ some d) (sym (h id d there)) there, p)

revise_found-Change :
    (command : Command) (rationale actor : String) (t : Tables) (d : Decision)
    → IsLedger t.releases
    → get t.decisions d.id ≡ some d
    → Change t (committed (revise_found command rationale d.project_id actor t d))
unfolding revise_found revise_with
revise_found-Change command rationale actor t d ledger there =
    elim (Option-cases (refusal command d.status)) [
      | inr (e, h) ↦ rw (h, revise_found) (unfold committed in unchanged t)
      | inl h ↦
          rw (h, revise_found)
            (elim (Option-cases (find_evidence d.project_id d.evidence_id t)) [
              | inl k ↦ rw (k, revise_found) (unfold committed in unchanged t)
              | inr (e, k) ↦
                  rw (k, revise_found)
                    (if_elim (λ (a : Answer Decision). Change t (committed a))
                      (is_directional (command_outcome command d)
                        && (not e.result.ready || not e.result.trusted))
                      (λ _. unfold committed in unchanged t)
                      (λ g. written command rationale actor t d e ledger there h k g))
            ])
    ]

revise-Change :
    (command : Command) (rationale project id actor : String) (t : Tables)
    → IsLedger t.releases
    → IsKeyed t
    → Change t (committed (revise command rationale project id actor t))
unfolding revise
revise-Change command rationale project id actor t ledger h =
    elim (Option-cases (find_decision project id t)) [
      | inl e ↦ rw (e, revise) (unfold committed in unchanged t)
      | inr (d, e) ↦
          let (there, p) = find_decision-get project id t h e in
          rw (e, revise)
            (subst
              (λ (q : String). Change t (committed (revise_found command rationale q actor t d))) p
              (revise_found-Change command rationale actor t d ledger there))
    ]

pub step-Change :
    (s : Surroundings) (c : Call) (t : Tables)
    → IsLedger t.releases
    → IsKeyed t
    → Change t (step s c t)
unfolding step
step-Change s (evaluates w project id actor f) t ledger h =
    evaluate_release-Change s w project id actor f t ledger
step-Change s (revises command rationale project id actor) t ledger h =
    revise-Change command rationale project id actor t ledger h
step-Change s (of_releases c) t ledger h = kept _ (Calls.step-Change s.iso c t.releases ledger)
