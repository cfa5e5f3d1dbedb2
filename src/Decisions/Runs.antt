-- ===== src/Decisions/Runs.antt =====
-- src/services/evaluation.ts and src/services/decisions.ts: any calls keep the invariant of the rows.
use poolstatis.Common.{
  suc, ◌≡◌, refl, subst, inl, inr, Bool, true, false, ◌||◌, none, some, String, List, [], ◌∷◌, get,
  set, str_eq, eq_iff, eq_refl, get-set, Bool-cases,
}
use poolstatis.Decisions.Verdict.{Evaluation}
use poolstatis.Decisions.Tables.{
  EvidenceSet, was_proposed, Tables, set_of_project, find_evidence, write_decision, Fresh,
  new_evidence, new_decision, id_is_taken, insert_evidence, insert_evaluation,
}
use poolstatis.Decisions.Calls.{Surroundings, Call, step, run, is_directional}
use poolstatis.Decisions.Changes.{Change, kept, inserts, revised_one}
use poolstatis.Decisions.Revisions.{step-Change}
use poolstatis.Decisions.Invariant.{
  revision_of, Shape, Rests, IsNamed, IsBacked, IsReviewed, set-rows, set-All, All-map,
  write-numbered, write-logged,
}
use poolstatis.Releases.Table.{Release, is_some}
use poolstatis.Releases.Changes.{is_some-none, Change-IsLedger}
use poolstatis.Decisions.Kept.{other_releases, inserted-backed, revise-IsReviewed}

pub fresh_ids :
    (f : Fresh) (t : Tables)
    → id_is_taken f t ≡ false
    → (get t.evidence f.evidence_id ≡ none) × (get t.decisions f.decision_id ≡ none)
unfolding id_is_taken
fresh_ids f t h =
    let (a, b) = neither_of (is_some (get t.evidence f.evidence_id)) _ h in
    (is_some-none _ a, is_some-none _ b)
  where
    neither_of : (a b : Bool) → (a || b) ≡ false → (a ≡ false) × (b ≡ false)
    neither_of false false h = (refl, refl)
    neither_of false true h = absurd cc
    neither_of true b h = absurd cc

-- New evidence does not hide what was there.
pub found_after :
    (t : Tables) (e : EvidenceSet) (project id : String) (q : EvidenceSet)
    → get t.evidence e.id ≡ none
    → find_evidence project id t ≡ some q
    → find_evidence project id (insert_evidence e t) ≡ some q
unfolding find_evidence insert_evidence set_of_project
found_after t e project id q absent found = elim (Bool-cases (str_eq e.id id)) [
  | inl same ↦
      let absent' =
        subst (λ (i : String). get t.evidence i ≡ none) ((eq_iff e.id id).0 same) absent in
      let found' = rw absent' at found in absurd cc
  | inr other ↦ rw (get-set t.evidence e.id id e, other) found
]

pub found_new :
    (t : Tables) (e : EvidenceSet) → find_evidence e.project_id e.id (insert_evidence e t) ≡ some e
unfolding find_evidence insert_evidence set_of_project
found_new t e = rw (get-set t.evidence e.id e.id e, eq_refl e.id, eq_refl e.project_id) refl

first_number :
    (f : Fresh) (t : Tables)
    → get t.decisions f.decision_id ≡ none
    → 1 ≡ suc (revision_of (get t.decisions f.decision_id))
unfolding revision_of
first_number f t h = rw h refl

pub insert-IsReviewed :
    (t : Tables) (f : Fresh) (r : Release) (result : Evaluation) (key rationale actor : String)
    → IsReviewed t
    → id_is_taken f t ≡ false
    → IsReviewed (
        insert_evaluation f
          (new_evidence f r result key)
          (new_decision f r result rationale actor)
          rationale
          actor
          t)
insert-IsReviewed t f r result key rationale actor h free =
    let (no_evidence, no_decision) = fresh_ids f t free in
    let e = new_evidence f r result key in
    let d = new_decision f r result rationale actor in
    record {
      ledger = unfold insert_evaluation write_decision insert_evidence in h.ledger;
      named =
          unfold insert_evaluation write_decision insert_evidence new_decision in
          set-All IsNamed t.decisions f.decision_id _ refl h.named;
      backed =
          unfold insert_evaluation write_decision insert_evidence new_decision new_evidence in
          set-All (IsBacked (set t.evidence f.evidence_id (new_evidence f r result key)))
            t.decisions f.decision_id d
            (inserted-backed t.evidence f.evidence_id _ f.evidence_id (inl refl))
            (All-map _ _ t.decisions (λ x b. inserted-backed t.evidence f.evidence_id _ _ (inr b))
              h.backed);
      keyed =
          unfold insert_evaluation write_decision insert_evidence new_decision in
          set-rows (λ id x. x.id ≡ id) t.decisions f.decision_id _ refl h.keyed;
      keyed_evidence =
          unfold insert_evaluation write_decision insert_evidence new_evidence in
          set-rows (λ id x. x.id ≡ id) t.evidence f.evidence_id _ refl h.keyed_evidence;
      numbered =
          unfold insert_evaluation insert_evidence new_decision in
          write-numbered d was_proposed actor none rationale (insert_evidence e t)
            (first_number f t no_decision) h.numbered;
      logged =
          unfold insert_evaluation insert_evidence in
          write-logged d was_proposed actor none rationale (insert_evidence e t) h.logged;
      shaped =
          unfold insert_evaluation write_decision insert_evidence new_decision in
          set-rows (λ id x. Shape x.status x) t.decisions f.decision_id _ (refl, refl, refl)
            h.shaped;
      supported =
          unfold insert_evaluation write_decision find_evidence new_decision in
          set-rows
            (λ id x.
              (q : EvidenceSet) × (find_evidence x.project_id x.evidence_id (insert_evidence e t)
                ≡ some q)
              × Rests x q)
            t.decisions f.decision_id d
            (
              e,
              unfold new_evidence in found_new t e,
              unfold new_evidence is_directional in (refl, refl),
            )
            (λ id x there.
              let (q, found, rests) = h.supported id x there in
              (
                q,
                unfold new_evidence in
                    found_after t e x.project_id x.evidence_id q no_evidence found,
                rests,
              ));
    }

pub Change-IsReviewed : {t t' : Tables} → Change t t' → IsReviewed t → IsReviewed t'
Change-IsReviewed {t} (kept u moved) h = other_releases t u (Change-IsLedger moved h.ledger) h
Change-IsReviewed {t} (inserts u f r result key rationale actor moved grounded free new) h =
    other_releases _ u (Change-IsLedger moved h.ledger)
      (insert-IsReviewed t f r result key rationale actor h free)
Change-IsReviewed {t}
      (revised_one u command rationale actor d e moved closed there allowed found ok) h =
    other_releases _ u (Change-IsLedger moved h.ledger)
      (revise-IsReviewed t command rationale actor d e h there allowed found ok)

pub step-IsReviewed :
    (s : Surroundings) (c : Call) (t : Tables) → IsReviewed t → IsReviewed (step s c t)
step-IsReviewed s c t h = Change-IsReviewed (step-Change s c t h.ledger h.keyed) h

-- Any evaluations, reviews and calls on releases keep the rows as they should be: each stands under its id; the
-- revisions of a decision are numbered from 1 to its current one, and the last of them is its row; it
-- satisfies the CHECK of the table, with one revision while it is proposed, two when it is rejected and two or
-- three when it is approved; it rests on evidence of its project and release, ready and trusted if a direction
-- was accepted; and the releases are a ledger.
pub run-IsReviewed :
    (s : Surroundings) (cs : List Call) (t : Tables) → IsReviewed t → IsReviewed (run s cs t)
unfolding run
run-IsReviewed s [] t h = h
run-IsReviewed s (c ∷ cs) t h = run-IsReviewed s cs (step s c t) (step-IsReviewed s c t h)
