-- ===== src/Decisions/Stored.antt =====
-- src/services/evaluation.ts: stored evidence is found again by its key, with its decision.
use poolstatis.Common.{
  ◌≡◌, refl, ◌∙◌, subst, inl, inr, Bool, true, false, none, some, String, List, [], ◌∷◌, Map, All,
  get, str_eq, eq_iff, eq_refl, get-set, Bool-cases, Option-cases, if_elim,
}
use poolstatis.Decisions.Verdict.{Evaluation}
use poolstatis.Decisions.Tables.{
  EvidenceSet, Decision, Tables, Answer, failed, done, find_evidence_key, has_evidence_key,
  decision_of, write_decision, Fresh, id_is_taken, insert_evidence, insert_evaluation, new_evidence,
  new_decision, persist_new, persist_existing, persist,
}
use poolstatis.Decisions.Calls.{Surroundings, Call, step, run, revised}
use poolstatis.Decisions.Changes.{Change, kept, inserts, revised_one}
use poolstatis.Decisions.Revisions.{step-Change}
use poolstatis.Decisions.Invariant.{IsNamed, IsBacked, IsReviewed}
use poolstatis.Decisions.Runs.{step-IsReviewed, insert-IsReviewed, fresh_ids}
use poolstatis.Releases.Table.{Release, is_some}
use poolstatis.Decisions.Repeats.{
  find_evidence_key-set, find_evidence_key-new, decision_of-append, decision_of-new, Holds,
  revise-Holds, appended,
}

-- The evidence that a key finds, with its decision.
abbrev pub Stored : String → String → String → EvidenceSet → String → Tables → Type 0
Stored project release key e id t =
    (find_evidence_key project release key t.evidence ≡ some e)
    × ((d : Decision) × (d.id ≡ id) × Holds e.id t.decisions d)

Change-Stored :
    (project release key id : String) (e : EvidenceSet) {t t' : Tables}
    → Change t t'
    → All IsNamed t.decisions
    → Stored project release key e id t
    → Stored project release key e id t'
unfolding insert_evaluation insert_evidence write_decision new_decision new_evidence revised
Change-Stored project release key id e (kept u moved) named h = h
Change-Stored project release key id e {t}
      (inserts u f r result key' rationale actor moved grounded free new) named
      (found, (d, name, (h, row))) =
    let (no_evidence, no_decision) = fresh_ids f t free in
    (
      find_evidence_key-set project release key f.evidence_id t.evidence _ e no_evidence found,
      (
        d,
        name,
        (
          decision_of-append e.id f.decision_id t.decisions _ d no_decision h,
          appended t.decisions f.decision_id _ d no_decision row,
        ),
      ),
    )
Change-Stored project release key id e {t}
      (revised_one u command rationale actor p n moved closed there allowed found' ok) named
      (found, (d, name, h)) =
    let (q, same, k) =
      revise-Holds e.id t.decisions p (revised command rationale p) d there (refl, refl) named h in
    (found, (q, same ∙ name, k))

no_decision_of :
    (evidence : Map EvidenceSet) (id : String) (m : Map Decision)
    → get evidence id ≡ none
    → All (IsBacked evidence) m
    → decision_of id m ≡ none
unfolding decision_of
no_decision_of evidence id [] absent h = refl
no_decision_of evidence id ((j, w) ∷ m) absent h = elim (Bool-cases (str_eq w.evidence_id id)) [
  | inl e ↦
      let backed =
        subst (λ (i : String). is_some (get evidence i) ≡ true) ((eq_iff w.evidence_id id).0 e)
          h.0 in
      let backed' = rw absent at backed in absurd (unfold is_some in cc)
  | inr e ↦ rw e (no_decision_of evidence id m absent h.1)
]

-- What a new evaluation stores.
abbrev pub Starts : String → String → Answer (EvidenceSet × (Decision × Bool)) → Type 0
Starts project release (failed u x) = Unit
Starts project release (done u (e, (d, true))) = Unit
Starts project release (done u (e, (d, false))) =
    IsReviewed u × Stored project release e.evidence_key e d.id u

insert-Stored :
    (f : Fresh) (r : Release) (result : Evaluation) (key rationale actor : String) (t : Tables)
    → IsReviewed t
    → find_evidence_key r.project_id r.id key t.evidence ≡ none
    → id_is_taken f t ≡ false
    → Stored r.project_id r.id key (new_evidence f r result key) f.decision_id (
        insert_evaluation f
          (new_evidence f r result key)
          (new_decision f r result rationale actor)
          rationale
          actor
          t)
unfolding insert_evaluation insert_evidence write_decision new_evidence new_decision
    has_evidence_key
insert-Stored f r result key rationale actor t h free new =
    let (no_evidence, no_decision) = fresh_ids f t new in
    let d = new_decision f r result rationale actor in
    (
      find_evidence_key-new r.project_id r.id key f.evidence_id t.evidence _ no_evidence free
          (rw (eq_refl r.project_id, eq_refl r.id, eq_refl key) refl),
      (
        d,
        refl,
        (
          decision_of-new f.decision_id t.decisions d no_decision
              (no_decision_of t.evidence f.evidence_id t.decisions no_evidence h.backed),
          rw (get-set t.decisions f.decision_id f.decision_id d, eq_refl f.decision_id) refl,
        ),
      ),
    )

pub persist-Starts :
    (f : Fresh) (r : Release) (result : Evaluation) (key rationale actor : String) (t : Tables)
    → IsReviewed t
    → Starts r.project_id r.id (persist f r result key rationale actor t)
unfolding persist persist_new persist_existing new_decision new_evidence
persist-Starts f r result key rationale actor t h =
    elim (Option-cases (find_evidence_key r.project_id r.id key t.evidence)) [
      | inl e ↦
          rw (e, persist)
            (if_elim (Starts r.project_id r.id) (id_is_taken f t) (λ _. tt)
              (λ new. (
                insert-IsReviewed t f r result key rationale actor h new,
                insert-Stored f r result key rationale actor t h e new,
              )))
      | inr (q, e) ↦
          rw (e, persist)
            (elim (Option-cases (decision_of q.id t.decisions)) [
              | inl k ↦ rw (k, persist_existing) tt
              | inr (d, k) ↦ rw (k, persist_existing) tt
            ])
    ]

pub run-Stored :
    (s : Surroundings) (cs : List Call) (t : Tables) (project release key id : String)
    (e : EvidenceSet)
    → IsReviewed t
    → Stored project release key e id t
    → Stored project release key e id (run s cs t)
unfolding run
run-Stored s [] t project release key id e h k = k
run-Stored s (c ∷ cs) t project release key id e h k =
    run-Stored s cs (step s c t) project release key id e (step-IsReviewed s c t h)
      (Change-Stored project release key id e (step-Change s c t h.ledger h.keyed) h.named k)

pub Stored-persist :
    (f : Fresh) (r : Release) (result : Evaluation) (key rationale actor : String) (t : Tables)
    (e : EvidenceSet) (id : String)
    → Stored r.project_id r.id key e id t
    → (q : Decision) × (persist f r result key rationale actor t ≡ done t (e, (q, true)))
      × (q.id ≡ id)
      × (get t.decisions id ≡ some q)
unfolding persist persist_existing
Stored-persist f r result key rationale actor t e id (found, (q, name, (h, row))) = (
  q,
  rw (found, persist, h, persist_existing) refl,
  name,
  subst (λ (i : String). get t.decisions i ≡ some q) name row,
)
