-- ===== src/Decisions/Course.antt =====
-- src/services/decisions.ts: what any calls make of a decision.
use poolstatis.Common.{
  ◌≡◌, ◌≢◌, refl, sym, ◌∙◌, ap, subst, inl, inr, true, none, some, String, List, [], ◌∷◌, get, set,
  str_eq, eq_iff, get-set, Bool-cases,
}
use poolstatis.Decisions.Tables.{
  EvidenceSet, Status, proposed, approved, rejected, Decision, Tables, find_evidence,
  write_decision, insert_evidence, insert_evaluation, new_evidence, new_decision,
}
use poolstatis.Decisions.Calls.{
  Surroundings, Call, step, run, Command, approve, reject, edit, refusal, revised, is_approved,
}
use poolstatis.Decisions.Changes.{Change, kept, inserts, revised_one}
use poolstatis.Decisions.Revisions.{step-Change}
use poolstatis.Decisions.Invariant.{IsReviewed}
use poolstatis.Decisions.Runs.{Change-IsReviewed, fresh_ids, found_after}
use poolstatis.Releases.Changes.{some-eq}
use poolstatis.Decisions.Reviews.{
  stays, moves, review_of, conclusive, Reviewed, Moves, Moves-Reviewed, Moves-trans,
}

-- What a change makes of a decision and of its evidence.
abbrev Later : Tables → String → EvidenceSet → Decision → Type 0
Later t id e d =
    (q : Decision) × (get t.decisions id ≡ some q)
    × (Moves e d q)
    × (find_evidence q.project_id q.evidence_id t ≡ some e)

insert-Later :
    (t : Tables) (p : Decision) (n : EvidenceSet) (id : String) (e : EvidenceSet) (d : Decision)
    → get t.evidence n.id ≡ none
    → get t.decisions p.id ≡ none
    → get t.decisions id ≡ some d
    → find_evidence d.project_id d.evidence_id t ≡ some e
    → (get (set t.decisions p.id p) id ≡ some d)
      × (find_evidence d.project_id d.evidence_id (insert_evidence n t) ≡ some e)
insert-Later t p n id e d no_evidence no_decision there found = elim (Bool-cases (str_eq p.id id)) [
  | inl same ↦
      let absent =
        subst (λ (i : String). get t.decisions i ≡ none) ((eq_iff p.id id).0 same) no_decision in
      absurd cc
  | inr other ↦
      (rw (get-set t.decisions p.id id p, other) there, found_after t n _ _ e no_evidence found)
]

Change-Later :
    {t t' : Tables} (id : String) (e : EvidenceSet) (d : Decision)
    → Change t t'
    → get t.decisions id ≡ some d
    → find_evidence d.project_id d.evidence_id t ≡ some e
    → Later t' id e d
unfolding find_evidence
Change-Later id e d (kept u moved) there found = (d, there, stays, found)
Change-Later {t} id e d (inserts u f r result key rationale actor moved grounded free new) there
      found =
    let (no_evidence, no_decision) = fresh_ids f t free in
    unfold insert_evaluation write_decision in
    let (there', found') =
      insert-Later t (new_decision f r result rationale actor) (new_evidence f r result key) id e d
        (unfold new_evidence in no_evidence) (unfold new_decision in no_decision) there found in
    (d, there', stays, found')
Change-Later {t} id e d
      (revised_one u command rationale actor p n moved closed there' allowed found' ok) there
      found =
    elim (Bool-cases (str_eq p.id id)) [
      | inl same ↦
          let at =
            subst (λ (i : String). get t.decisions i ≡ some p) ((eq_iff p.id id).0 same) there' in
          let eq = some-eq (sym at ∙ there) in
          let seen =
            subst (λ (x : Decision). find_evidence x.project_id x.evidence_id t ≡ some e) (sym eq)
              found in
          let n_is_e = some-eq (sym found' ∙ seen) in
          unfold write_decision revised in
          (
            revised command rationale p,
            rw (get-set t.decisions p.id id (revised command rationale p), same) refl,
            subst (λ (x : Decision). Moves e x (revised command rationale p)) eq
                (subst (λ (x : EvidenceSet). Moves x p (revised command rationale p)) n_is_e
                  (moves command rationale allowed ok stays)),
            seen,
          )
      | inr other ↦
          unfold write_decision revised in
          (
            d,
            rw (get-set t.decisions p.id id (revised command rationale p), other) there,
            stays,
            found,
          )
    ]

pub run-Later :
    (s : Surroundings) (cs : List Call) (t : Tables) (id : String) (e : EvidenceSet) (d : Decision)
    → IsReviewed t
    → get t.decisions id ≡ some d
    → find_evidence d.project_id d.evidence_id t ≡ some e
    → (q : Decision) × (get (run s cs t).decisions id ≡ some q)
      × (Moves e d q)
      × (find_evidence q.project_id q.evidence_id (run s cs t) ≡ some e)
unfolding run
run-Later s [] t id e d h there found = (d, there, stays, found)
run-Later s (c ∷ cs) t id e d h there found =
    let change = step-Change s c t h.ledger h.keyed in
    let (p, there', first, found') = Change-Later id e d change there found in
    let (q, there'', rest, found'') =
      run-Later s cs (step s c t) id e p (Change-IsReviewed change h) there' found' in
    (q, there'', Moves-trans first rest, found'')

-- After any calls a decision shows a state of the review that the machine reaches from the one it showed:
-- pending, refused or accepted with an outcome, where a direction is accepted only on evidence that is
-- ready and trusted; and its evidence is as it was.
pub run-Reviewed :
    (s : Surroundings) (cs : List Call) (t : Tables) (id : String) (e : EvidenceSet) (d : Decision)
    → IsReviewed t
    → get t.decisions id ≡ some d
    → find_evidence d.project_id d.evidence_id t ≡ some e
    → (q : Decision) × (get (run s cs t).decisions id ≡ some q)
      × (Reviewed (conclusive e) (review_of d) (review_of q))
      × (find_evidence q.project_id q.evidence_id (run s cs t) ≡ some e)
run-Reviewed s cs t id e d h there found =
    let (q, there', reach, found') = run-Later s cs t id e d h there found in
    (q, there', Moves-Reviewed reach, found')

closed : (command : Command) (s : Status) → is_approved s ≡ true → refusal command s ≢ none
unfolding refusal
closed approve approved h k = cc
closed reject approved h k = cc
closed (edit o) approved h k = cc
closed command proposed h k = cc
closed command rejected h k = cc

Moves-final : {e : EvidenceSet} {d q : Decision} → is_approved d.status ≡ true → Moves e d q → q ≡ d
unfolding refusal
Moves-final h stays = refl
Moves-final {d = d} h (moves command rationale k ok rest) = absurd (closed command d.status h k)

-- An approved decision is final: no calls change anything of its row or of its evidence.
pub run-approved :
    (s : Surroundings) (cs : List Call) (t : Tables) (id : String) (d : Decision)
    → IsReviewed t
    → get t.decisions id ≡ some d
    → is_approved d.status ≡ true
    → (get (run s cs t).decisions id ≡ some d)
      × (find_evidence d.project_id d.evidence_id (run s cs t)
          ≡ find_evidence d.project_id d.evidence_id t)
run-approved s cs t id d h there final =
    let (e, found, rests) = h.supported id d there in
    let (q, there', reach, found') = run-Later s cs t id e d h there found in
    let same = Moves-final final reach in
    (
      there' ∙ ap some same,
      subst (λ (x : Decision). find_evidence x.project_id x.evidence_id (run s cs t) ≡ some e) same
            found'
          ∙ sym found,
    )
