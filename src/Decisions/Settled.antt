-- ===== src/Decisions/Settled.antt =====
-- src/services/evaluation.ts, src/services/decisions.ts and src/services/releases.ts together: what a decision
-- and its evidence say of the status of their release.
use poolstatis.Common.{
  ◌≡◌, refl, sym, ◌∙◌, Bool, true, false, not, ◌&&◌, ◌||◌, none, some, String, List, [], ◌∷◌, get,
  set,
}
use poolstatis.Decisions.Verdict.{Evaluation}
use poolstatis.Decisions.Tables.{
  EvidenceSet, proposed, Decision, Tables, find_evidence, write_decision, Fresh, insert_evidence,
  insert_evaluation, new_evidence, new_decision,
}
use poolstatis.Decisions.Calls.{
  Surroundings, Call, step, run, Command, approve, reject, edit, command_status, revised,
  is_approved,
}
use poolstatis.Decisions.Changes.{Change, kept, inserts, revised_one, is_past, IsGrounded, IsClosed}
use poolstatis.Decisions.Revisions.{step-Change}
use poolstatis.Decisions.Invariant.{IsReviewed, set-rows}
use poolstatis.Decisions.Runs.{step-IsReviewed, fresh_ids, found_after, found_new}
use poolstatis.Releases.Changes as Releases
use poolstatis.Releases.Changes.{some-eq}
use poolstatis.Releases.Ledger.{Reaches, here, move}
use poolstatis.Releases.Lifecycle.{is_final, no_way_out, Change-Later}
use poolstatis.Releases.Table.{
  Status as ReleaseStatus, planned, deployed, observing, decided, cancelled, Release, status_eq,
}
use poolstatis.Releases.Table as Rows
use poolstatis.Releases.Transition.{allowed_transition}

-- Ready evidence is past the deployment of its release, and an approved decision on it past the observation.
unfoldable pub is_settled : Bool → Bool → ReleaseStatus → Bool
unfolding is_past is_final
is_settled ready final s = not ready || (is_past s && (not final || is_final s))

abbrev Settles : Rows.Tables → Decision → EvidenceSet → Type 0
Settles u d e =
    (r : Release) × (get u.releases d.release_id ≡ some r)
    × ((r.project_id ≡ d.project_id)
        × (is_settled e.result.ready (is_approved d.status) r.status ≡ true))

-- Each decision with its evidence and its release.
abbrev pub IsSettled : Tables → Type 0
IsSettled t =
    (id : String) (d : Decision)
    → get t.decisions id ≡ some d
    → (e : EvidenceSet) × (find_evidence d.project_id d.evidence_id t ≡ some e)
      × Settles t.releases d e

is_settled-moves :
    (ready final : Bool) (s q : ReleaseStatus)
    → allowed_transition s q ≡ true
    → is_settled ready final s ≡ true
    → is_settled ready final q ≡ true
unfolding is_settled is_past is_final allowed_transition
is_settled-moves false final s q h k = refl
is_settled-moves true final planned q h k = absurd cc
is_settled-moves true final deployed q h k = absurd cc
is_settled-moves true true observing q h k = absurd cc
is_settled-moves true false observing planned h k = absurd cc
is_settled-moves true false observing deployed h k = absurd cc
is_settled-moves true false observing observing h k = absurd cc
is_settled-moves true false observing decided h k = refl
is_settled-moves true false observing cancelled h k = refl
is_settled-moves true final decided q h k = absurd (let out = no_way_out decided q refl in cc)
is_settled-moves true final cancelled q h k = absurd (let out = no_way_out cancelled q refl in cc)

Reaches-is_settled :
    (ready final : Bool) {r q : Release}
    → Reaches r q
    → is_settled ready final r.status ≡ true
    → (q.project_id ≡ r.project_id) × (is_settled ready final q.status ≡ true)
Reaches-is_settled ready final here h = (refl, h)
Reaches-is_settled ready final {r} (move to at allowed rest) h =
    Reaches-is_settled ready final rest (is_settled-moves ready final r.status to allowed h)

moved-Settles :
    {u v : Rows.Tables} (d : Decision) (e : EvidenceSet)
    → Releases.Change u v
    → Settles u d e
    → Settles v d e
moved-Settles d e change (r, there, (p, h)) =
    let (q, there', reach) = Change-Later d.release_id change there in
    let (same, h') = Reaches-is_settled e.result.ready (is_approved d.status) reach h in
    (q, there', (same ∙ p, h'))

moved-IsSettled :
    (t : Tables) (u : Rows.Tables)
    → Releases.Change t.releases u
    → IsSettled t
    → IsSettled (record t { releases = u })
unfolding find_evidence
moved-IsSettled t u change h id d there =
    let (e, found, s) = h id d there in (e, found, moved-Settles d e change s)

is_settled-new :
    (ready : Bool) (s : ReleaseStatus)
    → (not ready || is_past s) ≡ true
    → is_settled ready false s ≡ true
unfolding is_settled is_past
is_settled-new false s h = refl
is_settled-new true planned h = absurd cc
is_settled-new true deployed h = absurd cc
is_settled-new true observing h = refl
is_settled-new true decided h = refl
is_settled-new true cancelled h = refl

is_settled-rejected :
    (ready final : Bool) (s : ReleaseStatus)
    → is_settled ready final s ≡ true
    → is_settled ready false s ≡ true
unfolding is_settled is_past
is_settled-rejected false final s h = refl
is_settled-rejected true final planned h = absurd cc
is_settled-rejected true final deployed h = absurd cc
is_settled-rejected true final observing h = refl
is_settled-rejected true final decided h = refl
is_settled-rejected true final cancelled h = refl

is_settled-approved :
    (ready final : Bool) (s : ReleaseStatus)
    → is_settled ready final s ≡ true
    → status_eq s observing ≡ false
    → is_settled ready true s ≡ true
unfolding is_settled is_past is_final
is_settled-approved false final s h k = refl
is_settled-approved true final planned h k = absurd cc
is_settled-approved true final deployed h k = absurd cc
is_settled-approved true final observing h k = absurd cc
is_settled-approved true final decided h k = refl
is_settled-approved true final cancelled h k = refl

insert-IsSettled :
    (t : Tables) (u : Rows.Tables) (f : Fresh) (r : Release) (result : Evaluation) (e : EvidenceSet)
    (d : Decision)
    → IsGrounded r result u
    → e.result ≡ result
    → get t.evidence e.id ≡ none
    → (d.status ≡ proposed) × (d.release_id ≡ r.id) × (d.project_id ≡ r.project_id)
    → find_evidence d.project_id d.evidence_id (insert_evidence e t) ≡ some e
    → IsSettled (record t { releases = u })
    → (id : String) (x : Decision) → get (set t.decisions d.id d) id ≡ some x
    → (q : EvidenceSet) × (find_evidence x.project_id x.evidence_id (insert_evidence e t) ≡ some q)
      × Settles u x q
unfolding find_evidence
insert-IsSettled t u f r result e d (q, there, (p, past)) same absent (status, release, project)
      found h =
    set-rows
      (λ id x.
        (q : EvidenceSet) × (find_evidence x.project_id x.evidence_id (insert_evidence e t)
          ≡ some q)
        × Settles u x q)
      t.decisions d.id d
      (
        e,
        found,
        (
          q,
          rw release there,
          (p ∙ sym project, rw (same, status) (is_settled-new result.ready q.status past)),
        ),
      )
      (λ id x there'.
        let (n, found', s) = h id x there' in
        (n, found_after t e x.project_id x.evidence_id n absent found', s))

revised-Settles :
    (command : Command) (rationale : String) (d : Decision) (e : EvidenceSet) (u : Rows.Tables)
    → IsClosed command d u
    → Settles u d e
    → Settles u (revised command rationale d) e
unfolding revised command_status
revised-Settles reject rationale d e u closed (r, there, (p, h)) =
    (r, there, (p, is_settled-rejected e.result.ready _ r.status h))
revised-Settles approve rationale d e u closed (r, there, (p, h)) =
    (r, there, (p, is_settled-approved e.result.ready _ r.status h (closed r there p)))
revised-Settles (edit o) rationale d e u closed (r, there, (p, h)) =
    (r, there, (p, is_settled-approved e.result.ready _ r.status h (closed r there p)))

revise-IsSettled :
    (t : Tables) (u : Rows.Tables) (command : Command) (rationale : String) (d : Decision)
    → IsClosed command d u
    → get t.decisions d.id ≡ some d
    → IsSettled (record t { releases = u })
    → (id : String) (x : Decision)
    → get (set t.decisions d.id (revised command rationale d)) id ≡ some x
    → (e : EvidenceSet) × (find_evidence x.project_id x.evidence_id t ≡ some e) × Settles u x e
unfolding find_evidence
revise-IsSettled t u command rationale d closed there h =
    let (e, found, s) = h d.id d there in
    set-rows
      (λ id x.
        (e : EvidenceSet) × (find_evidence x.project_id x.evidence_id t ≡ some e) × Settles u x e)
      t.decisions d.id (revised command rationale d)
      (e, unfold revised in found, revised-Settles command rationale d e u closed s) h

Change-IsSettled : {t t' : Tables} → Change t t' → IsSettled t → IsSettled t'
unfolding insert_evaluation write_decision insert_evidence new_evidence new_decision find_evidence
    revised
Change-IsSettled {t} (kept u moved) h = moved-IsSettled t u moved h
Change-IsSettled {t} (inserts u f r result key rationale actor moved grounded free new) h =
    insert-IsSettled t u f r result (new_evidence f r result key)
      (new_decision f r result rationale actor) grounded refl (fresh_ids f t free).0
      (refl, refl, refl) (found_new t (new_evidence f r result key)) (moved-IsSettled t u moved h)
Change-IsSettled {t} (revised_one u command rationale actor d e moved closed there allowed found ok)
      h =
    revise-IsSettled t u command rationale d closed there (moved-IsSettled t u moved h)

-- After any evaluations, reviews and calls on releases, a decision that rests on ready evidence has a
-- release of its project that is observed, decided or cancelled, and decided or cancelled once the decision is
-- approved.
pub run-IsSettled :
    (s : Surroundings) (cs : List Call) (t : Tables)
    → IsReviewed t
    → IsSettled t
    → IsSettled (run s cs t)
unfolding run
run-IsSettled s [] t h k = k
run-IsSettled s (c ∷ cs) t h k =
    run-IsSettled s cs (step s c t) (step-IsReviewed s c t h)
      (Change-IsSettled (step-Change s c t h.ledger h.keyed) k)
