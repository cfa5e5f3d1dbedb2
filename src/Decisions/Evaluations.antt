-- ===== src/Decisions/Evaluations.antt =====
-- src/services/evaluation.ts: an evaluation leaves the rows as they are or inserts evidence with its decision.
use poolstatis.Common.{
  ◌≡◌, refl, inl, inr, Bool, true, false, not, ◌&&◌, ◌||◌, Option, none, some, String, get, eq_iff,
  eq_refl, get-set, if◌then◌else◌, Bool-cases, Option-cases, if_elim,
}
use poolstatis.Decisions.Verdict.{Evaluation}
use poolstatis.Decisions.Tables.{EvidenceSet, Decision, Tables, Answer, committed, Fresh}
use poolstatis.Decisions.Calls.{
  Surroundings, observe, persist_after, evaluate_at, evaluate_found, observed, evaluate_deployed,
  evaluate_release,
}
use poolstatis.Releases.Changes.{
  some-eq, transition-Change, finalize_observed-Change, find_release-get,
}
use poolstatis.Releases.Changes as Releases
use poolstatis.Releases.Invariant.{IsLedger}
use poolstatis.Releases.Table.{
  Release, World, deployed, observing, status_eq, find_release, in_project,
}
use poolstatis.Releases.Table as Rows
use poolstatis.Releases.Transition.{
  transition, transition_found, update_release, moved, allowed_transition, contract_is_valid,
}
use poolstatis.Decisions.Changes.{is_past, IsGrounded, Change, unchanged, persist-Change}

-- A transition to `observing` that is done leaves the release past its deployment.
abbrev HasBegun : Release → Rows.Answer Release → Type 0
HasBegun r (Rows.failed e) = Unit
HasBegun r (Rows.done u _) = (result : Evaluation) → IsGrounded r result u

always : (b : Bool) → (b || true) ≡ true
always true = refl
always false = refl

begun :
    (r : Release) (actor : String) (u : Rows.Tables) (at : Option String) (b : Bool)
    → HasBegun r (
        if b
        then Rows.done
            (Rows.write
              (record r { status = observing; deployed_at = at })
              Rows.transitioned
              (some r.status)
              actor
              u)
            (record r { status = observing; deployed_at = at })
        else Rows.failed Rows.constraint_violation)
unfolding Rows.write is_past
begun r actor u at true = λ result. (
  record r { status = observing; deployed_at = at },
  rw (get-set u.releases r.id r.id _, eq_refl r.id) refl,
  (refl, always _),
)
begun r actor u at false = tt

pub find_release-some :
    (project id : String) (u : Rows.Tables) (r : Release)
    → get u.releases id ≡ some r
    → r.project_id ≡ project
    → find_release project id u ≡ some r
unfolding find_release in_project
find_release-some project id u r there p = rw (there, (eq_iff r.project_id project).1 p) refl

transition_found-HasBegun :
    (iso : String → String) (w : World) (project actor now : String) (u : Rows.Tables) (r : Release)
    → HasBegun r (transition_found iso w project observing none actor now u r)
unfolding transition_found update_release moved
transition_found-HasBegun iso w project actor now u r =
    if_elim (HasBegun r) (not (allowed_transition r.status observing)) (λ _. tt)
      (λ _.
        if_elim (HasBegun r)
          (status_eq observing observing
            && not (contract_is_valid (w.registry project) r.contract_snapshot))
          (λ _. tt) (λ _. begun r actor u _ _))

transition-HasBegun :
    (iso : String → String) (w : World) (project actor now : String) (u : Rows.Tables) (r : Release)
    → get u.releases r.id ≡ some r
    → r.project_id ≡ project
    → HasBegun r (transition iso w project r.id observing none actor now u)
unfolding transition
transition-HasBegun iso w project actor now u r there p =
    rw (find_release-some project r.id u r there p, transition)
      (transition_found-HasBegun iso w project actor now u r)

observed-Change :
    (f : Fresh) (r : Release) (result : Evaluation) (key rationale actor : String) (t : Tables)
    (a : Rows.Answer Release)
    → Releases.Change t.releases (Rows.committed t.releases a)
    → HasBegun r a
    → Change t (committed (persist_after (observed t a) f r result key rationale actor))
unfolding observed persist_after Rows.committed
observed-Change f r result key rationale actor t (Rows.failed e) h k =
    unfold committed in unchanged t
observed-Change f r result key rationale actor t (Rows.done u q) h k =
    persist-Change f r result key rationale actor t u h (k result)

past_observing :
    (ready : Bool) (s : Rows.Status)
    → (status_eq s deployed || status_eq s observing) ≡ true
    → (ready && status_eq s deployed) ≡ false
    → (not ready || is_past s) ≡ true
unfolding is_past
past_observing false s h k = refl
past_observing true observing h k = refl
past_observing true deployed h k = absurd cc
past_observing true Rows.planned h k = absurd cc
past_observing true Rows.decided h k = absurd cc
past_observing true Rows.cancelled h k = absurd cc

after-Change :
    (s : Surroundings) (w : World) (project actor : String) (f : Fresh) (r : Release)
    (result : Evaluation) (key rationale : String) (t : Tables)
    → IsLedger t.releases
    → (get t.releases.releases r.id ≡ some r) × (r.project_id ≡ project)
    → (status_eq r.status deployed || status_eq r.status observing) ≡ true
    → Change t (
        committed (
          persist_after
            (observe s w project actor f.now result.ready r t)
            f
            r
            result
            key
            rationale
            actor))
unfolding observe persist_after
after-Change s w project actor f r result key rationale t h (there, p) active =
    elim (Bool-cases (result.ready && status_eq r.status deployed)) [
      | inr e ↦
          rw (e, observe)
            (persist-Change f r result key rationale actor t t.releases Releases.kept
              (r, there, (refl, past_observing result.ready r.status active e)))
      | inl e ↦
          rw (e, observe)
            (observed-Change f r result key rationale actor t _
              (transition-Change s.iso w project r.id observing none actor (s.spell f.now)
                t.releases h)
              (transition-HasBegun s.iso w project actor (s.spell f.now) t.releases r there p))
    ]

deployed-Change :
    (s : Surroundings) (w : World) (project actor : String) (f : Fresh) (t : Tables) (r : Release)
    (at : Option String)
    → IsLedger t.releases
    → (get t.releases.releases r.id ≡ some r) × (r.project_id ≡ project)
    → (status_eq r.status deployed || status_eq r.status observing) ≡ true
    → Change t (committed (evaluate_deployed s w project actor f t r at))
unfolding evaluate_deployed evaluate_at
deployed-Change s w project actor f t r none h there active = unfold committed in unchanged t
deployed-Change s w project actor f t r (some at) h there active =
    after-Change s w project actor f r _ _ _ t h there active

negated : (b : Bool) → not b ≡ false → b ≡ true
negated true h = refl
negated false h = absurd cc

pub evaluate_release-Change :
    (s : Surroundings) (w : World) (project id actor : String) (f : Fresh) (t : Tables)
    → IsLedger t.releases
    → Change t (committed (evaluate_release s w project id actor f t))
unfolding evaluate_release evaluate_found
evaluate_release-Change s w project id actor f t h =
    elim (Option-cases (find_release project id t.releases)) [
      | inl e ↦ rw (e, evaluate_release) (unfold committed in unchanged t)
      | inr (r, e) ↦
          rw (e, evaluate_release)
            (if_elim (λ (a : Answer (EvidenceSet × (Decision × Bool))). Change t (committed a))
              (not (status_eq r.status deployed || status_eq r.status observing))
              (λ _. unfold committed in unchanged t)
              (λ active.
                let (_, there, p) = find_release-get project id t.releases h e in
                deployed-Change s w project actor f t r r.deployed_at h (there, p)
                  (negated _ active)))
    ]
