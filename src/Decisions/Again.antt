-- ===== src/Decisions/Again.antt =====
-- src/services/evaluation.ts: a later evaluation of a release that comes to the same evidence.
use poolstatis.Common.{
  ◌≡◌, refl, subst, ap, ◌∙◌, inl, inr, true, false, not, ◌&&◌, ◌||◌, none, some, String, List, get,
  Option-cases, if_elim,
}
use poolstatis.Decisions.Verdict.{Evaluation, evaluate}
use poolstatis.Decisions.Tables.{EvidenceSet, Decision, Tables, done, Fresh, persist}
use poolstatis.Decisions.Calls.{
  Surroundings, Call, run, observe, persist_after, evaluate_at, evaluate_found, observed,
  evaluate_deployed, evaluate_release,
}
use poolstatis.Decisions.Invariant.{IsReviewed}
use poolstatis.Decisions.Kept.{other_releases}
use poolstatis.Decisions.Runs.{run-IsReviewed}
use poolstatis.Decisions.Stored.{Starts, persist-Starts, run-Stored, Stored-persist}
use poolstatis.Releases.Changes.{Change-IsLedger, transition-Change, find_release-get}
use poolstatis.Releases.Invariant.{IsLedger}
use poolstatis.Releases.Table.{Release, World, deployed, observing, status_eq, find_release}
use poolstatis.Releases.Table as Rows

observed-Starts :
    (f : Fresh) (r : Release) (result : Evaluation) (key rationale actor : String) (t : Tables)
    (a : Rows.Answer Release)
    → IsReviewed t
    → IsLedger (Rows.committed t.releases a)
    → Starts r.project_id r.id (persist_after (observed t a) f r result key rationale actor)
unfolding observed persist_after Rows.committed
observed-Starts f r result key rationale actor t (Rows.failed e) h ledger = tt
observed-Starts f r result key rationale actor t (Rows.done u q) h ledger =
    persist-Starts f r result key rationale actor (record t { releases = u })
      (other_releases t u ledger h)

after-Starts :
    (s : Surroundings) (w : World) (project actor : String) (f : Fresh) (r : Release)
    (result : Evaluation) (key rationale : String) (t : Tables)
    → IsReviewed t
    → Starts r.project_id r.id (
        persist_after
          (observe s w project actor f.now result.ready r t)
          f
          r
          result
          key
          rationale
          actor)
unfolding observe persist_after
after-Starts s w project actor f r result key rationale t h =
    if_elim (λ a. Starts r.project_id r.id (persist_after a f r result key rationale actor))
      (result.ready && status_eq r.status deployed)
      (λ _. observed-Starts f r result key rationale actor t _ h (
        Change-IsLedger
          (transition-Change s.iso w project r.id observing none actor (s.spell f.now) t.releases
            h.ledger)
          h.ledger))
      (λ _. persist-Starts f r result key rationale actor t h)

evaluate_found-Starts :
    (s : Surroundings) (w : World) (project actor : String) (f : Fresh) (t : Tables) (r : Release)
    → IsReviewed t
    → Starts r.project_id r.id (evaluate_found s w project actor f t r)
unfolding evaluate_found evaluate_deployed evaluate_at
evaluate_found-Starts s w project actor f t r h =
    if_elim (Starts r.project_id r.id)
      (not (status_eq r.status deployed || status_eq r.status observing)) (λ _. tt)
      (λ _. elim (Option-cases r.deployed_at) [
        | inl e ↦ rw (e, evaluate_deployed) tt
        | inr (at, e) ↦ rw (e, evaluate_deployed) (after-Starts s w project actor f r _ _ _ t h)
      ])

evaluate_release-Starts :
    (s : Surroundings) (w : World) (project id actor : String) (f : Fresh) (t : Tables)
    → IsReviewed t
    → Starts project id (evaluate_release s w project id actor f t)
unfolding evaluate_release
evaluate_release-Starts s w project id actor f t h =
    elim (Option-cases (find_release project id t.releases)) [
      | inl e ↦ rw (e, evaluate_release) tt
      | inr (r, e) ↦
          let (there, own, p) = find_release-get project id t.releases h.ledger e in
          let i = h.ledger.keyed id there in
          rw (e, evaluate_release)
            (subst (λ x. Starts x id (evaluate_found s w project actor f t r)) p
              (subst (λ x. Starts r.project_id x (evaluate_found s w project actor f t r)) i
                (evaluate_found-Starts s w project actor f t r h)))
    ]

-- Where nothing is to begin, what is found is stored.
idle-persist :
    (s : Surroundings) (w : World) (project actor : String) (f : Fresh) (r : Release)
    (result : Evaluation) (t : Tables)
    → (result.ready && status_eq r.status deployed) ≡ false
    → persist_after
        (observe s w project actor f.now result.ready r t)
        f
        r
        result
        (s.hash r result)
        (s.rationale result)
        actor
      ≡ persist f r result (s.hash r result) (s.rationale result) actor t
unfolding observe persist_after
idle-persist s w project actor f r result t idle = rw idle refl

evaluate_found-deployed :
    (s : Surroundings) (w : World) (project actor : String) (f : Fresh) (t : Tables) (r : Release)
    → (status_eq r.status deployed || status_eq r.status observing) ≡ true
    → evaluate_found s w project actor f t r
      ≡ evaluate_deployed s w project actor f t r r.deployed_at
unfolding evaluate_found
evaluate_found-deployed s w project actor f t r active = rw active refl

evaluate_release-found :
    (s : Surroundings) (w : World) (project id actor : String) (f : Fresh) (t : Tables)
    (r : Release)
    → find_release project id t.releases ≡ some r
    → evaluate_release s w project id actor f t ≡ evaluate_found s w project actor f t r
unfolding evaluate_release
evaluate_release-found s w project id actor f t r found = rw (found, evaluate_release) refl

evaluate_release-persist :
    (s : Surroundings) (w : World) (project id actor : String) (f : Fresh) (t : Tables)
    (r : Release) (at : String) (result : Evaluation)
    → find_release project id t.releases ≡ some r
    → (status_eq r.status deployed || status_eq r.status observing) ≡ true
    → r.deployed_at ≡ some at
    → evaluate s.numbers
        (s.query project r)
        (w.registry project)
        r.contract_snapshot
        (s.millis at)
        f.now
      ≡ result
    → (result.ready && status_eq r.status deployed) ≡ false
    → evaluate_release s w project id actor f t
      ≡ persist f r result (s.hash r result) (s.rationale result) actor t
unfolding evaluate_deployed evaluate_at
evaluate_release-persist s w project id actor f t r at result found active time same idle =
    evaluate_release-found s w project id actor f t r found
    ∙ evaluate_found-deployed s w project actor f t r active
    ∙ ap (evaluate_deployed s w project actor f t r) time
    ∙ ap
        (λ (x : Evaluation).
          persist_after (observe s w project actor f.now x.ready r t) f r x (s.hash r x)
            (s.rationale x) actor)
        same
    ∙ idle-persist s w project actor f r result t idle

-- On reviewed tables, evidence that an evaluation of a release stored is what a later evaluation of that release
-- returns, after whatever calls in between, with its decision as it is by then, and nothing is written: if the
-- release may still be evaluated (it is deployed or observing, with its time), if what the later
-- evaluation finds has the key of the evidence, and if it is not ready evidence of a release that is only
-- deployed, which would begin its observation.
pub evaluate_release-repeats :
    (s : Surroundings) (w w' : World) (project id actor actor' : String) (f f' : Fresh)
    (cs : List Call) (t u : Tables) (e : EvidenceSet) (d : Decision) (r : Release) (at : String)
    (result : Evaluation)
    → IsReviewed t
    → evaluate_release s w project id actor f t ≡ done u (e, (d, false))
    → find_release project id (run s cs u).releases ≡ some r
    → (status_eq r.status deployed || status_eq r.status observing) ≡ true
    → r.deployed_at ≡ some at
    → evaluate s.numbers
        (s.query project r)
        (w'.registry project)
        r.contract_snapshot
        (s.millis at)
        f'.now
      ≡ result
    → s.hash r result ≡ e.evidence_key
    → (result.ready && status_eq r.status deployed) ≡ false
    → (q : Decision) × (evaluate_release s w' project id actor' f' (run s cs u)
        ≡ done (run s cs u) (e, (q, true)))
      × (q.id ≡ d.id)
      × (get (run s cs u).decisions d.id ≡ some q)
evaluate_release-repeats s w w' project id actor actor' f f' cs t u e d r at result h first found
      active time same key idle =
    let (reviewed, stored) =
      subst (Starts project id) first (evaluate_release-Starts s w project id actor f t h) in
    let later = run-Stored s cs u project id e.evidence_key d.id e reviewed stored in
    let ledger = (run-IsReviewed s cs u reviewed).ledger in
    let (there, own, p) = find_release-get project id (run s cs u).releases ledger found in
    let i = ledger.keyed id there in
    rw
      (evaluate_release-persist s w' project id actor' f' (run s cs u) r at result found active time
        same idle)
      (Stored-persist f' r result (s.hash r result) (s.rationale result) actor' (run s cs u) e d.id
        (rw (key, p, i) later))
