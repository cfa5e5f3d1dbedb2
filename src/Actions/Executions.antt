-- ===== src/Actions/Executions.antt =====
-- src/services/actions.ts: the calls keep the approvals.
use poolstatis.Common.{
  ℕ, zero, suc, ◌≡◌, refl, sym, ap, subst, ◌∙◌, inl, inr, Bool, true, false, not, Option, none,
  some, String, List, [], ◌∷◌, get, get-set, str_eq, eq_refl, Option-cases, if_elim, All, All-snoc,
}
use poolstatis.Actions.Approved.{
  has_approval, is_some, HasApproved, IsApproved, some-eq, write-IsApproved,
}
use poolstatis.Actions.Table.{
  Status, prepared, approved, executed, rejected, failed, Payload, Action, was_prepared,
  was_approved, was_rejected, Tables, Answer, committed, write, find_key, new_action, insert,
  prepare, is_executed, is_approvable, needs_integration, approve_row, start_execution,
  approve_found, approve, is_prepared, reject_found, reject, is_failed, retry_found, retry, Effect,
  performed, broke, executed_row, event_of, finish, pick, Call, prepares, approves, rejects,
  retries, finishes, finish_at, step, run,
}

insert-IsApproved :
    (a : Action) (actor : String) (t : Tables)
    → a.status ≡ prepared
    → a.approved_by ≡ none
    → IsApproved t
    → IsApproved (committed t (insert a actor t))
unfolding insert committed
insert-IsApproved a actor t s n h = elim (Option-cases (get t.actions a.id)) [
  | inl e ↦
      rw (e, insert)
        (write-IsApproved a was_prepared actor t (unfold is_some in (rw (s, n) refl))
          (λ r k _. let no = sym e ∙ k in absurd cc) h)
  | inr (_, e) ↦ rw (e, insert) h
]

prepare-IsApproved :
    (fingerprint : Payload → String) (id : String) (p : Payload) (actor : String) (t : Tables)
    → IsApproved t
    → IsApproved (committed t (prepare fingerprint id p actor t))
unfolding prepare new_action committed
prepare-IsApproved fingerprint id p actor t h =
    elim (Option-cases (find_key p.idempotency_key t.actions)) [
      | inl e ↦
          rw (e, prepare)
            (insert-IsApproved (new_action fingerprint id p actor) actor t refl refl h)
      | inr (a, e) ↦
          rw (e, prepare)
            (if_elim (λ (r : Answer). IsApproved (committed t r))
              (str_eq a.confirmation_fingerprint (fingerprint p)) (λ _. h) (λ _. h))
    ]

start_execution-IsApproved :
    (a : Action) (actor : String) (t : Tables)
    → HasApproved t.actions (a, actor)
    → IsApproved t
    → IsApproved (start_execution a actor t)
unfolding start_execution
start_execution-IsApproved a actor t p h = record {
  honest = h.honest;
  running = All-snoc (HasApproved t.actions) t.running (a, actor) h.running p;
}

approve_row-IsApproved :
    (a : Action) (actor : String) (t : Tables)
    → IsApproved t
    → IsApproved (
        start_execution
          (approve_row a actor)
          actor
          (write (approve_row a actor) was_approved actor t))
approve_row-IsApproved a actor t h =
    start_execution-IsApproved (approve_row a actor) actor
      (write (approve_row a actor) was_approved actor t)
      (
        approve_row a actor,
        (
          unfold write in
              (rw (get-set t.actions a.id a.id (approve_row a actor), eq_refl a.id) refl),
          refl,
        ),
      )
      (write-IsApproved (approve_row a actor) was_approved actor t (unfold is_some in refl)
        (λ _ _ _. refl) h)

approve_found-IsApproved :
    (decision_approved : String → Bool) (given actor : String) (t : Tables) (a : Action)
    → IsApproved t
    → IsApproved (committed t (approve_found decision_approved given actor t a))
unfolding approve_found committed
approve_found-IsApproved decision_approved given actor t a h =
    if_elim (λ (r : Answer). IsApproved (committed t r))
      (not (str_eq a.confirmation_fingerprint given)) (λ _. h)
      (λ _.
        if_elim (λ (r : Answer). IsApproved (committed t r)) (is_executed a.status) (λ _. h)
          (λ _.
            if_elim (λ (r : Answer). IsApproved (committed t r)) (not (is_approvable a.status))
              (λ _. h)
              (λ _.
                if_elim (λ (r : Answer). IsApproved (committed t r))
                  (needs_integration a.frozen.action_type) (λ _. h)
                  (λ _.
                    if_elim (λ (r : Answer). IsApproved (committed t r))
                      (not (decision_approved a.frozen.decision_id)) (λ _. h)
                      (λ _. approve_row-IsApproved a actor t h)))))

approve-IsApproved :
    (decision_approved : String → Bool) (id given actor : String) (t : Tables)
    → IsApproved t
    → IsApproved (committed t (approve decision_approved id given actor t))
unfolding approve committed
approve-IsApproved decision_approved id given actor t h = elim (Option-cases (get t.actions id)) [
  | inl e ↦ rw (e, approve) h
  | inr (a, e) ↦ rw (e, approve) (approve_found-IsApproved decision_approved given actor t a h)
]

prepared_only : (s : Status) → is_prepared s ≡ true → has_approval s ≡ false
prepared_only prepared h = refl
prepared_only approved h = absurd cc
prepared_only executed h = absurd cc
prepared_only rejected h = absurd cc
prepared_only failed h = absurd cc

-- The row that a call finds stands under its own id.
pub own-get :
    (t : Tables) (id : String) (a : Action)
    → IsApproved t
    → get t.actions id ≡ some a
    → get t.actions a.id ≡ some a
own-get t id a h e = subst (λ (i : String). get t.actions i ≡ some a) (sym (h.honest id a e).0) e

rejected-IsApproved :
    (rationale actor : String) (t : Tables) (a : Action)
    → get t.actions a.id ≡ some a
    → is_prepared a.status ≡ true
    → IsApproved t
    → IsApproved
        (write (record a { status = rejected; result = some rationale }) was_rejected actor t)
rejected-IsApproved rationale actor t a e p h =
    let not_approved = prepared_only a.status p in
    write-IsApproved (record a { status = rejected; result = some rationale }) was_rejected actor t
      ((h.honest a.id a e).1 ∙ not_approved)
      (λ r k q.
        let same = some-eq (sym e ∙ k) in
        sym (subst (λ (x : Action). has_approval x.status ≡ false) same not_approved) ∙ q)
      h

reject-IsApproved :
    (id rationale actor : String) (t : Tables)
    → IsApproved t
    → IsApproved (committed t (reject id rationale actor t))
unfolding reject reject_found committed
reject-IsApproved id rationale actor t h = elim (Option-cases (get t.actions id)) [
  | inl e ↦ rw (e, reject) h
  | inr (a, e) ↦
      rw (e, reject)
        (if_elim (λ (r : Answer). IsApproved (committed t r)) (is_prepared a.status)
          (λ p. rejected-IsApproved rationale actor t a (own-get t id a h e) p h) (λ _. h))
]

failed_only : (s : Status) → is_failed s ≡ true → has_approval s ≡ true
failed_only failed h = refl
failed_only prepared h = absurd cc
failed_only approved h = absurd cc
failed_only executed h = absurd cc
failed_only rejected h = absurd cc

retry-IsApproved :
    (id actor : String) (t : Tables) → IsApproved t → IsApproved (committed t (retry id actor t))
unfolding retry retry_found committed
retry-IsApproved id actor t h = elim (Option-cases (get t.actions id)) [
  | inl e ↦ rw (e, retry) h
  | inr (a, e) ↦
      rw (e, retry)
        (if_elim (λ (r : Answer). IsApproved (committed t r)) (is_failed a.status)
          (λ p.
            start_execution-IsApproved a actor _ (a, (own-get t id a h e, failed_only a.status p))
              (record { honest = h.honest; running = h.running }))
          (λ _. h))
]

effect_approval :
    (effect : Effect) (r : Action) → has_approval (executed_row effect r).status ≡ true
effect_approval (performed result) r = refl
effect_approval (broke code message) r = refl

effect_approver :
    (effect : Effect) (r : Action) → (executed_row effect r).approved_by ≡ r.approved_by
effect_approver (performed result) r = refl
effect_approver (broke code message) r = refl

finish-IsApproved :
    (effect : Effect) (x : Action × String) (t : Tables)
    → HasApproved t.actions x
    → IsApproved t
    → IsApproved (finish effect x t)
unfolding finish
finish-IsApproved effect (a, actor) t (r, (e, p)) h =
    rw (e, finish)
      (write-IsApproved (executed_row effect r) (event_of effect) actor t
        (ap is_some (effect_approver effect r)
          ∙ (h.honest a.id r e).1
          ∙ p
          ∙ sym (effect_approval effect r))
        (λ _ _ _. effect_approval effect r) h)

abbrev pub Picked :
    (Action × String → Type 0) → Option ((Action × String) × List (Action × String)) → Type 0
Picked P none = Unit
Picked P (some (x, others)) = P x × All P others

pub pick-All :
    (P : Action × String → Type 0) (i : ℕ) (xs : List (Action × String))
    → All P xs
    → Picked P (pick i xs)
unfolding pick
pick-All P i [] h = tt
pick-All P zero (x ∷ xs) h = h
pick-All P (suc i) (x ∷ xs) (p, h) = elim (Option-cases (pick i xs)) [
  | inl e ↦ rw (e, pick) tt
  | inr ((found, others), e) ↦
      let (q, rest) = subst (Picked P) e (pick-All P i xs h) in rw (e, pick) (q, (p, rest))
]

pub finish_at-IsApproved :
    (i : ℕ) (effect : Effect) (t : Tables) → IsApproved t → IsApproved (finish_at i effect t)
unfolding finish_at
finish_at-IsApproved i effect t h = elim (Option-cases (pick i t.running)) [
  | inl e ↦ rw (e, finish_at) h
  | inr ((x, others), e) ↦
      let (p, rest) = subst (Picked (HasApproved t.actions)) e (pick-All _ i t.running h.running) in
      rw (e, finish_at)
        (finish-IsApproved effect x (record t { running = others }) p
          (record { honest = h.honest; running = rest }))
]

pub step-IsApproved :
    (fingerprint : Payload → String) (c : Call) (t : Tables)
    → IsApproved t
    → IsApproved (step fingerprint c t)
unfolding step
step-IsApproved fingerprint (prepares id p actor) t h =
    prepare-IsApproved fingerprint id p actor t h
step-IsApproved fingerprint (approves decision_approved id given actor) t h =
    approve-IsApproved decision_approved id given actor t h
step-IsApproved fingerprint (rejects id rationale actor) t h =
    reject-IsApproved id rationale actor t h
step-IsApproved fingerprint (retries id actor) t h = retry-IsApproved id actor t h
step-IsApproved fingerprint (finishes i effect) t h = finish_at-IsApproved i effect t h

-- Any calls and effects, in whatever order they come, keep what is approved: a row stands under its id, it is
-- approved by someone exactly when it is approved, executed or failed, and each execution that waits for its
-- effect has a row that is, so that nothing that is only prepared or that was rejected is executed.
pub run-IsApproved :
    (fingerprint : Payload → String) (cs : List Call) (t : Tables)
    → IsApproved t
    → IsApproved (run fingerprint cs t)
unfolding run
run-IsApproved fingerprint [] t h = h
run-IsApproved fingerprint (c ∷ cs) t h =
    run-IsApproved fingerprint cs (step fingerprint c t) (step-IsApproved fingerprint c t h)
