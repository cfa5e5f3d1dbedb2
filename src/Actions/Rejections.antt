-- ===== src/Actions/Rejections.antt =====
-- src/services/actions.ts: an action that was rejected.
use poolstatis.Common.{
  ℕ, ◌≡◌, refl, sym, ap, subst, ◌∙◌, inl, inr, Bool, true, false, not, some, String, List, [], ◌∷◌,
  get, get-set, str_eq, eq_iff, Bool-cases, Option-cases, if_elim,
}
use poolstatis.Actions.Approved.{has_approval, HasApproved, IsApproved, some-eq}
use poolstatis.Actions.Executions.{Picked, pick-All, step-IsApproved, own-get}
use poolstatis.Actions.Table.{
  Status, rejected, Payload, Action, AuditEvent, was_prepared, was_approved, was_rejected, Tables,
  Answer, committed, write, find_key, new_action, insert, prepare, is_executed, is_approvable,
  needs_integration, approve_row, start_execution, approve_found, approve, is_prepared,
  reject_found, reject, is_failed, retry_found, retry, Effect, performed, broke, executed_row,
  event_of, finish, pick, Call, prepares, approves, rejects, retries, finishes, finish_at, step,
  run,
}

-- A rejected row is under an id.
abbrev IsRejected : String → Action → Tables → Type 0
IsRejected id a t = (get t.actions id ≡ some a) × (a.status ≡ rejected)

-- A write of a row that is not there as a rejected one keeps those that are rejected.
write-IsRejected :
    (b : Action) (event : AuditEvent) (actor : String) (t : Tables) (id : String) (a : Action)
    → (get t.actions b.id ≡ some a → a.status ≡ rejected → true ≡ false)
    → IsRejected id a t
    → IsRejected id a (write b event actor t)
unfolding write
write-IsRejected b event actor t id a never (h, r) = elim (Bool-cases (str_eq b.id id)) [
  | inl e ↦
      let h' = subst (λ (i : String). get t.actions i ≡ some a) (sym ((eq_iff b.id id).0 e)) h in
      let out = never h' r in absurd cc
  | inr e ↦ (rw (get-set t.actions b.id id b, e) h, r)
]

insert-IsRejected :
    (b : Action) (actor : String) (t : Tables) (id : String) (a : Action)
    → IsRejected id a t
    → IsRejected id a (committed t (insert b actor t))
unfolding insert committed
insert-IsRejected b actor t id a h = elim (Option-cases (get t.actions b.id)) [
  | inl e ↦
      rw (e, insert)
        (write-IsRejected b was_prepared actor t id a (λ k _. let out = sym e ∙ k in absurd cc) h)
  | inr (_, e) ↦ rw (e, insert) h
]

prepare-IsRejected :
    (fingerprint : Payload → String) (j : String) (p : Payload) (actor : String) (t : Tables)
    (id : String) (a : Action)
    → IsRejected id a t
    → IsRejected id a (committed t (prepare fingerprint j p actor t))
unfolding prepare committed
prepare-IsRejected fingerprint j p actor t id a h =
    elim (Option-cases (find_key p.idempotency_key t.actions)) [
      | inl e ↦
          rw (e, prepare) (insert-IsRejected (new_action fingerprint j p actor) actor t id a h)
      | inr (b, e) ↦
          rw (e, prepare)
            (if_elim (λ (r : Answer). IsRejected id a (committed t r))
              (str_eq b.confirmation_fingerprint (fingerprint p)) (λ _. h) (λ _. h))
    ]

-- A status with a property that a rejected one lacks.
not_rejected :
    (test : Status → Bool) (t : Tables) (b a : Action)
    → get t.actions b.id ≡ some b
    → test b.status ≡ true
    → test rejected ≡ false
    → get t.actions b.id ≡ some a
    → a.status ≡ rejected
    → true ≡ false
not_rejected test t b a own has never k r =
    let same = some-eq (sym own ∙ k) in
    sym has ∙ ap (λ (x : Action). test x.status) same ∙ ap test r ∙ never

not-false : (b : Bool) → not b ≡ false → b ≡ true
not-false true h = refl
not-false false h = absurd cc

approve_found-IsRejected :
    (decision_approved : String → Bool) (given actor : String) (t : Tables) (b : Action)
    (id : String) (a : Action)
    → get t.actions b.id ≡ some b
    → IsRejected id a t
    → IsRejected id a (committed t (approve_found decision_approved given actor t b))
unfolding approve_found start_execution committed
approve_found-IsRejected decision_approved given actor t b id a own h =
    if_elim (λ (r : Answer). IsRejected id a (committed t r))
      (not (str_eq b.confirmation_fingerprint given)) (λ _. h)
      (λ _.
        if_elim (λ (r : Answer). IsRejected id a (committed t r)) (is_executed b.status) (λ _. h)
          (λ _.
            if_elim (λ (r : Answer). IsRejected id a (committed t r)) (not (is_approvable b.status))
              (λ _. h)
              (λ ok.
                if_elim (λ (r : Answer). IsRejected id a (committed t r))
                  (needs_integration b.frozen.action_type) (λ _. h)
                  (λ _.
                    if_elim (λ (r : Answer). IsRejected id a (committed t r))
                      (not (decision_approved b.frozen.decision_id)) (λ _. h)
                      (λ _.
                        write-IsRejected (approve_row b actor) was_approved actor t id a
                          (not_rejected is_approvable t b a own (not-false _ ok) refl) h)))))

approve-IsRejected :
    (decision_approved : String → Bool) (j given actor : String) (t : Tables) (id : String)
    (a : Action)
    → IsApproved t
    → IsRejected id a t
    → IsRejected id a (committed t (approve decision_approved j given actor t))
unfolding approve committed
approve-IsRejected decision_approved j given actor t id a s h =
    elim (Option-cases (get t.actions j)) [
      | inl e ↦ rw (e, approve) h
      | inr (b, e) ↦
          rw (e, approve)
            (approve_found-IsRejected decision_approved given actor t b id a (own-get t j b s e) h)
    ]

reject-IsRejected :
    (j rationale actor : String) (t : Tables) (id : String) (a : Action)
    → IsApproved t
    → IsRejected id a t
    → IsRejected id a (committed t (reject j rationale actor t))
unfolding reject reject_found committed
reject-IsRejected j rationale actor t id a s h = elim (Option-cases (get t.actions j)) [
  | inl e ↦ rw (e, reject) h
  | inr (b, e) ↦
      rw (e, reject)
        (if_elim (λ (r : Answer). IsRejected id a (committed t r)) (is_prepared b.status)
          (λ p.
            write-IsRejected (record b { status = rejected; result = some rationale }) was_rejected
              actor t id a (not_rejected is_prepared t b a (own-get t j b s e) p refl) h)
          (λ _. h))
]

retry-IsRejected :
    (j actor : String) (t : Tables) (id : String) (a : Action)
    → IsRejected id a t
    → IsRejected id a (committed t (retry j actor t))
unfolding retry retry_found start_execution committed
retry-IsRejected j actor t id a h = elim (Option-cases (get t.actions j)) [
  | inl e ↦ rw (e, retry) h
  | inr (b, e) ↦
      rw (e, retry)
        (if_elim (λ (r : Answer). IsRejected id a (committed t r)) (is_failed b.status) (λ _. h)
          (λ _. h))
]

executed_row-id : (effect : Effect) (r : Action) → (executed_row effect r).id ≡ r.id
executed_row-id (performed result) r = refl
executed_row-id (broke code message) r = refl

finish-IsRejected :
    (effect : Effect) (x : Action × String) (t : Tables) (id : String) (a : Action)
    → IsApproved t
    → HasApproved t.actions x
    → IsRejected id a t
    → IsRejected id a (finish effect x t)
unfolding finish
finish-IsRejected effect (b, actor) t id a s (r, (e, p)) h =
    rw (e, finish)
      (write-IsRejected (executed_row effect r) (event_of effect) actor t id a
        (λ k q.
          not_rejected has_approval t r a (own-get t b.id r s e) p refl
            (subst (λ (i : String). get t.actions i ≡ some a) (executed_row-id effect r) k) q)
        h)

finish_at-IsRejected :
    (i : ℕ) (effect : Effect) (t : Tables) (id : String) (a : Action)
    → IsApproved t
    → IsRejected id a t
    → IsRejected id a (finish_at i effect t)
unfolding finish_at
finish_at-IsRejected i effect t id a s h = elim (Option-cases (pick i t.running)) [
  | inl e ↦ rw (e, finish_at) h
  | inr ((x, others), e) ↦
      let (p, rest) = subst (Picked (HasApproved t.actions)) e (pick-All _ i t.running s.running) in
      rw (e, finish_at)
        (finish-IsRejected effect x (record t { running = others }) id a
          (record { honest = s.honest; running = rest }) p h)
]

step-IsRejected :
    (fingerprint : Payload → String) (c : Call) (t : Tables) (id : String) (a : Action)
    → IsApproved t
    → IsRejected id a t
    → IsRejected id a (step fingerprint c t)
unfolding step
step-IsRejected fingerprint (prepares j p actor) t id a s h =
    prepare-IsRejected fingerprint j p actor t id a h
step-IsRejected fingerprint (approves decision_approved j given actor) t id a s h =
    approve-IsRejected decision_approved j given actor t id a s h
step-IsRejected fingerprint (rejects j rationale actor) t id a s h =
    reject-IsRejected j rationale actor t id a s h
step-IsRejected fingerprint (retries j actor) t id a s h = retry-IsRejected j actor t id a h
step-IsRejected fingerprint (finishes i effect) t id a s h =
    finish_at-IsRejected i effect t id a s h

-- On tables whose approvals are kept, a rejected action is final: no calls and no effects, in whatever
-- order they come, change anything of its row.
pub run-rejected :
    (fingerprint : Payload → String) (cs : List Call) (t : Tables) (id : String) (a : Action)
    → IsApproved t
    → get t.actions id ≡ some a
    → a.status ≡ rejected
    → get (run fingerprint cs t).actions id ≡ some a
unfolding run
run-rejected fingerprint [] t id a s h r = h
run-rejected fingerprint (c ∷ cs) t id a s h r =
    let (h', _) = step-IsRejected fingerprint c t id a s (h, r) in
    run-rejected fingerprint cs (step fingerprint c t) id a (step-IsApproved fingerprint c t s) h' r
