-- ===== src/Releases/Changes.antt =====
-- src/services/releases.ts and src/services/decisions.ts: each call leaves the tables as they are, inserts
-- one row or moves one.
use poolstatis.Common.{
  ◌≡◌, refl, sym, subst, inl, inr, Bool, true, false, not, ◌&&◌, ◌||◌, Option, none, some, String,
  get, str_eq, eq_iff, Bool-cases, Option-cases, if_elim,
}
use poolstatis.Releases.Invariant.{IsLedger, insert-IsLedger, move-IsLedger}
use poolstatis.Releases.Register.{
  Input, same_registration, registration, or_current, repeat, new_release, insert_release,
  origin_missing, first_registration, register,
}
use poolstatis.Releases.Table.{
  Status, planned, deployed, observing, decided, cancelled, status_eq, Release, Action, registered,
  transitioned, finalized, Tables, StoredContract, World, Answer, committed, is_some, row_check,
  status_check, find_key, find_contract, in_project, find_release, write,
}
use poolstatis.Releases.Transition.{
  allowed_transition, contract_is_valid, moved, update_release, transition_found, transition,
  finalize_found, finalize_observed,
}

pub data Change (t : Tables) : Tables → Type 0 where
  kept : Change t t
  inserts :
      (r : Release) (actor : String)
      → get t.releases r.id ≡ none
      → find_key r.project_id r.env r.idempotency_key t.releases ≡ none
      → row_check r ≡ true
      → Change t (write r registered none actor t)
  moves :
      (a : Action) (q : Release) (to : Status) (at : Option String) (actor : String)
      → get t.releases q.id ≡ some q
      → allowed_transition q.status to ≡ true
      → row_check (record q { status = to; deployed_at = at }) ≡ true
      → Change t (write (record q { status = to; deployed_at = at }) a (some q.status) actor t)

pub Change-IsLedger : {t t' : Tables} → Change t t' → IsLedger t → IsLedger t'
Change-IsLedger kept h = h
Change-IsLedger {t} (inserts r actor absent free ok) h = insert-IsLedger r actor t h absent free ok
Change-IsLedger {t} (moves a q to at actor there allowed ok) h =
    move-IsLedger a q to at actor t h there allowed ok

pub is_some-none : {A : Type 0} (o : Option A) → is_some o ≡ false → o ≡ none
unfolding is_some
is_some-none none h = refl
is_some-none (some a) h = absurd cc

pub neither : (a b : Bool) → (a || not b) ≡ false → (a ≡ false) × (b ≡ true)
neither false true h = (refl, refl)
neither false false h = absurd cc
neither true b h = absurd cc

insert_release-Change :
    (r : Release) (actor : String) (t : Tables)
    → find_key r.project_id r.env r.idempotency_key t.releases ≡ none
    → Change t (committed t (insert_release r actor t))
unfolding insert_release committed
insert_release-Change r actor t free =
    if_elim (λ (a : Answer (Release × Bool)). Change t (committed t a))
      (is_some (get t.releases r.id) || not (row_check r)) (λ _. kept)
      (λ e.
        let (absent, ok) = neither (is_some (get t.releases r.id)) (row_check r) e in
        inserts r actor (is_some-none _ absent) free ok)

first_registration-Change :
    (iso : String → String) (w : World) (project id : String) (i : Input) (actor now : String)
    (t : Tables) (c : Option StoredContract)
    → find_key project i.env i.idempotency_key t.releases ≡ none
    → Change t (committed t (first_registration iso w project id i actor now t c))
unfolding first_registration committed new_release
first_registration-Change iso w project id i actor now t none free = kept
first_registration-Change iso w project id i actor now t (some c) free =
    if_elim (λ (a : Answer (Release × Bool)). Change t (committed t a))
      (origin_missing w project i.originating_decision_id) (λ _. kept)
      (λ _. insert_release-Change (new_release iso project id i c actor now) actor t free)

repeat-committed :
    (project : String) (i : Input) (r : Release) (t : Tables)
    → committed t (repeat project i r t) ≡ t
unfolding repeat committed
repeat-committed project i r t =
    if_elim (λ (a : Answer (Release × Bool)). committed t a ≡ t)
      (same_registration i (or_current r (registration project r.id t.revisions))) (λ _. refl)
      (λ _. refl)

pub register-Change :
    (iso : String → String) (w : World) (project id : String) (i : Input) (actor now : String)
    (t : Tables)
    → Change t (committed t (register iso w project id i actor now t))
unfolding register
register-Change iso w project id i actor now t =
    elim (Option-cases (find_key project i.env i.idempotency_key t.releases)) [
      | inl e ↦
          rw (e, register)
            (first_registration-Change iso w project id i actor now t
              (find_contract i.contract_key (w.contracts project)) e)
      | inr (r, e) ↦ rw (e, register) (subst (Change t) (sym (repeat-committed project i r t)) kept)
    ]

pub some-eq : {A : Type 0} {a b : A} → some a ≡ some b → a ≡ b
some-eq h = cc

in_project-some :
    (project : String) (o : Option Release) {r : Release}
    → in_project project o ≡ some r
    → (o ≡ some r) × (r.project_id ≡ project)
unfolding in_project
in_project-some project none h = absurd cc
in_project-some project (some q) {r} h = elim (Bool-cases (str_eq q.project_id project)) [
  | inl e ↦
      let h' = rw e at h in
      (h', subst (λ (x : Release). x.project_id ≡ project) (some-eq h') ((eq_iff _ _).0 e))
  | inr e ↦ let h' = rw e at h in absurd cc
]

-- A row that a call finds stands under its id.
pub find_release-get :
    (project id : String) (t : Tables) {r : Release}
    → IsLedger t
    → find_release project id t ≡ some r
    → (get t.releases id ≡ some r) × (get t.releases r.id ≡ some r) × (r.project_id ≡ project)
unfolding find_release
find_release-get project id t {r} h e =
    let (there, p) = in_project-some project (get t.releases id) e in
    (there, subst (λ (i : String). get t.releases i ≡ some r) (sym (h.keyed id there)) there, p)

moved-form :
    (iso : String → String) (r : Release) (to : Status) (at : Option String) (now : String)
    → record r { status = to; deployed_at = (moved iso r to at now).deployed_at }
      ≡ moved iso r to at now
unfolding moved
moved-form iso r to at now = refl

update_release-Change :
    (q : Release) (to : Status) (at : Option String) (actor : String) (t : Tables)
    → get t.releases q.id ≡ some q
    → allowed_transition q.status to ≡ true
    → Change t (committed t (update_release q (record q { status = to; deployed_at = at }) actor t))
unfolding update_release committed
update_release-Change q to at actor t there allowed =
    if_elim (λ (a : Answer Release). Change t (committed t a))
      (row_check (record q { status = to; deployed_at = at }))
      (λ ok. moves transitioned q to at actor there allowed ok) (λ _. kept)

not-false : (b : Bool) → not b ≡ false → b ≡ true
not-false true h = refl
not-false false h = absurd cc

transition_found-Change :
    (iso : String → String) (w : World) (project : String) (to : Status) (at : Option String)
    (actor now : String) (t : Tables) (q : Release)
    → get t.releases q.id ≡ some q
    → Change t (committed t (transition_found iso w project to at actor now t q))
unfolding transition_found committed
transition_found-Change iso w project to at actor now t q there =
    if_elim (λ (a : Answer Release). Change t (committed t a))
      (not (allowed_transition q.status to)) (λ _. kept)
      (λ e.
        if_elim (λ (a : Answer Release). Change t (committed t a))
          (status_eq to observing
            && not (contract_is_valid (w.registry project) q.contract_snapshot))
          (λ _. kept)
          (λ _.
            subst (λ (r : Release). Change t (committed t (update_release q r actor t)))
              (moved-form iso q to at now)
              (update_release-Change q to _ actor t there (not-false _ e))))

pub transition-Change :
    (iso : String → String) (w : World) (project id : String) (to : Status) (at : Option String)
    (actor now : String) (t : Tables)
    → IsLedger t
    → Change t (committed t (transition iso w project id to at actor now t))
unfolding transition committed
transition-Change iso w project id to at actor now t h =
    elim (Option-cases (find_release project id t)) [
      | inl e ↦ rw (e, transition) kept
      | inr (q, e) ↦
          rw (e, transition)
            (transition_found-Change iso w project to at actor now t q
              (find_release-get project id t h e).1)
    ]

decided-check :
    (q : Release)
    → row_check q ≡ true
    → q.status ≡ observing
    → row_check (record q { status = decided }) ≡ true
unfolding row_check status_check
decided-check q h e = let h' = rw e at h in h'

is_observing : (s : Status) → status_eq s observing ≡ true → s ≡ observing
is_observing planned h = absurd cc
is_observing deployed h = absurd cc
is_observing observing h = refl
is_observing decided h = absurd cc
is_observing cancelled h = absurd cc

decides :
    (actor : String) (t : Tables) (q : Release)
    → get t.releases q.id ≡ some q
    → row_check q ≡ true
    → q.status ≡ observing
    → Change t (write (record q { status = decided }) finalized (some observing) actor t)
unfolding allowed_transition
decides actor t q there ok e =
    subst
      (λ (s : Status). Change t (write (record q { status = decided }) finalized (some s) actor t))
      e (moves finalized q decided q.deployed_at actor there (rw e refl) (decided-check q ok e))

finalize_found-Change :
    (actor : String) (t : Tables) (q : Release)
    → get t.releases q.id ≡ some q
    → row_check q ≡ true
    → Change t (finalize_found actor t q)
unfolding finalize_found
finalize_found-Change actor t q there ok =
    if_elim (λ (s : Tables). Change t s) (status_eq q.status observing)
      (λ e. decides actor t q there ok (is_observing q.status e)) (λ _. kept)

pub finalize_observed-Change :
    (project id actor : String) (t : Tables)
    → IsLedger t
    → Change t (finalize_observed project id actor t)
unfolding finalize_observed
finalize_observed-Change project id actor t h = elim (Option-cases (find_release project id t)) [
  | inl e ↦ rw (e, finalize_observed) kept
  | inr (q, e) ↦
      rw (e, finalize_observed)
        (let (there, own, _) = find_release-get project id t h e in
          finalize_found-Change actor t q own (h.checked id there))
]
