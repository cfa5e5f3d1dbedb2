-- ===== src/Releases/Invariant.antt =====
-- src/services/releases.ts: the invariant of the tables, kept by every write of a row with its revision.
use poolstatis.Common.{
  ◌≤◌, ◌≡◌, refl, sym, ◌∙◌, inl, inr, true, Option, none, some, String, [], get, set, arith,
  Bool-cases,
}
use poolstatis.Releases.Ledger.{
  Reaches, here, Reaches-snoc, last_snapshot, registration-append, holders, holders-none,
  holders-new, holders-set,
}
use poolstatis.Releases.Register.{registration}
use poolstatis.Releases.Table.{
  Status, Release, Action, registered, Tables, row_check, has_key, find_key, append_revision, write,
}
use poolstatis.Releases.Transition.{allowed_transition}
use poolstatis.Releases.Writes.{
  write-logged, write-rows, registration-none, registration-first, has_key-eq,
}

-- Each row stands under its id, is the snapshot of its last revision, passes the CHECK and comes from
-- the snapshot of its registration by allowed moves; no key has two rows.
pub record IsLedger (t : Tables) : Type 0 where
  pub keyed : (id : String) {r : Release} → get t.releases id ≡ some r → r.id ≡ id
  pub logged : (id : String) → get t.releases id ≡ last_snapshot id t.revisions
  pub checked : (id : String) {r : Release} → get t.releases id ≡ some r → row_check r ≡ true
  pub origin :
      (id : String) {r : Release}
      → get t.releases id ≡ some r
      → (s : Release) × (registration r.project_id id t.revisions ≡ some s) × Reaches s r
  pub unique : (project env key : String) → holders project env key t.releases ≤ 1

abbrev pub empty : Tables
empty = record { releases = []; revisions = [] }

pub empty-IsLedger : IsLedger empty
unfolding get last_snapshot holders
empty-IsLedger = record {
  keyed = λ id h. cc;
  logged = λ id. refl;
  checked = λ id h. cc;
  origin = λ id h. absurd cc;
  unique = λ project env key. omega arith;
}

-- Any other write keeps the registrations.
write-origin :
    (r : Release) (a : Action) (from : Option Status) (actor : String) (t : Tables)
    → IsLedger t
    → (id : String) (q : Release) → get t.releases id ≡ some q
    → (s : Release) × (registration q.project_id id (write r a from actor t).revisions ≡ some s)
      × Reaches s q
unfolding write append_revision
write-origin r a from actor t h id q k =
    let (s, e, reach) = h.origin id k in
    (s, registration-append q.project_id id t.revisions _ e, reach)

unique-new :
    (r : Release) (t : Tables)
    → IsLedger t
    → get t.releases r.id ≡ none
    → find_key r.project_id r.env r.idempotency_key t.releases ≡ none
    → (project env key : String) → holders project env key (set t.releases r.id r) ≤ 1
unique-new r t h absent free project env key = elim (Bool-cases (has_key project env key r)) [
  | inl e ↦
      let (p, v, k) = has_key-eq project env key r e in
      let free' = rw (p, v, k) at free in
      let fewer = holders-new project env key t.releases r.id r absent in
      let fewer' = rw e at fewer in omega (arith, holders-none project env key t.releases free')
  | inr e ↦
      let fewer = holders-new project env key t.releases r.id r absent in
      let fewer' = rw e at fewer in omega (arith, h.unique project env key)
]

pub new-origin :
    (r : Release) (actor : String) (t : Tables)
    → IsLedger t
    → get t.releases r.id ≡ none
    → registration r.project_id r.id (write r registered none actor t).revisions ≡ some r
unfolding write append_revision
new-origin r actor t h absent =
    registration-first t.revisions _ refl
      (registration-none r.project_id r.id t.revisions (sym (h.logged r.id) ∙ absent))

-- A new row keeps the invariant.
pub insert-IsLedger :
    (r : Release) (actor : String) (t : Tables)
    → IsLedger t
    → get t.releases r.id ≡ none
    → find_key r.project_id r.env r.idempotency_key t.releases ≡ none
    → row_check r ≡ true
    → IsLedger (write r registered none actor t)
insert-IsLedger r actor t h absent free ok = record {
  keyed = λ id. write-rows (λ i q. q.id ≡ i) r registered none actor t refl (λ i q. h.keyed i) id;
  logged = write-logged r registered none actor t h.logged;
  checked = λ id.
      write-rows (λ _ q. row_check q ≡ true) r registered none actor t ok (λ i q. h.checked i) id;
  origin = λ id.
      write-rows
        (λ i q.
          (s : Release) × (registration q.project_id i (write r registered none actor t).revisions
            ≡ some s)
          × Reaches s q)
        r registered none actor t (r, new-origin r actor t h absent, here)
        (write-origin r registered none actor t h) id;
  unique = unfold write in unique-new r t h absent free;
}

moved_unique :
    (q : Release) (to : Status) (at : Option String) (t : Tables)
    → IsLedger t
    → get t.releases q.id ≡ some q
    → (project env key : String)
    → holders project env key (set t.releases q.id (record q { status = to; deployed_at = at })) ≤ 1
unfolding has_key
moved_unique q to at t h there project env key = omega (
  arith,
  h.unique project env key,
  holders-set project env key t.releases q.id q (record q { status = to; deployed_at = at }) there
      refl,
)

moved-origin :
    (a : Action) (q : Release) (to : Status) (at : Option String) (actor : String) (t : Tables)
    → IsLedger t
    → get t.releases q.id ≡ some q
    → allowed_transition q.status to ≡ true
    → (s : Release) × (registration q.project_id q.id
          (write (record q { status = to; deployed_at = at }) a (some q.status) actor t).revisions
        ≡ some s)
      × Reaches s (record q { status = to; deployed_at = at })
moved-origin a q to at actor t h there allowed =
    let (s, e, reach) =
      write-origin (record q { status = to; deployed_at = at }) a (some q.status) actor t h q.id q
        there in
    (s, e, Reaches-snoc to at reach allowed)

-- So does a move of a row that is there.
pub move-IsLedger :
    (a : Action) (q : Release) (to : Status) (at : Option String) (actor : String) (t : Tables)
    → IsLedger t
    → get t.releases q.id ≡ some q
    → allowed_transition q.status to ≡ true
    → row_check (record q { status = to; deployed_at = at }) ≡ true
    → IsLedger (write (record q { status = to; deployed_at = at }) a (some q.status) actor t)
move-IsLedger a q to at actor t h there allowed ok = record {
  keyed = λ id. write-rows (λ i s. s.id ≡ i) _ _ _ actor t refl (λ i s. h.keyed i) id;
  logged = write-logged _ _ _ actor t h.logged;
  checked = λ id. write-rows (λ _ s. row_check s ≡ true) _ _ _ actor t ok (λ i s. h.checked i) id;
  origin = λ id.
      write-rows
        (λ i s.
          (o : Release) × (registration s.project_id i
              (write (record q { status = to; deployed_at = at }) a (some q.status) actor
                t).revisions
            ≡ some o)
          × Reaches o s)
        _ _ _ actor t (moved-origin a q to at actor t h there allowed)
        (write-origin _ _ _ actor t h) id;
  unique = unfold write in moved_unique q to at t h there;
}
