-- ===== src/Releases/Writes.antt =====
-- src/services/releases.ts: the rows and the log after a write of a row with its revision.
use poolstatis.Common.{
  ◌≡◌, refl, sym, ap, subst, ◌∙◌, inl, inr, Bool, true, false, ◌&&◌, Option, none, some, String,
  List, [], ◌∷◌, ◌++◌, get, get-set, str_eq, eq_iff, eq_refl, if◌then◌else◌, arith, Bool-cases,
}
use poolstatis.Releases.Ledger.{last_snapshot, newer, last_snapshot-snoc}
use poolstatis.Releases.Register.{registration, is_registration}
use poolstatis.Releases.Table.{
  Status, Release, Action, registered, Revision, Tables, has_key, append_revision, write,
}

-- The rows after a write, by id.
pub get-write :
    (r : Release) (a : Action) (from : Option Status) (actor : String) (t : Tables) (id : String)
    → get (write r a from actor t).releases id
      ≡ (if str_eq r.id id then some r else get t.releases id)
unfolding write
get-write r a from actor t id = get-set t.releases r.id id r

-- A write keeps the table the last snapshots of the log.
pub write-logged :
    (r : Release) (a : Action) (from : Option Status) (actor : String) (t : Tables)
    → ((id : String) → get t.releases id ≡ last_snapshot id t.revisions)
    → (id : String)
    → get (write r a from actor t).releases id ≡ last_snapshot id (write r a from actor t).revisions
unfolding write append_revision
write-logged r a from actor t h id =
    get-set t.releases r.id id r
    ∙ (ap (λ (o : Option Release). if str_eq r.id id then some r else o) (h id)
        ∙ sym (last_snapshot-snoc id t.revisions _))

-- A property of the rows is kept when the row that is written has it.
pub write-rows :
    (P : String → Release → Type 0) (r : Release) (a : Action) (from : Option Status)
    (actor : String) (t : Tables)
    → P r.id r
    → ((id : String) (q : Release) → get t.releases id ≡ some q → P id q)
    → (id : String) {q : Release} → get (write r a from actor t).releases id ≡ some q
    → P id q
write-rows P r a from actor t p h id {q} k = elim (Bool-cases (str_eq r.id id)) [
  | inl e ↦
      let k' = rw (get-write r a from actor t id, e) at k in
      subst (λ (i : String). P i q) ((eq_iff r.id id).0 e)
        (subst (λ (o : Option Release). elim o [ none ↦ Unit | some x ↦ P r.id x ]) k' p)
  | inr e ↦ h id q (rw (get-write r a from actor t id, e) at k)
]

pub newer-none : (a b : Option Release) → newer a b ≡ none → (a ≡ none) × (b ≡ none)
unfolding newer
newer-none none b h = (refl, h)
newer-none (some r) b h = absurd cc

-- A release that has no row has no registration.
pub registration-none :
    (project id : String) (log : List Revision)
    → last_snapshot id log ≡ none
    → registration project id log ≡ none
unfolding last_snapshot registration is_registration
registration-none project id [] h = refl
registration-none project id (v ∷ log) h =
    let parts = newer-none (last_snapshot id log) _ h in
    let rest = registration-none project id log parts.0 in ground (arith, rest, parts.1)

pub is_registration_self :
    (v : Revision) → v.action ≡ registered → is_registration v.project_id v.release_id v ≡ true
unfolding is_registration
is_registration_self v h = rw (eq_refl v.project_id, eq_refl v.release_id, h)

-- The first revision of a release is its registration.
pub registration-first :
    (log : List Revision) (v : Revision)
    → v.action ≡ registered
    → registration v.project_id v.release_id log ≡ none
    → registration v.project_id v.release_id (log ++ v ∷ []) ≡ some v.snapshot
unfolding registration
registration-first [] v h k = rw (is_registration_self v h)
registration-first (u ∷ log) v h k =
    elim (Bool-cases (is_registration v.project_id v.release_id u)) [
      | inl e ↦ let k' = rw e at k in absurd cc
      | inr e ↦ let k' = rw e at k in rw e (registration-first log v h k')
    ]

pub both : (a b : Bool) → (a && b) ≡ true → (a ≡ true) × (b ≡ true)
both true b h = (refl, h)
both false b h = absurd cc

-- A key that a row has is the row's.
pub has_key-eq :
    (project env key : String) (r : Release)
    → has_key project env key r ≡ true
    → (r.project_id ≡ project) × (r.env ≡ env) × (r.idempotency_key ≡ key)
unfolding has_key
has_key-eq project env key r h =
    let (p, rest) = both (str_eq r.project_id project) _ h in
    let (e, k) = both (str_eq r.env env) _ rest in
    ((eq_iff _ _).0 p, (eq_iff _ _).0 e, (eq_iff _ _).0 k)
