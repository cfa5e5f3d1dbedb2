-- ===== src/RateLimiter/Invariant.antt =====
-- src/services/rateLimiter.ts: what holds of the buckets of one lane and scope between two calls, and
-- that each step on them keeps it.
use poolstatis.Common.{
  ℕ, ◌≤◌, ◌≡◌, refl, sym, subst, ◌∙◌, ap, Bool, true, false, inl, inr, Option, none, some, String,
  Map, get, str_eq, eq_iff, get-set, arith, Option-cases, if◌then◌else◌,
}
use poolstatis.RateLimiter.Bucket.{BucketLimit, BucketState, fresh_bucket, millis, refill}
use poolstatis.RateLimiter.Store.{BucketRecord, Queue, BucketStore, put_state}

abbrev pub owner : Option BucketRecord → Option String
owner none = none
owner (some r) = some r.tenant_id

-- Whether an id stands in the queue of a tenant.
abbrev pub in_queue : Option Queue → String → Option (Unit {0})
in_queue none k = none
in_queue (some queue) k = get queue k

abbrev pub listed : Map Queue → String → String → Option (Unit {0})
listed tenants t k = in_queue (get tenants t) k

-- A bucket under the limit of its scope that holds no more than its burst.
pub record IsBucket (limit : BucketLimit) (b : BucketState) : Type 0 where
  pub limited : b.limit ≡ limit
  pub within : b.tokens ≤ millis limit.burst

pub record IsRecord (limit : BucketLimit) (k : String) (r : BucketRecord) : Type 0 where
  pub keyed : r.id ≡ k
  pub bucket : IsBucket limit r.state

-- The records are stored under their ids, each in the queue of its tenant, and what stands in the
-- queue of a tenant is one of its records.
pub record IsValid (limit : BucketLimit) (s : BucketStore) : Type 0 where
  pub records : (k : String) (r : BucketRecord) → get s.all k ≡ some r → IsRecord limit k r
  pub enrolled :
      (k : String) (r : BucketRecord)
      → get s.all k ≡ some r
      → listed s.tenants r.tenant_id k ≡ some tt
  pub owned : (t k : String) → listed s.tenants t k ≡ some tt → owner (get s.all k) ≡ some t

pub owner-some :
    (o : Option BucketRecord) {t : String}
    → owner o ≡ some t
    → (r : BucketRecord) × (o ≡ some r) × (r.tenant_id ≡ t)
owner-some none e = absurd (cc)
owner-some (some r) e = (r, refl, ground arith)

-- A record is found under its own id.
pub get-id :
    (s : BucketStore) (r : BucketRecord) {k : String}
    → r.id ≡ k
    → get s.all k ≡ some r
    → get s.all r.id ≡ some r
get-id s r keyed held = ap (get s.all) keyed ∙ held

pub refill-IsBucket :
    {limit : BucketLimit} {b : BucketState} (now : ℕ) (seen : Bool)
    → IsBucket limit b
    → IsBucket limit (refill b now seen)
unfolding refill
refill-IsBucket now seen h = ground arith

pub fresh_bucket-IsBucket :
    (limit : BucketLimit) (now : ℕ) → IsBucket limit (fresh_bucket limit now)
unfolding fresh_bucket
fresh_bucket-IsBucket limit now = ground arith

abbrev pub with_state : Option BucketRecord → BucketState → Option BucketRecord
with_state none state = none
with_state (some r) state = some (record r { state = state })

pub get-put_state :
    (s : BucketStore) (id j : String) (state : BucketState)
    → get (put_state s id state).all j
      ≡ (if str_eq id j then with_state (get s.all j) state else get s.all j)
unfolding put_state
get-put_state s id j state = elim (Option-cases (get s.all id)) [
  | inl e ↦ rw (e, put_state) (ground (arith, eq_iff id j))
  | inr (r, e) ↦
      rw (e, put_state)
        (ground (arith, eq_iff id j, get-set s.all id j (record r { state = state })))
]

pub tenants-put_state :
    (s : BucketStore) (id : String) (state : BucketState)
    → (put_state s id state).tenants ≡ s.tenants
unfolding put_state
tenants-put_state s id state = ground arith

with_state-IsRecord :
    {limit : BucketLimit} (k : String) (r : BucketRecord) (o : Option BucketRecord) (same : Bool)
    {state : BucketState}
    → ((r' : BucketRecord) → o ≡ some r' → IsRecord limit k r')
    → IsBucket limit state
    → (if same then with_state o state else o) ≡ some r
    → IsRecord limit k r
with_state-IsRecord k r none true h b e = cc
with_state-IsRecord k r none false h b e = cc
with_state-IsRecord k r (some r') true h b e = ground (arith, h r' refl)
with_state-IsRecord k r (some r') false h b e = h r e

with_state-tenant :
    (o : Option BucketRecord) (r : BucketRecord) (state : BucketState)
    → with_state o state ≡ some r
    → owner o ≡ some r.tenant_id
with_state-tenant none r state e = cc
with_state-tenant (some r') r state e = ground arith

-- A record that a step changed stays in the queue in which it was.
pub old-enrolled :
    {limit : BucketLimit} {s : BucketStore} (h : IsValid limit s) (k : String) (r : BucketRecord)
    (same : Bool) {o : Option BucketRecord}
    → ((r' : BucketRecord) → o ≡ some r' → owner (get s.all k) ≡ some r'.tenant_id)
    → (if same then o else get s.all k) ≡ some r
    → listed s.tenants r.tenant_id k ≡ some tt
old-enrolled h k r false f e = h.enrolled k r e
old-enrolled {s} h k r true f e =
    let (r', held, mine) = owner-some (get s.all k) (f r e) in
    subst (λ t. listed s.tenants t k ≡ some tt) mine (h.enrolled k r' held)

pub put_state-IsValid :
    {limit : BucketLimit} {s : BucketStore} (id : String) (state : BucketState)
    → IsValid limit s
    → IsBucket limit state
    → IsValid limit (put_state s id state)
put_state-IsValid {limit} {s} id state h b = record {
  records = λ k r e.
      with_state-IsRecord k r (get s.all k) (str_eq id k) (h.records k) b
        (sym (get-put_state s id k state) ∙ e);
  enrolled = λ k r e. rw (tenants-put_state s id state) (
      old-enrolled h k r (str_eq id k) (λ r'. with_state-tenant (get s.all k) r' state)
        (sym (get-put_state s id k state) ∙ e));
  owned = λ t k m.
      ground (arith, get-put_state s id k state, tenants-put_state s id state, h.owned t k);
}
