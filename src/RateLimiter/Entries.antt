-- ===== src/RateLimiter/Entries.antt =====
-- src/services/rateLimiter.ts: `insert` and `remove` keep a store valid.
use poolstatis.Common.{
  ◌≢◌, ◌⊎◌, ◌≡◌, inl, inr, none, some, String, [], Map, get, set, delete, str_eq, eq_iff, get-nil,
  get-set, get-delete, get-size_zero, arith, Option-cases, if◌then◌else◌,
}
use poolstatis.RateLimiter.Bucket.{BucketLimit, BucketState}
use poolstatis.RateLimiter.Store.{
  BucketRecord, Queue, BucketStore, insert, remove, tenant_queue, remove_from_tenant,
}
use poolstatis.RateLimiter.Invariant.{IsBucket, IsValid, owner, listed}
use poolstatis.RateLimiter.Touching.{listed-set}

pub get-insert :
    (s : BucketStore) (id j tenant_id : String) (state : BucketState)
    → get (insert s id tenant_id state).all j ≡ (
        if str_eq id j
        then some (record { id = id; tenant_id = tenant_id; state = state })
        else get s.all j)
unfolding insert
get-insert s id j tenant_id state = get-set s.all id j _

listed-insert :
    (s : BucketStore) (id tenant_id t k : String) (state : BucketState)
    → listed (insert s id tenant_id state).tenants t k ≡ some tt
    → (listed s.tenants t k ≡ some tt) ⊎ ((id ≡ k) × (tenant_id ≡ t))
unfolding insert tenant_queue
listed-insert s id tenant_id t k state = elim (Option-cases (get s.tenants tenant_id)) [
  | inl e ↦
      rw (e, tenant_queue)
        (λ h. ground (
          arith,
          get-nil {V = Unit {0}} k,
          listed-set s.tenants tenant_id t k (set [] id tt),
          get-set {V = Unit {0}} [] id k tt,
          eq_iff tenant_id t,
          eq_iff id k,
        ))
  | inr (q, e) ↦
      rw (e, tenant_queue)
        (λ h. ground (
          arith,
          listed-set s.tenants tenant_id t k (set q id tt),
          get-set q id k tt,
          eq_iff tenant_id t,
          eq_iff id k,
        ))
]

insert-keeps :
    (s : BucketStore) (id tenant_id t k : String) (state : BucketState)
    → (listed s.tenants t k ≡ some tt) ⊎ ((id ≡ k) × (tenant_id ≡ t))
    → listed (insert s id tenant_id state).tenants t k ≡ some tt
unfolding insert tenant_queue
insert-keeps s id tenant_id t k state = elim (Option-cases (get s.tenants tenant_id)) [
  | inl e ↦
      rw (e, tenant_queue)
        (λ h. ground (
          arith,
          listed-set s.tenants tenant_id t k (set [] id tt),
          get-nil {V = Unit {0}} k,
          get-set {V = Unit {0}} [] id k tt,
          eq_iff tenant_id t,
          eq_iff id k,
        ))
  | inr (q, e) ↦
      rw (e, tenant_queue)
        (λ h. ground (
          arith,
          listed-set s.tenants tenant_id t k (set q id tt),
          get-set q id k tt,
          eq_iff tenant_id t,
          eq_iff id k,
        ))
]

pub insert-IsValid :
    {limit : BucketLimit} {s : BucketStore} (id tenant_id : String) (state : BucketState)
    → IsValid limit s
    → get s.all id ≡ none
    → IsBucket limit state
    → IsValid limit (insert s id tenant_id state)
insert-IsValid {limit} {s} id tenant_id state h fresh b = record {
  records = λ k r e. ground (arith, get-insert s id k tenant_id state, eq_iff id k, h.records k r);
  enrolled = λ k r e.
      insert-keeps s id tenant_id r.tenant_id k state
        (ground (arith, get-insert s id k tenant_id state, eq_iff id k, h.enrolled k r));
  owned = λ t k m. ground (
    arith,
    get-insert s id k tenant_id state,
    eq_iff id k,
    listed-insert s id tenant_id t k state,
    h.owned t k,
  );
}

pub get-remove :
    (s : BucketStore) (r : BucketRecord) (j : String)
    → get (remove s r).all j ≡ (if str_eq r.id j then none else get s.all j)
unfolding remove
get-remove s r j = get-delete s.all r.id j

listed-remove_from_tenant :
    (tenants : Map Queue) (t0 t id k : String)
    → listed (remove_from_tenant tenants t0 id) t k ≡ some tt
    → (listed tenants t k ≡ some tt) × ((id ≢ k) ⊎ (t0 ≢ t))
unfolding remove_from_tenant
listed-remove_from_tenant tenants t0 t id k = elim (Option-cases (get tenants t0)) [
  | inl e ↦ rw (e, remove_from_tenant) (λ h. ground (arith, eq_iff t0 t))
  | inr (q, e) ↦
      rw (e, remove_from_tenant)
        (λ h. ground (
          arith,
          listed-set tenants t0 t k (delete q id),
          get-delete q id k,
          eq_iff t0 t,
          eq_iff id k,
          get-delete tenants t0 t,
          get-size_zero (delete q id) k,
        ))
]

listed-remove :
    (s : BucketStore) (r : BucketRecord) (t k : String)
    → listed (remove s r).tenants t k ≡ some tt
    → (listed s.tenants t k ≡ some tt) × ((r.id ≢ k) ⊎ (r.tenant_id ≢ t))
unfolding remove
listed-remove s r t k = listed-remove_from_tenant s.tenants r.tenant_id t r.id k

remove_from_tenant-keeps :
    (tenants : Map Queue) (t0 t id k : String)
    → id ≢ k
    → listed tenants t k ≡ some tt
    → listed (remove_from_tenant tenants t0 id) t k ≡ some tt
unfolding remove_from_tenant
remove_from_tenant-keeps tenants t0 t id k ne = elim (Option-cases (get tenants t0)) [
  | inl e ↦ rw (e, remove_from_tenant) (λ h. h)
  | inr (q, e) ↦
      rw (e, remove_from_tenant)
        (λ h. ground (
          arith,
          listed-set tenants t0 t k (delete q id),
          get-delete q id k,
          eq_iff t0 t,
          eq_iff id k,
          get-delete tenants t0 t,
          get-size_zero (delete q id) k,
        ))
]

pub remove-IsValid :
    {limit : BucketLimit} {s : BucketStore} (r : BucketRecord)
    → IsValid limit s
    → owner (get s.all r.id) ≡ some r.tenant_id
    → IsValid limit (remove s r)
remove-IsValid {limit} {s} r h mine = record {
  records = λ k r' e. ground (arith, get-remove s r k, h.records k r');
  enrolled = λ k r' e.
      unfold remove in
      remove_from_tenant-keeps s.tenants r.tenant_id r'.tenant_id r.id k
        (ground (arith, get-remove s r k, eq_iff r.id k))
        (h.enrolled k r' (ground (arith, get-remove s r k)));
  owned =
      λ t k m. ground (arith, get-remove s r k, eq_iff r.id k, listed-remove s r t k, h.owned t k);
}
