-- ===== src/RateLimiter/Touching.antt =====
-- src/services/rateLimiter.ts: `touch` keeps a store valid.
use poolstatis.Common.{
  ◌⊎◌, ℕ, ◌≡◌, refl, sym, ◌∙◌, Bool, true, false, inl, inr, Option, none, some, String, Map, get,
  set, str_eq, eq_iff, get-set, move_to_end, get-move_to_end, arith, Option-cases, if◌then◌else◌,
}
use poolstatis.RateLimiter.Bucket.{BucketLimit}
use poolstatis.RateLimiter.Store.{BucketRecord, Queue, BucketStore, touch, touch_tenant}
use poolstatis.RateLimiter.Invariant.{owner, listed, IsRecord, IsValid, old-enrolled}

abbrev pub seen_at : ℕ → Option BucketRecord → Option BucketRecord
seen_at now none = none
seen_at now (some r) = some (record r { state = record r.state { last_seen_at = now } })

pub get-touch :
    (s : BucketStore) (id j : String) (now : ℕ)
    → get (touch s id now).all j ≡ (if str_eq id j then seen_at now (get s.all j) else get s.all j)
unfolding touch
get-touch s id j now = elim (Option-cases (get s.all id)) [
  | inl e ↦ rw (e, touch) (ground (arith, eq_iff id j))
  | inr (r, e) ↦
      rw (e, touch)
        (ground (
          arith,
          eq_iff id j,
          get-move_to_end s.all id j (record r { state = record r.state { last_seen_at = now } }),
        ))
]

seen_at-IsRecord :
    {limit : BucketLimit} (k : String) (r : BucketRecord) (o : Option BucketRecord) (same : Bool)
    (now : ℕ)
    → ((r' : BucketRecord) → o ≡ some r' → IsRecord limit k r')
    → (if same then seen_at now o else o) ≡ some r
    → IsRecord limit k r
seen_at-IsRecord k r none true now h e = cc
seen_at-IsRecord k r none false now h e = cc
seen_at-IsRecord k r (some r') true now h e = ground (arith, h r' refl)
seen_at-IsRecord k r (some r') false now h e = h r e

pub listed-set :
    (tenants : Map Queue) (t0 t k : String) (q : Queue)
    → listed (set tenants t0 q) t k ≡ (if str_eq t0 t then get q k else listed tenants t k)
listed-set tenants t0 t k q = ground (arith, get-set tenants t0 t q)

listed-touch_tenant :
    (tenants : Map Queue) (t0 t id k : String)
    → listed (touch_tenant tenants t0 id) t k ≡ some tt
    → (listed tenants t k ≡ some tt) ⊎ ((id ≡ k) × (t0 ≡ t))
unfolding touch_tenant
listed-touch_tenant tenants t0 t id k = elim (Option-cases (get tenants t0)) [
  | inl e ↦ rw (e, touch_tenant) (λ h. inl h)
  | inr (q, e) ↦
      rw (e, touch_tenant)
        (λ h. ground (
          arith,
          listed-set tenants t0 t k (move_to_end q id tt),
          get-move_to_end q id k tt,
          eq_iff t0 t,
          eq_iff id k,
        ))
]

listed-touch :
    (s : BucketStore) (id t k : String) (now : ℕ)
    → listed (touch s id now).tenants t k ≡ some tt
    → (listed s.tenants t k ≡ some tt) ⊎ ((id ≡ k) × (owner (get s.all id) ≡ some t))
unfolding touch
listed-touch s id t k now = elim (Option-cases (get s.all id)) [
  | inl e ↦ rw (e, touch) (λ h. inl h)
  | inr (r, e) ↦
      rw (e, touch) (λ h. ground (arith, listed-touch_tenant s.tenants r.tenant_id t id k))
]

touch_tenant-keeps :
    (tenants : Map Queue) (t0 t id k : String)
    → listed tenants t k ≡ some tt
    → listed (touch_tenant tenants t0 id) t k ≡ some tt
unfolding touch_tenant
touch_tenant-keeps tenants t0 t id k = elim (Option-cases (get tenants t0)) [
  | inl e ↦ rw (e, touch_tenant) (λ h. h)
  | inr (q, e) ↦
      rw (e, touch_tenant)
        (λ h. ground (
          arith,
          listed-set tenants t0 t k (move_to_end q id tt),
          get-move_to_end q id k tt,
          eq_iff t0 t,
          eq_iff id k,
        ))
]

touch-keeps :
    (s : BucketStore) (id t k : String) (now : ℕ)
    → listed s.tenants t k ≡ some tt
    → listed (touch s id now).tenants t k ≡ some tt
unfolding touch
touch-keeps s id t k now = elim (Option-cases (get s.all id)) [
  | inl e ↦ rw (e, touch) (λ h. h)
  | inr (r, e) ↦ rw (e, touch) (touch_tenant-keeps s.tenants r.tenant_id t id k)
]

seen_at-tenant :
    (now : ℕ) (o : Option BucketRecord) (r : BucketRecord)
    → seen_at now o ≡ some r
    → owner o ≡ some r.tenant_id
seen_at-tenant now none r e = cc
seen_at-tenant now (some r') r e = ground arith

pub touch-IsValid :
    {limit : BucketLimit} {s : BucketStore} (id : String) (now : ℕ)
    → IsValid limit s
    → IsValid limit (touch s id now)
touch-IsValid {limit} {s} id now h = record {
  records = λ k r e.
      seen_at-IsRecord k r (get s.all k) (str_eq id k) now (h.records k)
        (sym (get-touch s id k now) ∙ e);
  enrolled = λ k r e. touch-keeps s id r.tenant_id k now (
      old-enrolled h k r (str_eq id k) (λ r'. seen_at-tenant now (get s.all k) r')
        (sym (get-touch s id k now) ∙ e));
  owned = λ t k m. ground (arith, get-touch s id k now, listed-touch s id t k now, h.owned t k);
}
