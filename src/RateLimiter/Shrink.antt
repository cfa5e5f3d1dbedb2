-- ===== src/RateLimiter/Shrink.antt =====
-- src/services/rateLimiter.ts: steps that keep no more tokens and no more records than there were.
use poolstatis.Common.{
  Bool, get-set, ℕ, ◌≤◌, ◌≡◌, refl, inl, inr, Option, none, some, String, get, size, get-delete,
  delete, size-delete_le, size-set_self, arith, Option-cases, eq_iff,
}
use poolstatis.RateLimiter.Bucket.{BucketLimit, BucketState, millis, level, refill}
use poolstatis.RateLimiter.Store.{
  BucketRecord, Queue, BucketStore, put_state, remove, remove_from_tenant,
}
use poolstatis.RateLimiter.Invariant.{get-put_state, tenants-put_state}
use poolstatis.RateLimiter.Entries.{get-remove}

-- What the tokens under an id are worth at a time: an id without a record would get a full bucket.
abbrev pub worth : BucketLimit → ℕ → Option BucketRecord → ℕ
worth limit now none = millis limit.burst
worth limit now (some r) = level r.state now

abbrev pub queue_size : Option Queue → ℕ
queue_size none = 0
queue_size (some queue) = size queue

abbrev pub queued : BucketStore → String → ℕ
queued s t = queue_size (get s.tenants t)

-- `s'` holds no more records than `s`, and its tokens are worth no more.
pub record Shrinks (limit : BucketLimit) (now : ℕ) (s s' : BucketStore) : Type 0 where
  pub absent : (k : String) → get s.all k ≡ none → get s'.all k ≡ none
  pub fewer : size s'.all ≤ size s.all
  pub shorter : (t : String) → queued s' t ≤ queued s t
  pub cheaper : (k : String) → worth limit now (get s'.all k) ≤ worth limit now (get s.all k)

pub Shrinks-refl : {limit : BucketLimit} {now : ℕ} (s : BucketStore) → Shrinks limit now s s
Shrinks-refl s = record {
  absent = λ k h. h;
  fewer = omega arith;
  shorter = λ t. omega arith;
  cheaper = λ k. omega arith;
}

pub Shrinks-trans :
    {limit : BucketLimit} {now : ℕ} {s t u : BucketStore}
    → Shrinks limit now s t
    → Shrinks limit now t u
    → Shrinks limit now s u
Shrinks-trans h g = record {
  absent = λ k e. g.absent k (h.absent k e);
  fewer = omega (arith, h.fewer, g.fewer);
  shorter = λ t. omega (arith, h.shorter t, g.shorter t);
  cheaper = λ k. omega (arith, h.cheaper k, g.cheaper k);
}

pub level-refill :
    (b : BucketState) (now : ℕ) (seen : Bool) → level (refill b now seen) now ≡ level b now
unfolding refill
level-refill b now seen = ground arith

pub size-put_state :
    (s : BucketStore) (id : String) (state : BucketState)
    → size (put_state s id state).all ≡ size s.all
unfolding put_state
size-put_state s id state = elim (Option-cases (get s.all id)) [
  | inl e ↦ rw (e, put_state) refl
  | inr (r, e) ↦ rw (e, put_state) (size-set_self s.all id _ e)
]

-- A write of the refilled bucket changes what nothing is worth.
pub put_state-Shrinks :
    {limit : BucketLimit} (s : BucketStore) (id : String) (r : BucketRecord) (now : ℕ) (seen : Bool)
    → get s.all id ≡ some r
    → Shrinks limit now s (put_state s id (refill r.state now seen))
put_state-Shrinks {limit} s id r now seen held = record {
  absent = λ k e. ground (arith, get-put_state s id k (refill r.state now seen));
  fewer = omega (arith, size-put_state s id (refill r.state now seen));
  shorter = λ t. ground (arith, tenants-put_state s id (refill r.state now seen));
  cheaper = λ k. ground (
    arith,
    get-put_state s id k (refill r.state now seen),
    level-refill r.state now seen,
    eq_iff id k,
  );
}

pub queued-remove :
    (s : BucketStore) (r : BucketRecord) (t : String) → queued (remove s r) t ≤ queued s t
unfolding remove remove_from_tenant
queued-remove s r t = elim (Option-cases (get s.tenants r.tenant_id)) [
  | inl e ↦ rw (e, remove_from_tenant) (omega arith)
  | inr (q, e) ↦
      rw (e, remove_from_tenant)
        (ground (
          arith,
          get-delete s.tenants r.tenant_id t,
          get-set s.tenants r.tenant_id t (delete q r.id),
          size-delete_le q r.id,
          eq_iff r.tenant_id t,
        ))
]

-- Forgetting a bucket that is full again changes what nothing is worth.
pub remove-Shrinks :
    {limit : BucketLimit} (s : BucketStore) (r : BucketRecord) (now : ℕ)
    → get s.all r.id ≡ some r
    → millis limit.burst ≤ level r.state now
    → Shrinks limit now s (remove s r)
remove-Shrinks {limit} s r now held full = record {
  absent = λ k e. ground (arith, get-remove s r k);
  fewer = unfold remove in size-delete_le s.all r.id;
  shorter = λ t. queued-remove s r t;
  cheaper = λ k. ground (arith, get-remove s r k, eq_iff r.id k);
}
