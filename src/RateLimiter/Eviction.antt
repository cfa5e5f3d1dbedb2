-- ===== src/RateLimiter/Eviction.antt =====
-- src/services/rateLimiter.ts: the eviction of one bucket, which throws unless it is idle and full.
use poolstatis.Common.{
  ℕ, ◌-◌, ◌||◌, not, ltb, ◌≤◌, ◌<◌, ◌≡◌, inl, inr, Bool, true, false, Option, none, some, get,
  delete, size, get-set, get-delete, size-delete_lt, arith, leb, Option-cases, if_elim, eq_iff,
}
use poolstatis.RateLimiter.Bucket.{BucketLimit, BucketState, millis, level, refill}
use poolstatis.RateLimiter.Store.{
  Scope, BucketRecord, BucketStore, Capacity, Exceeded, Outcome, put_state, remove,
  remove_from_tenant, evict_record,
}
use poolstatis.RateLimiter.Invariant.{
  IsBucket, IsValid, in_queue, listed, refill-IsBucket, put_state-IsValid, get-put_state,
  tenants-put_state,
}
use poolstatis.RateLimiter.Entries.{remove-IsValid}
use poolstatis.RateLimiter.Shrink.{
  Shrinks, Shrinks-trans, put_state-Shrinks, remove-Shrinks, queued,
}

-- A record that the store holds under its id.
abbrev pub Held : BucketStore → Option BucketRecord → Type 0
Held s none = Unit
Held s (some r) = get s.all r.id ≡ some r

refill_recovered :
    {limit : BucketLimit} (b : BucketState) (now : ℕ)
    → IsBucket limit b
    → leb (millis (refill b now false).limit.burst) (refill b now false).tokens ≡ true
    → millis limit.burst ≤ level (refill b now false) now
unfolding refill
refill_recovered b now h full = ground arith

get-put_self :
    (s : BucketStore) (r : BucketRecord) (state : BucketState)
    → get s.all r.id ≡ some r
    → get (put_state s r.id state).all r.id ≡ some (record r { state = state })
get-put_self s r state held = ground (arith, get-put_state s r.id r.id state, eq_iff r.id r.id)

size-remove_lt :
    (s : BucketStore) (r : BucketRecord)
    → get s.all r.id ≡ some r
    → size (remove s r).all < size s.all
unfolding remove
size-remove_lt s r held = size-delete_lt s.all r.id held

queued-remove_lt :
    (s : BucketStore) (r : BucketRecord)
    → listed s.tenants r.tenant_id r.id ≡ some tt
    → queued (remove s r) r.tenant_id < queued s r.tenant_id
unfolding remove remove_from_tenant
queued-remove_lt s r = elim (Option-cases (get s.tenants r.tenant_id)) [
  | inl e ↦ rw (e, remove_from_tenant, in_queue) (λ l. cc)
  | inr (q, e) ↦
      rw (e, remove_from_tenant)
        (λ l. ground (
          arith,
          get-delete s.tenants r.tenant_id r.tenant_id,
          get-set s.tenants r.tenant_id r.tenant_id (delete q r.id),
          size-delete_lt q r.id l,
          eq_iff r.tenant_id r.tenant_id,
        ))
]

recovered_of_kept : (busy recovered : Bool) → (busy || not recovered) ≡ false → recovered ≡ true
recovered_of_kept busy recovered h = ground arith

-- What an eviction does: it throws or makes room, keeps the store valid, and loses no debt.
pub record Evicts (limit : BucketLimit) (now : ℕ) (s : BucketStore) (r : BucketRecord) (o : Outcome)
    : Type 0 where
  pub valid : IsValid limit o.0
  pub shrinks : Shrinks limit now s o.0
  pub freed : o.1 ≡ none → size o.0.all < size s.all
  pub freed_tenant :
      o.1 ≡ none
      → listed s.tenants r.tenant_id r.id ≡ some tt
      → queued o.0 r.tenant_id < queued s r.tenant_id

module _ {limit : BucketLimit} {s : BucketStore} (now : ℕ) (r : BucketRecord) (h : IsValid limit s)
    (held : get s.all r.id ≡ some r) where
  abbrev kept : BucketStore
  kept = put_state s r.id (refill r.state now false)

  abbrev refilled : BucketRecord
  refilled = record r { state = refill r.state now false }

  kept-IsValid : IsValid limit kept
  kept-IsValid =
      put_state-IsValid r.id _ h (refill-IsBucket now false (h.records r.id r held).bucket)

  kept-Shrinks : Shrinks limit now s kept
  kept-Shrinks = put_state-Shrinks s r.id r now false held

  get-kept : get kept.all r.id ≡ some refilled
  get-kept = get-put_self s r (refill r.state now false) held

  refused-Evicts : (e : Exceeded) → Evicts limit now s r (kept, some e)
  refused-Evicts e = record {
    valid = kept-IsValid;
    shrinks = kept-Shrinks;
    freed = λ n. absurd (cc);
    freed_tenant = λ n. absurd (cc);
  }

  removed-Evicts :
      leb (millis (refill r.state now false).limit.burst) (refill r.state now false).tokens ≡ true
      → Evicts limit now s r (remove kept refilled, none)
  removed-Evicts full = record {
    valid = remove-IsValid refilled kept-IsValid (rw get-kept);
    shrinks = Shrinks-trans kept-Shrinks (
        remove-Shrinks kept refilled now get-kept
          (refill_recovered r.state now (h.records r.id r held).bucket full));
    freed = λ _. omega (arith, size-remove_lt kept refilled get-kept, kept-Shrinks.fewer);
    freed_tenant = λ _ l.
        let same : kept.tenants ≡ s.tenants = tenants-put_state s r.id (refill r.state now false) in
        omega (arith, kept-Shrinks.shorter r.tenant_id, queued-remove_lt kept refilled (rw same l));
  }

  pub evict_record-Evicts :
      (c : Capacity) (scope : Scope) → Evicts limit now s r (evict_record c scope now s r)
  unfolding evict_record
  evict_record-Evicts c scope =
      if_elim (Evicts limit now s r) _ (λ _. refused-Evicts _)
        (λ out.
          removed-Evicts (recovered_of_kept (ltb (now - r.state.last_seen_at) c.idle_ttl_ms) _ out))
