-- ===== src/RateLimiter/Room.antt =====
-- src/services/rateLimiter.ts: `ensureRoom` throws or makes room, for the tenant and in all.
use poolstatis.Common.{
  ℕ, ◌≤◌, ◌<◌, ◌≡◌, refl, inl, inr, Option, none, some, String, get, size, first, get-first,
  first-cases, arith, leb, Option-cases, if_elim,
}
use poolstatis.RateLimiter.Bucket.{BucketLimit}
use poolstatis.RateLimiter.Store.{
  Scope, BucketRecord, Queue, BucketStore, Capacity, Exceeded, Outcome, evict_record,
  evict_recovered_oldest, oldest_of_queue, oldest_of_all, tenant_room, global_room, ensure_room,
}
use poolstatis.RateLimiter.Invariant.{get-id, IsValid, owner-some, listed}
use poolstatis.RateLimiter.Shrink.{Shrinks, Shrinks-refl, Shrinks-trans, queued}
use poolstatis.RateLimiter.Eviction.{evict_record-Evicts}

-- What `ensureRoom` does for a tenant; where it returns there is room for one more record.
pub record MakesRoom (c : Capacity) (limit : BucketLimit) (now : ℕ) (t : String) (s : BucketStore)
    (o : Outcome) : Type 0 where
  pub valid : IsValid limit o.0
  pub shrinks : Shrinks limit now s o.0
  pub room : o.1 ≡ none → size o.0.all < c.max_entries
  pub tenant_room : o.1 ≡ none → queued o.0 t < c.max_entries_per_tenant

-- The bounds on the sizes of a store.
pub record IsBounded (c : Capacity) (s : BucketStore) : Type 0 where
  pub entries : size s.all ≤ c.max_entries
  pub tenants : (t : String) → queued s t ≤ c.max_entries_per_tenant

-- The room that the test on the queue of the tenant makes.
record MakesTenantRoom (c : Capacity) (limit : BucketLimit) (now : ℕ) (t : String) (s : BucketStore)
    (o : Outcome) : Type 0 where
  valid : IsValid limit o.0
  shrinks : Shrinks limit now s o.0
  room : o.1 ≡ none → queued o.0 t < c.max_entries_per_tenant

module _ (c : Capacity) (scope : Scope) (now : ℕ) {limit : BucketLimit} {s : BucketStore}
    (h : IsValid limit s) (b : IsBounded c s) where
  evict_record-MakesTenantRoom :
      (t k : String) (r : BucketRecord)
      → r.tenant_id ≡ t
      → r.id ≡ k
      → get s.all k ≡ some r
      → listed s.tenants t k ≡ some tt
      → MakesTenantRoom c limit now t s (evict_record c scope now s r)
  evict_record-MakesTenantRoom t k r mine keyed held l =
      let ev = evict_record-Evicts now r h (get-id s r keyed held) c scope in
      record {
        valid = ev.valid;
        shrinks = ev.shrinks;
        room = λ n.
            rw (← mine)
              (omega (arith, ev.freed_tenant n (rw (mine, keyed) l), b.tenants r.tenant_id));
      }

  oldest-MakesTenantRoom :
      (t : String) (queue : Queue) (k : String)
      → get s.tenants t ≡ some queue
      → first queue ≡ some (k, tt)
      → MakesTenantRoom c limit now t s
          (evict_recovered_oldest c scope now s (oldest_of_queue s queue))
  unfolding evict_recovered_oldest
  oldest-MakesTenantRoom t queue k e f =
      let l : listed s.tenants t k ≡ some tt = ground (arith, get-first queue f) in
      let (r, held, mine) = owner-some (get s.all k) (h.owned t k l) in
      unfold oldest_of_queue in
      rw (f, oldest_of_queue)
        (rw (held, evict_recovered_oldest)
          (evict_record-MakesTenantRoom t k r mine (h.records k r held).keyed held l))

  -- Where nothing has to go, the store stays as it is.
  stay-MakesTenantRoom :
      (t : String)
      → queued s t < c.max_entries_per_tenant
      → MakesTenantRoom c limit now t s (s, none)
  stay-MakesTenantRoom t short = record { valid = h; shrinks = Shrinks-refl s; room = λ _. short }

  tenant_room-MakesTenantRoom :
      (t : String)
      → 0 < c.max_entries_per_tenant
      → MakesTenantRoom c limit now t s (tenant_room c scope now t s)
  tenant_room-MakesTenantRoom t q =
      unfold tenant_room in
      elim (Option-cases (get s.tenants t)) [
        | inl e ↦ rw (e, tenant_room) (stay-MakesTenantRoom t (ground arith))
        | inr (queue, e) ↦
            rw (e, tenant_room)
              (if_elim (MakesTenantRoom c limit now t s) (leb c.max_entries_per_tenant (size queue))
                (λ full. elim (first-cases queue) [
                  | inl empty ↦ absurd (ground arith)
                  | inr (k, _, f) ↦ oldest-MakesTenantRoom t queue k e f
                ])
                (λ free. stay-MakesTenantRoom t (ground arith)))
      ]

module _ (c : Capacity) (scope : Scope) (now : ℕ) {limit : BucketLimit} (t : String)
    {s : BucketStore} (h : IsValid limit s) where
  oldest-MakesRoom :
      size s.all ≤ c.max_entries
      → queued s t < c.max_entries_per_tenant
      → 0 < size s.all
      → MakesRoom c limit now t s (evict_recovered_oldest c scope now s (oldest_of_all s))
  unfolding evict_recovered_oldest
  oldest-MakesRoom bound short some_record = elim (first-cases s.all) [
    | inl empty ↦ absurd (omega arith)
    | inr (k, r, f) ↦
        let held = get-first s.all f in
        let ev = evict_record-Evicts now r h (get-id s r (h.records k r held).keyed held) c scope in
        unfold oldest_of_all in
        rw (f, oldest_of_all)
          (record {
            valid = ev.valid;
            shrinks = ev.shrinks;
            room = λ n. omega (arith, ev.freed n);
            tenant_room = λ n. omega (arith, ev.shrinks.shorter t);
          })
  ]

  global_room-MakesRoom :
      (o : Option Exceeded)
      → 0 < c.max_entries
      → size s.all ≤ c.max_entries
      → (o ≡ none → queued s t < c.max_entries_per_tenant)
      → MakesRoom c limit now t s (global_room c scope now (s, o))
  unfolding global_room
  global_room-MakesRoom (some e) p bound short = record {
    valid = h;
    shrinks = Shrinks-refl s;
    room = λ n. absurd (cc);
    tenant_room = λ n. absurd (cc);
  }
  global_room-MakesRoom none p bound short =
      if_elim (MakesRoom c limit now t s) (leb c.max_entries (size s.all))
        (λ full. oldest-MakesRoom bound (short refl) (ground arith))
        (λ free. record {
          valid = h;
          shrinks = Shrinks-refl s;
          room = λ _. ground arith;
          tenant_room = short;
        })

pub ensure_room-MakesRoom :
    (c : Capacity) (scope : Scope) (now : ℕ) (t : String) {limit : BucketLimit} {s : BucketStore}
    → IsValid limit s
    → IsBounded c s
    → 0 < c.max_entries
    → 0 < c.max_entries_per_tenant
    → MakesRoom c limit now t s (ensure_room c scope now t s)
unfolding ensure_room
ensure_room-MakesRoom c scope now t {limit} {s} h b p q =
    let (s', o) = tenant_room c scope now t s in
    let tr = tenant_room-MakesTenantRoom c scope now h b t q in
    let gr =
      global_room-MakesRoom c scope now t tr.valid o p (omega (arith, tr.shrinks.fewer, b.entries))
        tr.room in
    record {
      valid = gr.valid;
      shrinks = Shrinks-trans tr.shrinks gr.shrinks;
      room = gr.room;
      tenant_room = gr.tenant_room;
    }
