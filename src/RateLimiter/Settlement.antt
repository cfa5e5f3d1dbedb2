-- ===== src/RateLimiter/Settlement.antt =====
-- src/services/rateLimiter.ts: the deduction of an admitted request, in one lane.
use poolstatis.Common.{
  ℕ, ◌+◌, ◌-◌, ◌≤◌, ◌<◌, ◌≡◌, refl, inl, inr, none, some, String, [], get, set, size, get-set,
  size-set_le, str_eq, eq_iff, arith, Option-cases, if◌then◌else◌,
}
use poolstatis.RateLimiter.Bucket.{BucketLimit, BucketState, millis, level, refill}
use poolstatis.RateLimiter.Store.{
  key, project, BucketRecord, BucketStore, Capacity, put_state, tenant_queue, insert,
}
use poolstatis.RateLimiter.Consume.{
  LaneLimits, Request, Reply, allowed, Lane, Grant, refused, granted, spend, settle, key_of,
  project_of, settle_both, charge_key, charge,
}
use poolstatis.RateLimiter.Invariant.{IsBucket, put_state-IsValid, get-put_state, tenants-put_state}
use poolstatis.RateLimiter.Entries.{insert-IsValid, get-insert}
use poolstatis.RateLimiter.Shrink.{Shrinks, Shrinks-trans, queued, size-put_state, worth}
use poolstatis.RateLimiter.Admission.{
  IsFine, Grants, Admits, admit-Admits, touch-IsFine, touch-Shrinks,
}

level-spend :
    (b : BucketState) (cost now : ℕ)
    → now ≤ b.refilled_at
    → level (spend b cost) now ≡ b.tokens - millis cost
unfolding refill
level-spend b cost now h = ground arith

spend-IsBucket :
    {limit : BucketLimit} {b : BucketState} (cost : ℕ)
    → IsBucket limit b
    → IsBucket limit (spend b cost)
spend-IsBucket cost h = record { limited = h.limited; within = omega (arith, h.within) }

queued-insert :
    (s : BucketStore) (id tenant_id t : String) (state : BucketState)
    → queued (insert s id tenant_id state) t
      ≤ (if str_eq tenant_id t then queued s t + 1 else queued s t)
unfolding insert tenant_queue
queued-insert s id tenant_id t state = elim (Option-cases (get s.tenants tenant_id)) [
  | inl e ↦
      rw (e, tenant_queue)
        (ground (
          arith,
          get-set s.tenants tenant_id t (set [] id tt),
          size-set_le {V = Unit {0}} [] id tt,
          eq_iff tenant_id t,
        ))
  | inr (q, e) ↦
      rw (e, tenant_queue)
        (ground (
          arith,
          get-set s.tenants tenant_id t (set q id tt),
          size-set_le q id tt,
          eq_iff tenant_id t,
        ))
]

size-insert :
    (s : BucketStore) (id tenant_id : String) (state : BucketState)
    → size (insert s id tenant_id state).all ≤ size s.all + 1
unfolding insert
size-insert s id tenant_id state = size-set_le s.all id _

-- A store after the bucket under an id has paid: every id is worth no more than before, and this one
-- less by the price.
pub record Pays (c : Capacity) (limit : BucketLimit) (id : String) (price now : ℕ)
    (s s' : BucketStore) : Type 0 where
  pub fine : IsFine c limit s'
  pub debt :
      (k : String)
      → worth limit now (get s'.all k) + (if str_eq id k then price else 0)
        ≤ worth limit now (get s.all k)

module _ {c : Capacity} {limit : BucketLimit} {cost now : ℕ} {s : BucketStore} (id t : String)
    (b : BucketState) (h : IsFine c limit s) (g : Grants c limit id t cost now s b) where
  insert-Pays :
      get s.all id ≡ none → Pays c limit id (millis cost) now s (insert s id t (spend b cost))
  insert-Pays e = record {
    fine = record {
      valid = insert-IsValid id t (spend b cost) h.valid e (spend-IsBucket cost g.bucket);
      bounded = record {
        entries = omega (arith, size-insert s id t (spend b cost), g.room e);
        tenants = λ t'. ground (
          arith,
          queued-insert s id t t' (spend b cost),
          eq_iff t t',
          g.tenant_room e,
          h.bounded.tenants t',
        );
      };
    };
    debt = λ k. ground (
      arith,
      get-insert s id k t (spend b cost),
      eq_iff id k,
      level-spend b cost now g.current,
      g.pays,
      g.owned,
    );
  }

  put_state-Pays :
      {r : BucketRecord}
      → get s.all id ≡ some r
      → Pays c limit id (millis cost) now s (put_state s id (spend b cost))
  put_state-Pays {r} e = record {
    fine = record {
      valid = put_state-IsValid id (spend b cost) h.valid (spend-IsBucket cost g.bucket);
      bounded = record {
        entries = omega (arith, size-put_state s id (spend b cost), h.bounded.entries);
        tenants = λ t'. ground (arith, tenants-put_state s id (spend b cost), h.bounded.tenants t');
      };
    };
    debt = λ k. ground (
      arith,
      get-put_state s id k (spend b cost),
      eq_iff id k,
      level-spend b cost now g.current,
      g.pays,
      g.owned,
    );
  }

  settle-Pays : Pays c limit id (millis cost) now s (settle s id t cost b)
  unfolding settle
  settle-Pays = elim (Option-cases (get s.all id)) [
    | inl e ↦ rw (e, settle) (insert-Pays e)
    | inr (r, e) ↦ rw (e, settle) (put_state-Pays e)
  ]

-- What a reply has taken from a bucket.
abbrev pub paid : Reply → ℕ → ℕ
paid (allowed _) cost = millis cost
paid _ cost = 0

-- A step that takes nothing.
Shrinks-Pays :
    {c : Capacity} {limit : BucketLimit} {now : ℕ} {s s' : BucketStore} (id : String)
    → Shrinks limit now s s'
    → IsFine c limit s'
    → Pays c limit id 0 now s s'
Shrinks-Pays id h f = record { fine = f; debt = λ k. ground (arith, h.cheaper k) }

Pays-after :
    {c : Capacity} {limit : BucketLimit} {id : String} {price now : ℕ} {s t u : BucketStore}
    → Shrinks limit now s t
    → Pays c limit id price now t u
    → Pays c limit id price now s u
Pays-after h p = record { fine = p.fine; debt = λ k. omega (arith, h.cheaper k, p.debt k) }

-- What a charge does to the two stores of a lane.
pub record Charges (c : Capacity) (limits : LaneLimits) (r : Request) (now : ℕ) (lane : Lane)
    (o : Lane × Reply) : Type 0 where
  pub keys : Pays c limits.key (key_of r) (paid o.1 r.cost) now lane.key o.0.key
  pub projects : Pays c limits.project (project_of r) (paid o.1 r.cost) now lane.project o.0.project

module _ {c : Capacity} {limits : LaneLimits} {r : Request} {now : ℕ} {lane : Lane}
    {keys : BucketStore} (ks : Shrinks limits.key now lane.key keys)
    (kf : IsFine c limits.key keys) where
  settle_both-Charges :
      (projects : BucketStore) (b : BucketState) (o : BucketStore × Grant)
      → Shrinks limits.project now lane.project projects
      → IsFine c limits.project projects
      → Grants c limits.project (project_of r) r.tenant_id r.cost now projects b
      → Admits c limits.key (key_of r) r.tenant_id r.cost now keys o
      → Charges c limits r now lane (settle_both limits r projects b o)
  unfolding settle_both
  settle_both-Charges projects b (keys', refused e) ps pf pg ka = record {
    keys = Shrinks-Pays (key_of r) (Shrinks-trans ks ka.shrinks) ka.fine;
    projects = Shrinks-Pays (project_of r) ps pf;
  }
  settle_both-Charges projects b (keys', granted kb) ps pf pg ka = record {
    keys =
        Pays-after (Shrinks-trans ks ka.shrinks)
          (settle-Pays (key_of r) r.tenant_id kb ka.fine (ka.grants kb refl));
    projects = Pays-after ps (settle-Pays (project_of r) r.tenant_id b pf pg);
  }

  charge_key-Charges :
      (o : BucketStore × Grant) {projects : BucketStore}
      → Shrinks limits.project now lane.project projects
      → Admits c limits.project (project_of r) r.tenant_id r.cost now projects o
      → 0 < c.max_entries
      → 0 < c.max_entries_per_tenant
      → Charges c limits r now lane (charge_key c limits r now keys o)
  unfolding charge_key
  charge_key-Charges (projects', refused e) ps pa p q = record {
    keys = Shrinks-Pays (key_of r) ks kf;
    projects = Shrinks-Pays (project_of r) (Shrinks-trans ps pa.shrinks) pa.fine;
  }
  charge_key-Charges (projects', granted b) ps pa p q =
      settle_both-Charges projects' b _ (Shrinks-trans ps pa.shrinks) pa.fine (pa.grants b refl)
        (admit-Admits key limits.key (key_of r) r.tenant_id r.cost now kf p q)

-- A charge keeps both stores within their bounds, and what it grants is paid by both buckets.
pub charge-Charges :
    (c : Capacity) (limits : LaneLimits) (r : Request) (now : ℕ) (lane : Lane)
    → 0 < c.max_entries
    → 0 < c.max_entries_per_tenant
    → IsFine c limits.key lane.key
    → IsFine c limits.project lane.project
    → Charges c limits r now lane (charge c limits r now lane)
unfolding charge
charge-Charges c limits r now lane p q kf pf =
    charge_key-Charges (touch-Shrinks lane.key (key_of r) now kf.valid)
      (touch-IsFine (key_of r) now kf) _ (touch-Shrinks lane.project (project_of r) now pf.valid)
      (admit-Admits project limits.project (project_of r) r.tenant_id r.cost now
        (touch-IsFine (project_of r) now pf) p q)
      p q
