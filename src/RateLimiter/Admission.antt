-- ===== src/RateLimiter/Admission.antt =====
-- src/services/rateLimiter.ts: one scope of `consume`, the touch of its bucket, its admission and the
-- deduction.
use poolstatis.Common.{
  ℕ, ◌≤◌, ◌<◌, ◌≡◌, refl, subst, inl, inr, Bool, true, Option, none, some, String, get, set, size,
  move_to_end, get-set, size-move_to_end_le, eq_iff, arith, Option-cases,
}
use poolstatis.RateLimiter.Bucket.{BucketLimit, BucketState, fresh_bucket, millis, level, refill}
use poolstatis.RateLimiter.Store.{
  Scope, BucketRecord, Queue, BucketStore, Capacity, Exceeded, put_state, touch, touch_record,
  touch_tenant,
}
use poolstatis.RateLimiter.Consume.{Grant, granted, judge, admit_fresh, admit}
use poolstatis.RateLimiter.Invariant.{
  IsBucket, IsValid, listed, refill-IsBucket, fresh_bucket-IsBucket, put_state-IsValid,
  get-put_state,
}
use poolstatis.RateLimiter.Touching.{touch-IsValid, get-touch, seen_at}
use poolstatis.RateLimiter.Shrink.{
  Shrinks, put_state-Shrinks, level-refill, queued, queue_size, worth,
}
use poolstatis.RateLimiter.Room.{IsBounded, MakesRoom, ensure_room-MakesRoom}

-- A valid store within its bounds.
pub record IsFine (c : Capacity) (limit : BucketLimit) (s : BucketStore) : Type 0 where
  pub valid : IsValid limit s
  pub bounded : IsBounded c s

-- Fewer records than in a store within its bounds are within them.
pub Shrinks-IsBounded :
    {c : Capacity} {limit : BucketLimit} {now : ℕ} {s s' : BucketStore}
    → Shrinks limit now s s'
    → IsBounded c s
    → IsBounded c s'
Shrinks-IsBounded h b = record {
  entries = omega (arith, h.fewer, b.entries);
  tenants = λ t. omega (arith, h.shorter t, b.tenants t);
}

touched-le :
    (s : BucketStore) (id t : String) (r : BucketRecord) (q : Queue)
    → get s.tenants r.tenant_id ≡ some q
    → listed s.tenants r.tenant_id id ≡ some tt
    → queue_size (get (set s.tenants r.tenant_id (move_to_end q id tt)) t) ≤ queued s t
touched-le s id t r q n l =
    let m : get q id ≡ some tt = ground arith in
    ground (
      arith,
      get-set s.tenants r.tenant_id t (move_to_end q id tt),
      size-move_to_end_le q id tt m,
      eq_iff r.tenant_id t,
    )

size-touch : (s : BucketStore) (id : String) (now : ℕ) → size (touch s id now).all ≤ size s.all
unfolding touch touch_record
size-touch s id now = elim (Option-cases (get s.all id)) [
  | inl e ↦ rw (e, touch) (omega arith)
  | inr (r, e) ↦ rw (e, touch) (size-move_to_end_le s.all id _ e)
]

level-seen : (b : BucketState) (now : ℕ) → level (record b { last_seen_at = now }) now ≡ level b now
unfolding refill
level-seen b now = ground arith

worth-seen :
    (limit : BucketLimit) (o : Option BucketRecord) (now : ℕ)
    → worth limit now (seen_at now o) ≡ worth limit now o
worth-seen limit none now = refl
worth-seen limit (some r) now = level-seen r.state now

queued-touch :
    {limit : BucketLimit} (s : BucketStore) (id t : String) (now : ℕ)
    → IsValid limit s
    → queued (touch s id now) t ≤ queued s t
unfolding touch touch_record touch_tenant
queued-touch s id t now h = elim (Option-cases (get s.all id)) [
  | inl e ↦ rw (e, touch) (omega arith)
  | inr (r, e) ↦ elim (Option-cases (get s.tenants r.tenant_id)) [
    | inl n ↦ rw (e, touch) (rw (n, touch_tenant) (omega arith))
    | inr (q, n) ↦
        rw (e, touch) (rw (n, touch_tenant) (touched-le s id t r q n (h.enrolled id r e)))
  ]
]

pub touch-Shrinks :
    {limit : BucketLimit} (s : BucketStore) (id : String) (now : ℕ)
    → IsValid limit s
    → Shrinks limit now s (touch s id now)
touch-Shrinks {limit} s id now h = record {
  absent = λ k e. ground (arith, get-touch s id k now);
  fewer = size-touch s id now;
  shorter = λ t. queued-touch s id t now h;
  cheaper = λ k. ground (arith, get-touch s id k now, worth-seen limit (get s.all k) now);
}

-- `touch` keeps a store valid and within its bounds.
pub touch-IsFine :
    {c : Capacity} {limit : BucketLimit} {s : BucketStore} (id : String) (now : ℕ)
    → IsFine c limit s
    → IsFine c limit (touch s id now)
touch-IsFine {s} id now h = record {
  valid = touch-IsValid id now h.valid;
  bounded = Shrinks-IsBounded (touch-Shrinks s id now h.valid) h.bounded;
}

-- What `admit` has done when it grants a bucket for an id: the bucket can pay, its tokens are those
-- that the id was worth, and a bucket that is not stored yet finds room.
pub record Grants (c : Capacity) (limit : BucketLimit) (id t : String) (cost now : ℕ)
    (s : BucketStore) (b : BucketState) : Type 0 where
  pub bucket : IsBucket limit b
  pub pays : millis cost ≤ b.tokens
  pub owned : b.tokens ≤ worth limit now (get s.all id)
  pub current : now ≤ b.refilled_at
  pub room : get s.all id ≡ none → size s.all < c.max_entries
  pub tenant_room : get s.all id ≡ none → queued s t < c.max_entries_per_tenant

pub record Admits (c : Capacity) (limit : BucketLimit) (id t : String) (cost now : ℕ)
    (s : BucketStore) (o : BucketStore × Grant) : Type 0 where
  pub fine : IsFine c limit o.0
  pub shrinks : Shrinks limit now s o.0
  pub grants : (b : BucketState) → o.1 ≡ granted b → Grants c limit id t cost now o.0 b

refill_current : (b : BucketState) (now : ℕ) (seen : Bool) → now ≤ (refill b now seen).refilled_at
unfolding refill
refill_current b now seen = ground arith

judge-granted :
    (scope : Scope) (limit : BucketLimit) (cost : ℕ) (b b' : BucketState)
    → judge scope limit cost b ≡ granted b'
    → (b ≡ b') × (millis cost ≤ b.tokens)
unfolding judge
judge-granted scope limit cost b b' h = ground arith

refill_fresh :
    (limit : BucketLimit) (now : ℕ)
    → refill (fresh_bucket limit now) now true ≡ fresh_bucket limit now
unfolding refill fresh_bucket
refill_fresh limit now = ground arith

module _ {c : Capacity} {limit : BucketLimit} {id t : String} {cost now : ℕ} {s : BucketStore} where
  judged :
      (scope : Scope) (b b' : BucketState)
      → judge scope limit cost b ≡ granted b'
      → (millis cost ≤ b.tokens → Grants c limit id t cost now s b)
      → Grants c limit id t cost now s b'
  judged scope b b' j g =
      let (same, pays) = judge-granted scope limit cost b b' j in
      subst (Grants c limit id t cost now s) same (g pays)

  fresh-Grants :
      get s.all id ≡ none
      → size s.all < c.max_entries
      → queued s t < c.max_entries_per_tenant
      → millis cost ≤ (fresh_bucket limit now).tokens
      → Grants c limit id t cost now s (fresh_bucket limit now)
  fresh-Grants e big long pays = record {
    bucket = fresh_bucket-IsBucket limit now;
    pays = pays;
    owned = unfold fresh_bucket in rw e (omega arith);
    current = unfold fresh_bucket in (omega arith);
    room = λ _. big;
    tenant_room = λ _. long;
  }

module _ {c : Capacity} (scope : Scope) (limit : BucketLimit) (id t : String) (cost now : ℕ)
    {s : BucketStore} (h : IsFine c limit s) (p : 0 < c.max_entries)
    (q : 0 < c.max_entries_per_tenant) where
  admit_fresh-Admits :
      (o : BucketStore × Option Exceeded)
      → MakesRoom c limit now t s o
      → get s.all id ≡ none
      → Admits c limit id t cost now s (admit_fresh scope limit cost now o)
  unfolding admit_fresh
  admit_fresh-Admits (s', some e) m n = record {
    fine = record { valid = m.valid; bounded = Shrinks-IsBounded m.shrinks h.bounded };
    shrinks = m.shrinks;
    grants = λ b g. absurd (cc);
  }
  admit_fresh-Admits (s', none) m n = record {
    fine = record { valid = m.valid; bounded = Shrinks-IsBounded m.shrinks h.bounded };
    shrinks = m.shrinks;
    grants = λ b g.
        judged {t = t} scope (fresh_bucket limit now) b (rw (refill_fresh limit now) at g)
          (fresh-Grants (m.shrinks.absent id n) (m.room refl) (m.tenant_room refl));
  }

  admit_old-Admits :
      (r : BucketRecord)
      → get s.all id ≡ some r
      → Admits c limit id t cost now s (
        put_state s id (refill r.state now true),
        judge scope limit cost (refill r.state now true),
      )
  admit_old-Admits r e =
      let state = refill r.state now true in
      let b = refill-IsBucket now true (h.valid.records id r e).bucket in
      let shrunk = put_state-Shrinks {limit = limit} s id r now true e in
      let e' : get (put_state s id state).all id ≡ some (record r { state = state }) =
        ground (arith, get-put_state s id id state, eq_iff id id) in
      record {
        fine = record {
          valid = put_state-IsValid id state h.valid b;
          bounded = Shrinks-IsBounded shrunk h.bounded;
        };
        shrinks = shrunk;
        grants = λ b' g. judged {t = t} scope state b' g (λ pays. record {
          bucket = b;
          pays = pays;
          owned = rw e' (omega (arith, level-refill r.state now true));
          current = refill_current r.state now true;
          room = λ n. absurd (cc);
          tenant_room = λ n. absurd (cc);
        });
      }

  pub admit-Admits : Admits c limit id t cost now s (admit c scope limit id t cost now s)
  unfolding admit
  admit-Admits = elim (Option-cases (get s.all id)) [
    | inl e ↦
        rw (e, admit)
          (admit_fresh-Admits _ (ensure_room-MakesRoom c scope now t h.valid h.bounded p q) e)
    | inr (r, e) ↦ rw (e, admit) (admit_old-Admits r e)
  ]
