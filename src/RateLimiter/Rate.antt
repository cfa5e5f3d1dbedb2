-- ===== src/RateLimiter/Rate.antt =====
-- src/services/rateLimiter.ts: what holds of `consume` over any sequence of calls.
use poolstatis.Common.{
  ℕ, ◌+◌, ◌-◌, ◌*◌, ◌≤◌, ◌<◌, ◌≡◌, inl, inr, true, String, List, [], ◌∷◌, get, get-nil, ap, arith,
  Option-cases,
}
use native.Mathlib.Nat.{mul-le-mul_right}
use poolstatis.RateLimiter.Bucket.{BucketLimit, BucketState, level, refill}
use poolstatis.RateLimiter.Store.{Queue, store, Scope, key, project, BucketRecord, Capacity}
use poolstatis.RateLimiter.Consume.{
  LaneName, ingest, api, Options, Request, Limiter, new, consume, validate_options, live,
}
use poolstatis.RateLimiter.Invariant.{IsBucket}
use poolstatis.RateLimiter.Admission.{IsFine}
use poolstatis.RateLimiter.Sound.{limit_of, store_of, IsSound, tokens_of, charged, consume-Consumes}

elapsed_mul : (a b c r : ℕ) → (a - c) * r ≤ (b - c) * r + (a - b) * r
elapsed_mul a b c r =
    let e : a - c ≤ b - c + (a - b) = omega arith in
    let m : (a - c) * r ≤ (b - c + (a - b)) * r = mul-le-mul_right r e in omega (arith, m)

level_grows :
    (b : BucketState) (now later : ℕ)
    → now ≤ later
    → level b later ≤ level b now + (later - now) * b.limit.rate_per_second
unfolding refill
level_grows b now later le =
    ground (arith, elapsed_mul later now b.refilled_at b.limit.rate_per_second)

worth_grows :
    (limit : BucketLimit) (b : BucketState) (now later : ℕ)
    → IsBucket limit b
    → now ≤ later
    → level b later ≤ level b now + (later - now) * limit.rate_per_second
worth_grows limit b now later h le = rw (← h.limited) (level_grows b now later le)

-- A call with its time, and the limiter after a sequence of calls.
abbrev pub Call : Type 0
Call = Request × ℕ

pub run : Options → List Call → Limiter → Limiter
run o [] l = l
run o ((r, now) ∷ calls) l = run o calls (consume o r now l).0

-- All that a sequence of calls takes from the bucket of an id.
pub taken : Options → LaneName → Scope → String → List Call → Limiter → ℕ
taken o n scope id [] l = 0
taken o n scope id ((r, now) ∷ calls) l =
    let (l', reply) = consume o r now l in charged r reply n scope id + taken o n scope id calls l'

-- The times do not fall, from the first on, and the time of the last call.
abbrev pub Ordered : ℕ → List Call → Type 0
Ordered start [] = Unit
Ordered start ((r, now) ∷ calls) = (start ≤ now) × Ordered now calls

abbrev pub finish : ℕ → List Call → ℕ
finish start [] = start
finish start ((r, now) ∷ calls) = finish now calls

-- Any calls, at whatever times, keep every store sound: records stand under their ids, each in the queue
-- of its tenant and nowhere else, under the limit of its scope and with no more tokens than the burst, and
-- both size limits hold. The configured sizes must be positive.
pub IsSound-run :
    (o : Options) (calls : List Call) (l : Limiter)
    → 0 < o.capacity.max_entries
    → 0 < o.capacity.max_entries_per_tenant
    → IsSound o l
    → IsSound o (run o calls l)
unfolding run
IsSound-run o [] l p q h = h
IsSound-run o ((r, now) ∷ calls) l p q h =
    IsSound-run o calls (consume o r now l).0 p q (consume-Consumes o r now l p q h).sound

tokens_grow :
    (o : Options) (l : Limiter) (n : LaneName) (scope : Scope) (id : String) (now later : ℕ)
    → IsSound o l
    → now ≤ later
    → tokens_of o l n scope id later
      ≤ tokens_of o l n scope id now + (later - now) * (limit_of o n scope).rate_per_second
tokens_grow o l n scope id now later h le = elim (Option-cases (get (store_of l n scope).all id)) [
  | inl e ↦ rw e (omega arith)
  | inr (b, e) ↦ rw e (
      worth_grows (limit_of o n scope) b.state now later
        ((h.fine n scope).valid.records id b e).bucket le)
]

start-le-finish : (start : ℕ) (calls : List Call) → Ordered start calls → start ≤ finish start calls
start-le-finish start [] h = omega arith
start-le-finish start ((r, now) ∷ calls) h = omega (arith, h.0, start-le-finish now calls h.1)

split_window : (a b c rate : ℕ) → a ≤ b → b ≤ c → (b - a) * rate + (c - b) * rate ≡ (c - a) * rate
split_window a b c rate h k =
    let e : b - a + (c - b) ≡ c - a = omega arith in
    let m : (b - a + (c - b)) * rate ≡ (c - a) * rate = ap (λ (t : ℕ). t * rate) e in
    omega (arith, m)

-- Over any calls at times that do not fall, the cost granted to one API key or one project is at most
-- what its bucket was worth at the start and what its rate adds until the last call, whatever other
-- keys, projects and tenants do in between and whichever buckets are evicted.
pub taken-le :
    (o : Options) (n : LaneName) (scope : Scope) (id : String) (start : ℕ) (calls : List Call)
    (l : Limiter)
    → 0 < o.capacity.max_entries
    → 0 < o.capacity.max_entries_per_tenant
    → IsSound o l
    → Ordered start calls
    → taken o n scope id calls l
      ≤ tokens_of o l n scope id start
        + (finish start calls - start) * (limit_of o n scope).rate_per_second
unfolding taken
taken-le o n scope id start [] l p q h ord = omega arith
taken-le o n scope id start ((r, now) ∷ calls) l p q h ord =
    let (l', reply) = consume o r now l in
    let c = consume-Consumes o r now l p q h in
    let rate = (limit_of o n scope).rate_per_second in
    omega (
      arith,
      c.debt n scope id,
      tokens_grow o l n scope id start now h ord.0,
      taken-le o n scope id now calls l' p q c.sound ord.1,
      split_window start now (finish now calls) rate ord.0 (start-le-finish now calls ord.1),
    )

IsFine-store : (c : Capacity) (limit : BucketLimit) → IsFine c limit store
IsFine-store c limit = record {
  valid = record {
    records = λ k r e. cc (get-nil {V = BucketRecord} k);
    enrolled = λ k r e. cc (get-nil {V = BucketRecord} k);
    owned = λ t k m. cc (get-nil {V = Queue} t);
  };
  bounded = record { entries = omega arith; tenants = λ t. ground (arith, get-nil {V = Queue} t) };
}

-- A new limiter has no records.
pub IsSound-new : (o : Options) → IsSound o new
IsSound-new o = record { fine = fine }
  where
    fine :
        (n : LaneName) (scope : Scope)
        → IsFine o.capacity (limit_of o n scope) (store_of new n scope)
    fine ingest key = IsFine-store o.capacity o.ingest.key
    fine ingest project = IsFine-store o.capacity o.ingest.project
    fine api key = IsFine-store o.capacity o.api.key
    fine api project = IsFine-store o.capacity o.api.project

-- After any calls on a new limiter, at whatever times, the limiter holds at most four times the
-- configured number of records.
pub live-run-le :
    (o : Options) (calls : List Call)
    → validate_options o ≡ true
    → live (run o calls new) ≤ 4 * o.capacity.max_entries
unfolding live validate_options
live-run-le o calls v =
    let h = IsSound-run o calls new (ground arith) (ground arith) (IsSound-new o) in
    omega (
      arith,
      (h.fine ingest key).bounded.entries,
      (h.fine ingest project).bounded.entries,
      (h.fine api key).bounded.entries,
      (h.fine api project).bounded.entries,
    )
