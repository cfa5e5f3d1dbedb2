-- ===== src/RateLimiter/Consume.antt =====
-- src/services/rateLimiter.ts: `consume`, from the request to the decision.
use Prim.Native.String.{◌++◌}
use poolstatis.Common.{
  ℕ, ◌+◌, ◌-◌, ◌/◌, Bool, true, ◌&&◌, Option, none, some, String, get, size, min, ltb, leb, ◌==◌,
  if◌then◌else◌,
}
use poolstatis.RateLimiter.Bucket.{
  BucketLimit, BucketState, fresh_bucket, millis, refill, retry_delay,
}
use poolstatis.RateLimiter.Store.{
  Scope, key, project, BucketStore, store, Capacity, Exceeded, put_state, touch, insert,
  ensure_room,
}

pub data LaneName : Type 0 where
  ingest api : LaneName

pub record LaneLimits : Type 0 where
  pub key : BucketLimit
  pub project : BucketLimit

pub record Options : Type 0 where
  pub ingest : LaneLimits
  pub api : LaneLimits
  pub capacity : Capacity

pub record Request : Type 0 where
  pub lane : LaneName
  pub tenant_id : String
  pub key_id : String
  pub project_id : String
  pub cost : ℕ

pub record Decision : Type 0 where
  pub limit : ℕ
  pub remaining : ℕ

-- A return, the thrown `RateLimitExceeded`, and the thrown `Error` for a cost that is not positive.
pub data Reply : Type 0 where
  allowed : Decision → Reply
  exceeded : Exceeded → Reply
  bad_cost : Reply

-- The two stores of one lane.
pub record Lane : Type 0 where
  pub key : BucketStore
  pub project : BucketStore

pub record Limiter : Type 0 where
  pub ingest : Lane
  pub api : Lane

abbrev pub new : Limiter
new = record {
  ingest = record { key = store; project = store };
  api = record { key = store; project = store };
}

pub data Grant : Type 0 where
  refused : Exceeded → Grant
  granted : BucketState → Grant

unfoldable pub judge : Scope → BucketLimit → ℕ → BucketState → Grant
judge scope limit cost bucket =
    if ltb bucket.tokens (millis cost)
    then refused (record {
      scope = scope;
      retry_after_ms = retry_delay cost bucket.tokens limit.rate_per_second;
    })
    else granted bucket

unfoldable pub admit_fresh :
    Scope → BucketLimit → ℕ → ℕ → BucketStore × Option Exceeded → BucketStore × Grant
admit_fresh scope limit cost now (s, some e) = (s, refused e)
admit_fresh scope limit cost now (s, none) =
    (s, judge scope limit cost (refill (fresh_bucket limit now) now true))

-- One scope of `consume`: the bucket that is there, refilled, or a fresh one for which there is room.
unfoldable pub admit :
    Capacity → Scope → BucketLimit → String → String → ℕ → ℕ → BucketStore → BucketStore × Grant
unfolding judge admit_fresh
admit c scope limit id tenant_id cost now s = elim (get s.all id) [
  | none ↦ admit_fresh scope limit cost now (ensure_room c scope now tenant_id s)
  | some r ↦
      (put_state s id (refill r.state now true), judge scope limit cost (refill r.state now true))
]

-- `bucket.tokens -= cost`
abbrev pub spend : BucketState → ℕ → BucketState
spend bucket cost = record bucket { tokens = bucket.tokens - millis cost }

-- The insertion of a fresh bucket, and the deduction. `ensureRoom` only removes records, and runs
-- only where there is none under the id, so the test here has the answer of `existing`.
unfoldable pub settle : BucketStore → String → String → ℕ → BucketState → BucketStore
settle s id tenant_id cost bucket = elim (get s.all id) [
  | none ↦ insert s id tenant_id (spend bucket cost)
  | some _ ↦ put_state s id (spend bucket cost)
]

abbrev pub key_of : Request → String
key_of r = r.tenant_id ++ ":" ++ r.key_id

abbrev pub project_of : Request → String
project_of r = r.tenant_id ++ ":" ++ r.project_id

unfoldable pub settle_both :
    LaneLimits → Request → BucketStore → BucketState → BucketStore × Grant → Lane × Reply
settle_both limits r projects project_bucket (keys, refused e) =
    (record { key = keys; project = projects }, exceeded e)
settle_both limits r projects project_bucket (keys, granted key_bucket) = (
  record {
    key = settle keys (key_of r) r.tenant_id r.cost key_bucket;
    project = settle projects (project_of r) r.tenant_id r.cost project_bucket;
  },
  allowed (record {
    limit = min limits.key.burst limits.project.burst;
    remaining = min (spend key_bucket r.cost).tokens (spend project_bucket r.cost).tokens / 1000;
  }),
)

unfoldable pub charge_key :
    Capacity → LaneLimits → Request → ℕ → BucketStore → BucketStore × Grant → Lane × Reply
unfolding settle_both
charge_key c limits r now keys (projects, refused e) =
    (record { key = keys; project = projects }, exceeded e)
charge_key c limits r now keys (projects, granted bucket) =
    settle_both limits r projects bucket
      (admit c key limits.key (key_of r) r.tenant_id r.cost now keys)

unfoldable pub charge : Capacity → LaneLimits → Request → ℕ → Lane → Lane × Reply
unfolding charge_key
charge c limits r now lane = charge_key c limits r now (touch lane.key (key_of r) now) (
    admit c project limits.project (project_of r) r.tenant_id r.cost now
      (touch lane.project (project_of r) now))

abbrev pub limits_of : Options → LaneName → LaneLimits
limits_of o ingest = o.ingest
limits_of o api = o.api

abbrev pub lane_of : Limiter → LaneName → Lane
lane_of l ingest = l.ingest
lane_of l api = l.api

abbrev pub with_lane : Limiter → LaneName → Lane → Limiter
with_lane l ingest lane = record l { ingest = lane }
with_lane l api lane = record l { api = lane }

unfoldable pub consume : Options → Request → ℕ → Limiter → Limiter × Reply
consume o r now l =
    if r.cost == 0
    then (l, bad_cost)
    else if ltb (limits_of o r.lane).key.burst r.cost
    then (l, exceeded (record { scope = key; retry_after_ms = 0 }))
    else if ltb (limits_of o r.lane).project.burst r.cost
    then (l, exceeded (record { scope = project; retry_after_ms = 0 }))
    else (let (lane, reply) = charge o.capacity (limits_of o r.lane) r now (lane_of l r.lane) in
        (with_lane l r.lane lane, reply))

-- `validateOptions`, as far as whole numbers can fail it.
valid_limit : BucketLimit → Bool
valid_limit limit = ltb 0 limit.rate_per_second && ltb 0 limit.burst

unfoldable pub validate_options : Options → Bool
unfolding valid_limit
validate_options o =
    ltb 0 o.capacity.max_entries
    && (ltb 0 o.capacity.max_entries_per_tenant
        && (leb o.capacity.max_entries_per_tenant o.capacity.max_entries
            && (ltb 0 o.capacity.idle_ttl_ms
                && (valid_limit o.ingest.key
                    && (valid_limit o.ingest.project
                        && (valid_limit o.api.key && valid_limit o.api.project))))))

-- `get size()`
unfoldable pub live : Limiter → ℕ
live l =
    size l.ingest.key.all
    + size l.ingest.project.all
    + (size l.api.key.all + size l.api.project.all)
