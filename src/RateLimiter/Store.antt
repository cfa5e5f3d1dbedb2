-- ===== src/RateLimiter/Store.antt =====
-- src/services/rateLimiter.ts: the buckets of one lane and scope, in the order of their last use.
-- The records of `all` are the objects that the queues of `tenants` share, so a queue holds the ids
-- alone and a record is read through `all`.
use poolstatis.Common.{
  ℕ, ◌-◌, false, not, ◌||◌, Option, none, some, String, [], Map, get, set, delete, move_to_end,
  size, first, max, ltb, leb, ◌==◌, if◌then◌else◌,
}
use poolstatis.RateLimiter.Bucket.{BucketState, millis, refill, retry_delay}

pub data Scope : Type 0 where
  key project : Scope

pub record BucketRecord : Type 0 where
  pub id : String
  pub tenant_id : String
  pub state : BucketState

abbrev pub Queue : Type 0
Queue = Map (Unit {0})

pub record BucketStore : Type 0 where
  pub all : Map BucketRecord
  pub tenants : Map Queue

abbrev pub store : BucketStore
store = record { all = []; tenants = [] }

-- The sizes and the lifetime of `TenantRateLimitOptions`.
pub record Capacity : Type 0 where
  pub max_entries : ℕ
  pub max_entries_per_tenant : ℕ
  pub idle_ttl_ms : ℕ

-- `RateLimitExceeded`: its scope and `retryAfterMs`.
pub record Exceeded : Type 0 where
  pub scope : Scope
  pub retry_after_ms : ℕ

-- An assignment to the `state` of a record that the store holds.
unfoldable pub put_state : BucketStore → String → BucketState → BucketStore
put_state s id state = elim (get s.all id) [
  | none ↦ s
  | some r ↦ record s { all = set s.all id (record r { state = state }) }
]

unfoldable pub touch_tenant : Map Queue → String → String → Map Queue
touch_tenant tenants tenant_id id = elim (get tenants tenant_id) [
  | none ↦ tenants
  | some queue ↦ set tenants tenant_id (move_to_end queue id tt)
]

unfoldable pub touch_record : BucketStore → String → ℕ → BucketRecord → BucketStore
touch_record s id now r = record {
  all = move_to_end s.all id (record r { state = record r.state { last_seen_at = now } });
  tenants = touch_tenant s.tenants r.tenant_id id;
}

unfoldable pub touch : BucketStore → String → ℕ → BucketStore
unfolding touch_record touch_tenant
touch s id now = elim (get s.all id) [ none ↦ s | some r ↦ touch_record s id now r ]

-- `tenants.get(tenantId)`, or the new empty queue that is stored first.
unfoldable pub tenant_queue : Map Queue → String → Queue
tenant_queue tenants tenant_id = elim (get tenants tenant_id) [ none ↦ [] | some queue ↦ queue ]

unfoldable pub insert : BucketStore → String → String → BucketState → BucketStore
unfolding tenant_queue
insert s id tenant_id state = record {
  all = set s.all id (record { id = id; tenant_id = tenant_id; state = state });
  tenants = set s.tenants tenant_id (set (tenant_queue s.tenants tenant_id) id tt);
}

unfoldable pub remove_from_tenant : Map Queue → String → String → Map Queue
remove_from_tenant tenants tenant_id id = elim (get tenants tenant_id) [
  | none ↦ tenants
  | some queue ↦
      if size (delete queue id) == 0
      then delete tenants tenant_id
      else set tenants tenant_id (delete queue id)
]

unfoldable pub remove : BucketStore → BucketRecord → BucketStore
unfolding remove_from_tenant
remove s r = record {
  all = delete s.all r.id;
  tenants = remove_from_tenant s.tenants r.tenant_id r.id;
}

-- The two ways out of an eviction: `none` where it returns, and the error where it throws. What was
-- written before a throw stays written.
abbrev pub Outcome : Type 0
Outcome = BucketStore × Option Exceeded

unfoldable pub evict_record : Capacity → Scope → ℕ → BucketStore → BucketRecord → Outcome
evict_record c scope now s oldest =
    let idle_for = now - oldest.state.last_seen_at in
    let state = refill oldest.state now false in
    let s' = put_state s oldest.id state in
    let recovered = leb (millis state.limit.burst) state.tokens in
    if ltb idle_for c.idle_ttl_ms || not recovered
    then (
      s',
      some (record {
        scope = scope;
        retry_after_ms = max 1 (
            max (c.idle_ttl_ms - idle_for)
              (retry_delay state.limit.burst state.tokens state.limit.rate_per_second));
      }),
    )
    else (remove s' (record oldest { state = state }), none)

unfoldable pub evict_recovered_oldest :
    Capacity → Scope → ℕ → BucketStore → Option BucketRecord → Outcome
unfolding evict_record
evict_recovered_oldest c scope now s none = (s, none)
evict_recovered_oldest c scope now s (some oldest) = evict_record c scope now s oldest

-- `queue.values().next().value`, for the queue of a tenant and for all records.
unfoldable pub oldest_of_queue : BucketStore → Queue → Option BucketRecord
oldest_of_queue s queue = elim (first queue) [ none ↦ none | some (id, _) ↦ get s.all id ]

unfoldable pub oldest_of_all : BucketStore → Option BucketRecord
oldest_of_all s = elim (first s.all) [ none ↦ none | some (_, r) ↦ some r ]

unfoldable pub tenant_room : Capacity → Scope → ℕ → String → BucketStore → Outcome
tenant_room c scope now tenant_id s = elim (get s.tenants tenant_id) [
  | none ↦ (s, none)
  | some queue ↦
      if leb c.max_entries_per_tenant (size queue)
      then evict_recovered_oldest c scope now s (oldest_of_queue s queue)
      else (s, none)
]

unfoldable pub global_room : Capacity → Scope → ℕ → Outcome → Outcome
global_room c scope now (s, some e) = (s, some e)
global_room c scope now (s, none) =
    if leb c.max_entries (size s.all)
    then evict_recovered_oldest c scope now s (oldest_of_all s)
    else (s, none)

unfoldable pub ensure_room : Capacity → Scope → ℕ → String → BucketStore → Outcome
unfolding tenant_room global_room
ensure_room c scope now tenant_id s = global_room c scope now (tenant_room c scope now tenant_id s)
