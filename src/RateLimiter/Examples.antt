-- ===== src/RateLimiter/Examples.antt =====
-- Runs of the rate limiter on small inputs.
use poolstatis.Common.{
  ℕ, ◌+◌, ◌-◌, ◌*◌, ◌≤◌, ◌≡◌, refl, String, List, [], ◌∷◌, get, set, delete, move_to_end, arith,
}
use poolstatis.RateLimiter.Bucket.{BucketLimit, retry_delay, fresh_bucket, refill}
use poolstatis.RateLimiter.Store.{key, touch, insert, put_state, ensure_room}
use poolstatis.RateLimiter.Consume.{
  ingest, Options, Request, Reply, allowed, exceeded, Limiter, new, consume, validate_options, live,
  admit, settle, charge,
}
use poolstatis.RateLimiter.Sound.{tokens_of, IsSound}
use poolstatis.RateLimiter.Rate.{
  Call, run, taken, finish, IsSound-new, IsSound-run, live-run-le, taken-le,
}

abbrev small : BucketLimit
small = record { rate_per_second = 2; burst = 3 }

abbrev wide : BucketLimit
wide = record { rate_per_second = 10; burst = 5 }

abbrev options : Options
options = record {
  ingest = record { key = small; project = wide };
  api = record { key = small; project = wide };
  capacity = record { max_entries = 2; max_entries_per_tenant = 1; idle_ttl_ms = 1000 };
}

abbrev from : String → String → ℕ → Request
from tenant id cost = record {
  lane = ingest;
  tenant_id = tenant;
  key_id = id;
  project_id = "p";
  cost = cost;
}

abbrev calls : List Call
calls =
    (from "t" "k" 3, 0) ∷ (from "t" "k" 1, 100) ∷ (from "t" "k" 1, 500) ∷ (from "u" "k" 1, 600) ∷ []

abbrev replies : Options → List Call → Limiter → List Reply
replies o [] l = []
replies o ((r, now) ∷ cs) l = let (l', reply) = consume o r now l in reply ∷ replies o cs l'

-- The second call is refused by the key, which is 0.8 tokens short at 2 tokens a second.
small_run :
    replies options calls new
    ≡ allowed (record { limit = 3; remaining = 0 })
      ∷ exceeded (record { scope = key; retry_after_ms = 400 })
      ∷ allowed (record { limit = 3; remaining = 0 })
      ∷ allowed (record { limit = 3; remaining = 2 })
      ∷ []
unfolding consume charge touch admit settle ensure_room insert put_state refill fresh_bucket
    retry_delay get set delete move_to_end
small_run = refl

taken-le_example :
    taken options ingest key "t:k" calls new
    ≤ tokens_of options new ingest key "t:k" 0 + (finish 0 calls - 0) * 2
taken-le_example =
    taken-le options ingest key "t:k" 0 calls new (omega arith) (omega arith) (IsSound-new options)
      (omega arith)

IsSound-run_example : IsSound options (run options calls new)
IsSound-run_example =
    IsSound-run options calls new (omega arith) (omega arith) (IsSound-new options)

live-run-le_example : live (run options calls new) ≤ 4 * 2
unfolding validate_options
live-run-le_example = live-run-le options calls refl
