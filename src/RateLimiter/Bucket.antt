-- ===== src/RateLimiter/Bucket.antt =====
-- src/services/rateLimiter.ts, one bucket. Times are whole milliseconds and the configured rates and
-- bursts are positive integers (`positiveInt` of src/config.ts), so that in exact arithmetic the tokens are
-- a whole number of thousandths of a token, and are kept here as that. The code keeps them as a double and
-- adds `elapsed / 1000 * rate`: what a sum or a quotient of doubles is rounded by, far less than a
-- thousandth, is left out here.
use poolstatis.Common.{ℕ, ◌+◌, ◌-◌, ◌*◌, ◌/◌, Bool, true, min, ltb, if◌then◌else◌}

pub record BucketLimit : Type 0 where
  pub rate_per_second : ℕ
  pub burst : ℕ

pub record BucketState : Type 0 where
  pub tokens : ℕ  -- in thousandths of a token
  pub refilled_at : ℕ
  pub last_seen_at : ℕ
  pub limit : BucketLimit

-- a whole number of tokens in thousandths
abbrev pub millis : ℕ → ℕ
millis n = n * 1000

unfoldable pub fresh_bucket : BucketLimit → ℕ → BucketState
fresh_bucket limit now = record {
  tokens = millis limit.burst;
  refilled_at = now;
  last_seen_at = now;
  limit = limit;
}

-- `Math.max(0, nowMs - refilledAt)` is the truncated difference, and a millisecond at a rate of `r`
-- tokens a second is worth `r` thousandths.
unfoldable pub refill : BucketState → ℕ → Bool → BucketState
refill bucket now mark_seen =
    let elapsed = now - bucket.refilled_at in
    let refilled =
      if ltb 0 elapsed
      then record bucket {
        tokens =
            min (millis bucket.limit.burst)
              (bucket.tokens + elapsed * bucket.limit.rate_per_second);
        refilled_at = now;
      }
      else bucket in
    if mark_seen then record refilled { last_seen_at = now } else refilled

-- `Math.ceil(((cost - tokens) / rate) * 1000)` over thousandths; the code asks only where the cost is not
-- below the tokens. The code rounds up a double, which may lie just beyond a whole number where the exact
-- quotient is one, so that its delay may differ from this one by a millisecond.
unfoldable pub retry_delay : ℕ → ℕ → ℕ → ℕ
retry_delay cost tokens rate = (millis cost - tokens + (rate - 1)) / rate

-- What the tokens of a bucket are worth at a later time.
abbrev pub level : BucketState → ℕ → ℕ
level bucket now = (refill bucket now true).tokens
