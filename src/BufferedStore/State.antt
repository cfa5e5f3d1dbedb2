-- ===== src/BufferedStore/State.antt =====
-- src/stores/bufferedEventStore.ts: the state of the buffer, and what each callback does to it up to the
-- next wait. A promise is the number of its caller. `resolved` and
-- `idempotent_resolved` list the calls of `resolve` and `reject` on the promises of `append` and of
-- `appendIdempotent`, each in their order. The events are of any type.
use poolstatis.Common.{
  ℕ, ◌+◌, ◌-◌, Bool, true, false, ◌&&◌, ◌||◌, Option, none, some, List, [], ◌∷◌, length, ltb, leb,
  if◌then◌else◌,
}

pub record Settings : Type 0 where
  pub max_events : ℕ
  pub max_pending_events : ℕ
  pub max_concurrent : ℕ

pub record Append (E : Type 0) : Type 0 where
  pub caller : ℕ
  pub events : List E

pub record IdempotentAppend (E : Type 0) : Type 0 where
  pub caller : ℕ
  pub events : List E
  pub weight : ℕ

-- What a promise is settled with: the number of inserted events, or the error of the delegate.
pub data Outcome : Type 0 where
  inserted : ℕ → Outcome
  failed : Outcome

pub record Buffer (E : Type 0) : Type 0 where
  pub pending : List (Append E)
  pub pending_events : ℕ
  pub in_flight : Option (List (Append E))  -- the batch that the delegate is working on
  pub in_flight_events : ℕ
  pub timer : Bool
  pub flushing : Bool
  pub queue : List (IdempotentAppend E)
  pub running : List (IdempotentAppend E)  -- those that the delegate is working on
  pub idempotent_events : ℕ
  pub idempotent_in_flight : ℕ
  pub resolved : List (ℕ × Outcome)
  pub idempotent_resolved : List (ℕ × Outcome)

unfoldable pub is_empty : {A : Type 0} → List A → Bool
is_empty [] = true
is_empty (_ ∷ _) = false

module _ {E : Type 0} where
  abbrev pub start : Buffer E
  start = record {
    pending = [];
    pending_events = 0;
    in_flight = none;
    in_flight_events = 0;
    timer = false;
    flushing = false;
    queue = [];
    running = [];
    idempotent_events = 0;
    idempotent_in_flight = 0;
    resolved = [];
    idempotent_resolved = [];
  }

  abbrev pub queued_events : Buffer E → ℕ
  queued_events s = s.pending_events + s.in_flight_events + s.idempotent_events

  -- The inner loop of `flushPending`: the batch, the number of its events, and what stays pending.
  unfoldable pub take_batch : ℕ → ℕ → List (Append E) → List (Append E) × ℕ × List (Append E)
  take_batch limit taken [] = ([], taken, [])
  take_batch limit taken (next ∷ rest) =
      let n = taken + length next.events in
      let more = take_batch limit n rest in
      if ltb limit n then ([], taken, next ∷ rest) else (next ∷ more.0, more.1, more.2)

  -- One round of the outer loop, up to its `await`.
  unfoldable pub start_batch : Settings → Buffer E → Buffer E
  start_batch c s =
      let (batch, n, rest) = take_batch c.max_events 0 s.pending in
      record s {
        pending = rest;
        pending_events = s.pending_events - n;
        in_flight = some batch;
        in_flight_events = s.in_flight_events + n;
      }

  unfoldable pub flush_pending : Settings → Buffer E → Buffer E
  unfolding start_batch is_empty
  flush_pending c s =
      if s.flushing || is_empty s.pending then s else start_batch c (record s { flushing = true })

  unfoldable pub schedule_flush : Buffer E → Buffer E
  schedule_flush s = if s.timer || s.flushing then s else record s { timer = true }

  unfoldable pub request_flush : Settings → Buffer E → Buffer E
  unfolding flush_pending
  request_flush c s = flush_pending c (record s { timer = false })

-- `validateOptions`, where a number that is not an integer cannot occur.
unfoldable pub validate_options : Settings → Bool
validate_options c =
    ltb 0 c.max_events
    && (ltb 0 c.max_pending_events
        && (ltb 0 c.max_concurrent && leb c.max_events c.max_pending_events))
