-- ===== src/BufferedStore/Steps.antt =====
-- src/stores/bufferedEventStore.ts: the calls of the store, the timer, and the answers of the delegate.
use poolstatis.Common.{
  ℕ, zero, suc, ◌+◌, ◌-◌, false, Option, none, some, List, [], ◌∷◌, ◌++◌, length, max, min, ltb,
  leb, if◌then◌else◌, ◌==◌,
}
use poolstatis.BufferedStore.State.{
  Settings, Append, IdempotentAppend, Outcome, inserted, failed, Buffer, queued_events, start_batch,
  flush_pending, schedule_flush, request_flush,
}

-- How a call ends at once, or that its promise waits.
pub data Reply : Type 0 where
  waits nothing_to_do batch_too_large backpressure : Reply

unfoldable pub outcome_of : Option ℕ → Outcome
outcome_of (some n) = inserted n
outcome_of none = failed

-- What can happen between two waits.
pub data Event (E : Type 0) : Type 0 where
  call : ℕ → List E → Event E
  idempotent_call : ℕ → List E → Event E
  timer : Event E
  answer : Option ℕ → Event E
  idempotent_answer : ℕ → Option ℕ → Event E

module _ {E : Type 0} where
  unfoldable pub enqueue : ℕ → List E → Buffer E → Buffer E
  enqueue caller events s = record s {
    pending = s.pending ++ record { caller = caller; events = events } ∷ [];
    pending_events = s.pending_events + length events;
  }

  unfoldable pub append : Settings → ℕ → List E → Buffer E → Buffer E × Reply
  append c caller events s =
      if length events == 0
      then (s, nothing_to_do)
      else if ltb c.max_events (length events)
      then (s, batch_too_large)
      else if ltb c.max_pending_events (queued_events s + length events)
      then (s, backpressure)
      else if leb c.max_events (enqueue caller events s).pending_events
      then (request_flush c (enqueue caller events s), waits)
      else (schedule_flush (enqueue caller events s), waits)

  -- `pumpIdempotentQueue`, over the queue.
  unfoldable pub pump : Settings → List (IdempotentAppend E) → Buffer E → Buffer E
  pump c [] s = s
  pump c (item ∷ rest) s =
      let next = pump c rest (record s {
        queue = rest;
        running = s.running ++ item ∷ [];
        idempotent_in_flight = s.idempotent_in_flight + 1;
      }) in
      if ltb s.idempotent_in_flight c.max_concurrent then next else s

  abbrev pub pump_idempotent_queue : Settings → Buffer E → Buffer E
  pump_idempotent_queue c s = pump c s.queue s

  unfoldable pub enqueue_idempotent : ℕ → List E → ℕ → Buffer E → Buffer E
  enqueue_idempotent caller events weight s = record s {
    queue = s.queue ++ record { caller = caller; events = events; weight = weight } ∷ [];
    idempotent_events = s.idempotent_events + weight;
  }

  unfoldable pub append_idempotent : Settings → ℕ → List E → Buffer E → Buffer E × Reply
  append_idempotent c caller events s =
      let weight = max 1 (length events) in
      if ltb c.max_events (length events)
      then (s, batch_too_large)
      else if ltb c.max_pending_events (queued_events s + weight)
      then (s, backpressure)
      else (pump_idempotent_queue c (enqueue_idempotent caller events weight s), waits)

  unfoldable pub timer_fires : Settings → Buffer E → Buffer E
  timer_fires c s = if s.timer then flush_pending c (record s { timer = false }) else s

  -- `batchEvents`
  unfoldable pub total : List (Append E) → ℕ
  total [] = 0
  total (item ∷ rest) = length item.events + total rest

  -- The share of each caller in the events that the delegate inserted.
  unfoldable pub share : ℕ → ℕ → List (Append E) → List (ℕ × Outcome)
  share offset result [] = []
  share offset result (item ∷ rest) =
      (item.caller, inserted (min (length item.events) (result - offset)))
      ∷ share (offset + length item.events) result rest

  unfoldable pub reject_all : List (Append E) → List (ℕ × Outcome)
  reject_all [] = []
  reject_all (item ∷ rest) = (item.caller, failed) ∷ reject_all rest

  unfoldable pub settle_batch : Option ℕ → List (Append E) → List (ℕ × Outcome)
  unfolding share reject_all
  settle_batch (some result) batch = share 0 result batch
  settle_batch none batch = reject_all batch

  -- The test of the outer loop. When the loop ends nothing is pending, so that the test in the last
  -- `finally` fails.
  unfoldable pub next_round : Settings → List (Append E) → Buffer E → Buffer E
  next_round c [] s = record s { flushing = false }
  next_round c (_ ∷ _) s = start_batch c s

  unfoldable pub batch_returns : Settings → Option ℕ → List (Append E) → Buffer E → Buffer E
  unfolding next_round settle_batch total
  batch_returns c result batch s = next_round c s.pending (record s {
    in_flight = none;
    in_flight_events = s.in_flight_events - total batch;
    resolved = s.resolved ++ settle_batch result batch;
  })

  -- The delegate answers an `append`, with the number of inserted events or an error.
  unfoldable pub append_returns : Settings → Option ℕ → Buffer E → Buffer E
  unfolding batch_returns
  append_returns c result s = elim s.in_flight [
    | none ↦ s
    | some batch ↦ batch_returns c result batch s
  ]

  -- The item at a place, and the others.
  unfoldable pub pick :
      ℕ → List (IdempotentAppend E) → Option (IdempotentAppend E × List (IdempotentAppend E))
  pick i [] = none
  pick zero (item ∷ rest) = some (item, rest)
  pick (suc i) (item ∷ rest) = elim (pick i rest) [
    | none ↦ none
    | some (found, others) ↦ some (found, item ∷ others)
  ]

  unfoldable pub item_returns :
      Settings → Option ℕ → IdempotentAppend E → List (IdempotentAppend E) → Buffer E → Buffer E
  unfolding outcome_of
  item_returns c result item others s = pump_idempotent_queue c (record s {
    running = others;
    idempotent_in_flight = s.idempotent_in_flight - 1;
    idempotent_events = s.idempotent_events - item.weight;
    idempotent_resolved = s.idempotent_resolved ++ (item.caller, outcome_of result) ∷ [];
  })

  -- The delegate answers the idempotent append at a place of those that it is working on.
  unfoldable pub idempotent_returns : Settings → ℕ → Option ℕ → Buffer E → Buffer E
  unfolding item_returns
  idempotent_returns c i result s = elim (pick i s.running) [
    | none ↦ s
    | some (item, others) ↦ item_returns c result item others s
  ]

  unfoldable pub step : Settings → Event E → Buffer E → Buffer E
  step c (call caller events) s = (append c caller events s).0
  step c (idempotent_call caller events) s = (append_idempotent c caller events s).0
  step c timer s = timer_fires c s
  step c (answer result) s = append_returns c result s
  step c (idempotent_answer i result) s = idempotent_returns c i result s

  unfoldable pub run : Settings → List (Event E) → Buffer E → Buffer E
  run c [] s = s
  run c (e ∷ es) s = run c es (step c e s)
