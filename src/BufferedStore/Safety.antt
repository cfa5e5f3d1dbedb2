-- ===== src/BufferedStore/Safety.antt =====
-- src/stores/bufferedEventStore.ts: what holds of the buffer after any calls, timers and answers.
use poolstatis.Common.{
  ℕ, ◌+◌, ◌-◌, ◌≤◌, ◌≡◌, refl, inl, inr, true, false, ◌||◌, Option, none, List, [], ◌∷◌, ◌++◌,
  length, max, arith, ltb, leb, ◌==◌, Option-cases, if_elim,
}
use poolstatis.BufferedStore.State.{
  Settings, Append, Buffer, start, queued_events, is_empty, start_batch, flush_pending,
  schedule_flush, request_flush,
}
use poolstatis.BufferedStore.Steps.{
  Reply, Event, call, idempotent_call, timer, answer, idempotent_answer, append, enqueue,
  timer_fires, next_round, batch_returns, append_returns, enqueue_idempotent, append_idempotent,
  pick, item_returns, idempotent_returns, step, run, total, outcome_of, settle_batch,
}
use poolstatis.BufferedStore.Batching.{
  IsBatching, IsReady, split-total, enqueue-IsBatching, append-IsReady, timer_fires-IsReady,
  append_returns-IsReady,
}
use poolstatis.BufferedStore.Pumping.{
  IsPumping, pump-queued_events, append-IsPumping, timer_fires-IsPumping, append_returns-IsPumping,
  append_idempotent-IsPumping, idempotent_returns-IsPumping,
}

module _ {E : Type 0} where
  -- The counters are right, work is never left asleep, and the buffer is within its bound.
  pub record IsSafe (c : Settings) (s : Buffer E) : Type 0 where
    pub ready : IsReady c s
    pub pumping : IsPumping c s
    pub bounded : queued_events s ≤ c.max_pending_events

  -- A flush moves events from one counter to another.
  start_batch-queued :
      (c : Settings) (s : Buffer E)
      → s.pending_events ≡ total s.pending
      → queued_events (start_batch c s) ≡ queued_events s
  unfolding start_batch
  start_batch-queued c s h = omega (arith, split-total c.max_events s.pending)

  flush_pending-queued :
      (c : Settings) (s : Buffer E)
      → s.pending_events ≡ total s.pending
      → queued_events (flush_pending c s) ≡ queued_events s
  unfolding flush_pending
  flush_pending-queued c s h =
      if_elim (λ (t : Buffer E). queued_events t ≡ queued_events s)
        (s.flushing || is_empty s.pending) (λ _. refl)
        (λ _. start_batch-queued c (record s { flushing = true }) h)

  request_flush-queued :
      (c : Settings) (s : Buffer E)
      → s.pending_events ≡ total s.pending
      → queued_events (request_flush c s) ≡ queued_events s
  unfolding request_flush
  request_flush-queued c s h = flush_pending-queued c (record s { timer = false }) h

  schedule_flush-queued : (s : Buffer E) → queued_events (schedule_flush s) ≡ queued_events s
  unfolding schedule_flush
  schedule_flush-queued s =
      if_elim (λ (t : Buffer E). queued_events t ≡ queued_events s) (s.timer || s.flushing)
        (λ _. refl) (λ _. refl)

  next_round-queued :
      (c : Settings) (xs : List (Append E)) (s : Buffer E)
      → s.pending_events ≡ total s.pending
      → queued_events (next_round c xs s) ≡ queued_events s
  unfolding next_round
  next_round-queued c [] s h = refl
  next_round-queued c (x ∷ xs) s h = start_batch-queued c s h

  append-bounded :
      (c : Settings) (caller : ℕ) (events : List E) (s : Buffer E)
      → IsSafe c s
      → queued_events (append c caller events s).0 ≤ c.max_pending_events
  unfolding append
  append-bounded c caller events s h =
      let P : Buffer E × Reply → Type 0 = λ o. queued_events o.0 ≤ c.max_pending_events in
      let s' = enqueue caller events s in
      if_elim P (length events == 0) (λ _. h.bounded)
        (λ n.
          if_elim P (ltb c.max_events (length events)) (λ _. h.bounded)
            (λ m.
              if_elim P (ltb c.max_pending_events (queued_events s + length events))
                (λ _. h.bounded)
                (λ room.
                  let fits : queued_events s' ≤ c.max_pending_events =
                    unfold enqueue in ground arith in
                  let h' : IsBatching c s' =
                    enqueue-IsBatching c caller events s h.ready.0 (ground arith) (ground arith) in
                  if_elim P (leb c.max_events s'.pending_events)
                    (λ _. omega (arith, request_flush-queued c s' h'.counted, fits))
                    (λ _. omega (arith, schedule_flush-queued s', fits)))))

  timer_fires-bounded :
      (c : Settings) (s : Buffer E)
      → IsSafe c s
      → queued_events (timer_fires c s) ≤ c.max_pending_events
  unfolding timer_fires
  timer_fires-bounded c s h =
      if_elim (λ (t : Buffer E). queued_events t ≤ c.max_pending_events) s.timer
        (λ _.
          omega (
            arith,
            flush_pending-queued c (record s { timer = false }) h.ready.0.counted,
            h.bounded,
          ))
        (λ _. h.bounded)

  append_returns-bounded :
      (c : Settings) (result : Option ℕ) (s : Buffer E)
      → IsSafe c s
      → queued_events (append_returns c result s) ≤ c.max_pending_events
  unfolding append_returns
  append_returns-bounded c result s h = elim (Option-cases s.in_flight) [
    | inl e ↦ rw (e, append_returns) h.bounded
    | inr (batch, e) ↦
        rw (e, append_returns)
          (unfold batch_returns in
            omega (
              arith,
              next_round-queued c s.pending
                  (record s {
                    in_flight = none;
                    in_flight_events = s.in_flight_events - total batch;
                    resolved = s.resolved ++ settle_batch result batch;
                  })
                  h.ready.0.counted,
              h.bounded,
            ))
  ]

  append_idempotent-bounded :
      (c : Settings) (caller : ℕ) (events : List E) (s : Buffer E)
      → IsSafe c s
      → queued_events (append_idempotent c caller events s).0 ≤ c.max_pending_events
  unfolding append_idempotent
  append_idempotent-bounded c caller events s h =
      let P : Buffer E × Reply → Type 0 = λ o. queued_events o.0 ≤ c.max_pending_events in
      let w = max 1 (length events) in
      let s' = enqueue_idempotent caller events w s in
      if_elim P (ltb c.max_events (length events)) (λ _. h.bounded)
        (λ _.
          if_elim P (ltb c.max_pending_events (queued_events s + w)) (λ _. h.bounded)
            (λ room.
              let fits : queued_events s' ≤ c.max_pending_events =
                unfold enqueue_idempotent in ground arith in
              omega (arith, pump-queued_events c s'.queue s', fits)))

  idempotent_returns-bounded :
      (c : Settings) (i : ℕ) (result : Option ℕ) (s : Buffer E)
      → IsSafe c s
      → queued_events (idempotent_returns c i result s) ≤ c.max_pending_events
  unfolding idempotent_returns
  idempotent_returns-bounded c i result s h = elim (Option-cases (pick i s.running)) [
    | inl e ↦ rw (e, idempotent_returns) h.bounded
    | inr ((item, others), e) ↦
        rw (e, idempotent_returns)
          (unfold item_returns in
            omega (
              arith,
              pump-queued_events c s.queue (record s {
                running = others;
                idempotent_in_flight = s.idempotent_in_flight - 1;
                idempotent_events = s.idempotent_events - item.weight;
                idempotent_resolved =
                    s.idempotent_resolved ++ (item.caller, outcome_of result) ∷ [];
              }),
              h.bounded,
            ))
  ]

  pub step-IsSafe : (c : Settings) (e : Event E) (s : Buffer E) → IsSafe c s → IsSafe c (step c e s)
  unfolding step
  step-IsSafe c (call caller events) s h = record {
    ready = append-IsReady c caller events s h.ready;
    pumping = append-IsPumping c caller events s h.pumping;
    bounded = append-bounded c caller events s h;
  }
  step-IsSafe c (idempotent_call caller events) s h =
      let both = append_idempotent-IsPumping c caller events s (h.ready, h.pumping) in
      record {
        ready = both.0;
        pumping = both.1;
        bounded = append_idempotent-bounded c caller events s h;
      }
  step-IsSafe c timer s h = record {
    ready = timer_fires-IsReady c s h.ready;
    pumping = timer_fires-IsPumping c s h.pumping;
    bounded = timer_fires-bounded c s h;
  }
  step-IsSafe c (answer result) s h = record {
    ready = append_returns-IsReady c result s h.ready;
    pumping = append_returns-IsPumping c result s h.pumping;
    bounded = append_returns-bounded c result s h;
  }
  step-IsSafe c (idempotent_answer i result) s h =
      let both = idempotent_returns-IsPumping c i result s (h.ready, h.pumping) in
      record {
        ready = both.0;
        pumping = both.1;
        bounded = idempotent_returns-bounded c i result s h;
      }

  -- After any sequence of calls, timers and answers the counters of the buffer are right, no more events
  -- are queued than allowed, a batch is never larger than allowed or empty, pending appends are woken by
  -- a batch at work or the timer, and no idempotent append waits while the delegate could take one more.
  pub run-IsSafe :
      (c : Settings) (es : List (Event E)) (s : Buffer E) → IsSafe c s → IsSafe c (run c es s)
  unfolding run
  run-IsSafe c [] s h = h
  run-IsSafe c (e ∷ es) s h = run-IsSafe c es (step c e s) (step-IsSafe c e s h)

pub start-IsSafe : (E : Type 0) (c : Settings) → IsSafe {E = E} c start
unfolding total is_empty
start-IsSafe E c = record {
  ready = (ground arith, refl);
  pumping = (ground arith, refl);
  bounded = omega arith;
}
