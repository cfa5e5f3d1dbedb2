-- ===== src/BufferedStore/Batching.antt =====
-- src/stores/bufferedEventStore.ts: the counters and flags of the batched appends between two waits.
use poolstatis.Common.{
  ℕ, ◌+◌, ◌≤◌, ◌<◌, ◌≡◌, refl, ap, inl, inr, Bool, true, false, ◌||◌, Option, none, some, List, [],
  ◌∷◌, ◌++◌, length, All, All-snoc, ◌==◌, arith, ltb, leb, Bool-cases, Option-cases, if_elim,
}
use poolstatis.BufferedStore.State.{
  Settings, Append, IdempotentAppend, Outcome, Buffer, queued_events, take_batch, is_empty,
  start_batch, flush_pending, schedule_flush, request_flush,
}
use poolstatis.BufferedStore.Steps.{
  Reply, enqueue, append, timer_fires, total, next_round, batch_returns, append_returns,
}
use poolstatis.BufferedStore.Share.{
  take_batch-append, take_batch-total, take_batch-le, total-append,
}

asleep :
    (none_left woken busy : Bool) → (woken || busy) ≡ true → (none_left || (busy || woken)) ≡ true
asleep none_left woken busy h = ground arith

module _ {E : Type 0} where
  abbrev pub in_flight_total : Option (List (Append E)) → ℕ
  in_flight_total none = 0
  in_flight_total (some batch) = total batch

  abbrev pub has_batch : Option (List (Append E)) → Bool
  has_batch none = false
  has_batch (some batch) = true

  -- An append that was accepted has events, and no more than a batch may have.
  pub record Fits (c : Settings) (x : Append E) : Type 0 where
    pub some_events : 0 < length x.events
    pub few_events : length x.events ≤ c.max_events

  -- The counters count, the batch at work has events within the limit, and the flag is up while there
  -- is one.
  pub record IsBatching (c : Settings) (s : Buffer E) : Type 0 where
    pub counted : s.pending_events ≡ total s.pending
    pub flying : s.in_flight_events ≡ in_flight_total s.in_flight
    pub small : s.in_flight_events ≤ c.max_events
    pub busy : s.flushing ≡ has_batch s.in_flight
    pub working : s.flushing ≡ true → 0 < s.in_flight_events
    pub fit : All (Fits c) s.pending

  -- What is pending is woken by the batch at work or by the timer.
  abbrev pub IsAwake : Buffer E → Type 0
  IsAwake s = (is_empty s.pending || (s.flushing || s.timer)) ≡ true

  fit-left :
      (c : Settings) (taken : ℕ) (xs : List (Append E))
      → All (Fits c) xs
      → All (Fits c) (take_batch c.max_events taken xs).2
  unfolding take_batch
  fit-left c taken [] h = h
  fit-left c taken (x ∷ xs) h = elim (Bool-cases (ltb c.max_events (taken + length x.events))) [
    | inl e ↦ rw e h
    | inr e ↦ rw e (fit-left c (taken + length x.events) xs h.1)
  ]

  -- A round takes at least one append, since each fits.
  takes_some :
      (c : Settings) (xs : List (Append E))
      → All (Fits c) xs
      → is_empty xs ≡ false
      → 0 < (take_batch c.max_events 0 xs).1
  unfolding take_batch is_empty
  takes_some c [] f more = cc
  takes_some c (x ∷ xs) f more =
      ground (arith, take_batch-total c.max_events (0 + length x.events) xs)

  pub split-total :
      (limit : ℕ) (xs : List (Append E))
      → total xs ≡ (take_batch limit 0 xs).1 + total (take_batch limit 0 xs).2
  split-total limit xs =
      let t = take_batch limit 0 xs in
      let e : total (t.0 ++ t.2) ≡ total xs = ap total (take_batch-append limit 0 xs) in
      omega (arith, e, total-append t.0 t.2, take_batch-total limit 0 xs)

  start_batch-IsBatching :
      (c : Settings) (s : Buffer E)
      → s.pending_events ≡ total s.pending
      → s.in_flight_events ≡ 0
      → s.flushing ≡ true
      → All (Fits c) s.pending
      → is_empty s.pending ≡ false
      → IsBatching c (start_batch c s)
  unfolding start_batch is_empty
  start_batch-IsBatching c s counted idle up fit more = record {
    counted = omega (arith, split-total c.max_events s.pending);
    flying = omega (arith, take_batch-total c.max_events 0 s.pending);
    small = omega (arith, take_batch-le c.max_events 0 s.pending (omega arith));
    busy = up;
    working = λ _. omega (arith, takes_some c s.pending fit more);
    fit = fit-left c 0 s.pending fit;
  }

  flush_pending-IsBatching :
      (c : Settings) (s : Buffer E)
      → IsBatching c s
      → IsBatching c (flush_pending c s) × IsAwake (flush_pending c s)
  unfolding flush_pending
  flush_pending-IsBatching c s h =
      if_elim (λ t. IsBatching c t × IsAwake t) (s.flushing || is_empty s.pending)
        (λ idle. (h, ground arith))
        (λ go. (
          start_batch-IsBatching c (record s { flushing = true }) h.counted (ground arith) refl
              h.fit (ground arith),
          unfold start_batch in ground arith,
        ))

  -- The batched half of a buffer is as it must be between two waits.
  abbrev pub IsReady : Settings → Buffer E → Type 0
  IsReady c s = IsBatching c s × IsAwake s

  total-one :
      (caller : ℕ) (events : List E)
      → total (record { caller = caller; events = events } ∷ []) ≡ length events
  unfolding total
  total-one caller events = omega arith

  pub enqueue-IsBatching :
      (c : Settings) (caller : ℕ) (events : List E) (s : Buffer E)
      → IsBatching c s
      → 0 < length events
      → length events ≤ c.max_events
      → IsBatching c (enqueue caller events s)
  unfolding enqueue
  enqueue-IsBatching c caller events s h some_events few_events =
      let x : Append E = record { caller = caller; events = events } in
      record {
        counted =
            omega (arith, h.counted, total-append s.pending (x ∷ []), total-one caller events);
        flying = h.flying;
        small = h.small;
        busy = h.busy;
        working = h.working;
        fit =
            All-snoc (Fits c) s.pending x h.fit
              (record { some_events = some_events; few_events = few_events });
      }

  schedule_flush-IsReady :
      (c : Settings) (s : Buffer E) → IsBatching c s → IsReady c (schedule_flush s)
  unfolding schedule_flush
  schedule_flush-IsReady c s h =
      if_elim (IsReady c) (s.timer || s.flushing)
        (λ up. (h, asleep (is_empty s.pending) s.timer s.flushing up))
        (λ _. (
          record {
            counted = h.counted;
            flying = h.flying;
            small = h.small;
            busy = h.busy;
            working = h.working;
            fit = h.fit;
          },
          ground arith,
        ))

  request_flush-IsReady :
      (c : Settings) (s : Buffer E) → IsBatching c s → IsReady c (request_flush c s)
  unfolding request_flush
  request_flush-IsReady c s h =
      flush_pending-IsBatching c (record s { timer = false })
        (record {
          counted = h.counted;
          flying = h.flying;
          small = h.small;
          busy = h.busy;
          working = h.working;
          fit = h.fit;
        })

  pub append-IsReady :
      (c : Settings) (caller : ℕ) (events : List E) (s : Buffer E)
      → IsReady c s
      → IsReady c (append c caller events s).0
  unfolding append
  append-IsReady c caller events s h =
      let P : Buffer E × Reply → Type 0 = λ o. IsReady c o.0 in
      let s' = enqueue caller events s in
      if_elim P (length events == 0) (λ _. h)
        (λ n.
          if_elim P (ltb c.max_events (length events)) (λ _. h)
            (λ m.
              if_elim P (ltb c.max_pending_events (queued_events s + length events)) (λ _. h)
                (λ _.
                  let h' : IsBatching c s' =
                    enqueue-IsBatching c caller events s h.0 (ground arith) (ground arith) in
                  if_elim P (leb c.max_events s'.pending_events)
                    (λ _. request_flush-IsReady c s' h') (λ _. schedule_flush-IsReady c s' h'))))

  pub timer_fires-IsReady :
      (c : Settings) (s : Buffer E) → IsReady c s → IsReady c (timer_fires c s)
  unfolding timer_fires request_flush
  timer_fires-IsReady c s h =
      if_elim (IsReady c) s.timer (λ _. request_flush-IsReady c s h.0) (λ _. h)

  next_round-IsReady :
      (c : Settings) (xs : List (Append E)) (s : Buffer E)
      → s.pending ≡ xs
      → s.pending_events ≡ total s.pending
      → s.in_flight ≡ none
      → s.in_flight_events ≡ 0
      → s.flushing ≡ true
      → All (Fits c) s.pending
      → IsReady c (next_round c xs s)
  unfolding next_round
  next_round-IsReady c [] s e counted idle zero_events up fit = (
    record {
      counted = counted;
      flying = ground arith;
      small = omega arith;
      busy = ground arith;
      working = λ f. absurd (cc);
      fit = fit;
    },
    unfold is_empty in rw e,
  )
  next_round-IsReady c (x ∷ xs) s e counted idle zero_events up fit = (
    start_batch-IsBatching c s counted zero_events up fit (unfold is_empty in rw e),
    unfold start_batch in ground arith,
  )

  pub append_returns-IsReady :
      (c : Settings) (result : Option ℕ) (s : Buffer E)
      → IsReady c s
      → IsReady c (append_returns c result s)
  unfolding append_returns
  append_returns-IsReady c result s h = elim (Option-cases s.in_flight) [
    | inl e ↦ rw (e, append_returns) h
    | inr (batch, e) ↦
        rw (e, append_returns)
          (unfold batch_returns in
            next_round-IsReady c s.pending _ refl h.0.counted refl (ground (arith, h.0.flying))
              (ground (arith, h.0.busy)) h.0.fit)
  ]

  -- The batched half does not depend on the idempotent half.
  pub recast-IsBatching :
      {c : Settings} {s : Buffer E} (q r : List (IdempotentAppend E)) (e n : ℕ)
      (l : List (ℕ × Outcome))
      → IsBatching c s
      → IsBatching c (record s {
        queue = q;
        running = r;
        idempotent_events = e;
        idempotent_in_flight = n;
        idempotent_resolved = l;
      })
  recast-IsBatching q r e n l h = record {
    counted = h.counted;
    flying = h.flying;
    small = h.small;
    busy = h.busy;
    working = h.working;
    fit = h.fit;
  }
