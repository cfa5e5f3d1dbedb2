-- ===== src/BufferedStore/Pumping.antt =====
-- src/stores/bufferedEventStore.ts: the queue of the idempotent appends between two waits.
use poolstatis.Common.{
  ℕ, zero, suc, ◌+◌, ◌≤◌, ◌≡◌, refl, inl, inr, Bool, true, false, ◌||◌, Option, some, List, [], ◌∷◌,
  ◌++◌, length, length-append, max, arith, ltb, leb, ◌==◌, Option-cases, if_elim,
}
use poolstatis.BufferedStore.State.{
  Settings, Append, IdempotentAppend, Outcome, Buffer, queued_events, is_empty, start_batch,
  flush_pending, schedule_flush, request_flush,
}
use poolstatis.BufferedStore.Steps.{
  Reply, append, enqueue, timer_fires, next_round, batch_returns, append_returns, pump,
  enqueue_idempotent, append_idempotent, pick, item_returns, idempotent_returns,
}
use poolstatis.BufferedStore.Batching.{IsReady, recast-IsBatching}

module _ {E : Type 0} where
  abbrev pub weights : List (IdempotentAppend E) → ℕ
  weights [] = 0
  weights (x ∷ xs) = x.weight + weights xs

  weights-append :
      (xs ys : List (IdempotentAppend E)) → weights (xs ++ ys) ≡ weights xs + weights ys
  weights-append [] ys = omega arith
  weights-append (x ∷ xs) ys = omega (arith, weights-append xs ys)

  weights-one : (x : IdempotentAppend E) → weights (x ∷ []) ≡ x.weight
  weights-one x = omega arith

  -- The counters of the queue, and the limit on the items at work.
  pub record IsCounting (c : Settings) (s : Buffer E) : Type 0 where
    pub weighed : s.idempotent_events ≡ weights s.queue + weights s.running
    pub counted : s.idempotent_in_flight ≡ length s.running
    pub limited : s.idempotent_in_flight ≤ c.max_concurrent

  -- No item waits while the delegate could take one more.
  abbrev pub IsFull : Settings → Buffer E → Type 0
  IsFull c s = (is_empty s.queue || leb c.max_concurrent s.idempotent_in_flight) ≡ true

  abbrev pub IsPumping : Settings → Buffer E → Type 0
  IsPumping c s = IsCounting c s × IsFull c s

  pump-IsPumping :
      (c : Settings) (q : List (IdempotentAppend E)) (s : Buffer E)
      → s.queue ≡ q
      → IsCounting c s
      → IsPumping c (pump c q s)
  unfolding pump is_empty
  pump-IsPumping c [] s e h = (h, rw e)
  pump-IsPumping c (item ∷ rest) s e h =
      if_elim (IsPumping c) (ltb s.idempotent_in_flight c.max_concurrent)
        (λ free. pump-IsPumping c rest _ refl (record {
          weighed =
              let w : weights s.queue ≡ item.weight + weights rest = rw e in
              omega (arith, h.weighed, w, weights-append s.running (item ∷ []), weights-one item);
          counted = omega (arith, h.counted, length-append {0} s.running (item ∷ []));
          limited = ground arith;
        }))
        (λ busy. (h, ground arith))

  pump-IsReady :
      (c : Settings) (q : List (IdempotentAppend E)) (s : Buffer E)
      → IsReady c s
      → IsReady c (pump c q s)
  unfolding pump
  pump-IsReady c [] s h = h
  pump-IsReady c (item ∷ rest) s h =
      if_elim (IsReady c) (ltb s.idempotent_in_flight c.max_concurrent)
        (λ _. pump-IsReady c rest _ (recast-IsBatching _ _ _ _ _ h.0, h.1)) (λ _. h)

  pub pump-queued_events :
      (c : Settings) (q : List (IdempotentAppend E)) (s : Buffer E)
      → queued_events (pump c q s) ≡ queued_events s
  unfolding pump
  pump-queued_events c [] s = refl
  pump-queued_events c (item ∷ rest) s =
      if_elim (λ (t : Buffer E). queued_events t ≡ queued_events s)
        (ltb s.idempotent_in_flight c.max_concurrent) (λ _. pump-queued_events c rest _) (λ _. refl)

  pub pick-weights :
      (i : ℕ) (xs : List (IdempotentAppend E)) (item : IdempotentAppend E)
      (others : List (IdempotentAppend E))
      → pick i xs ≡ some (item, others)
      → (weights xs ≡ item.weight + weights others) × (length xs ≡ suc (length others))
  unfolding pick
  pick-weights i [] item others e = absurd (cc)
  pick-weights zero (x ∷ xs) item others e = ground arith
  pick-weights (suc i) (x ∷ xs) item others e = elim (Option-cases (pick i xs)) [
    | inl n ↦ absurd (cc (rw (n, pick) at e))
    | inr ((found, left), n) ↦
        let ih = pick-weights i xs found left n in
        let e' = rw (n, pick) at e in ground (arith, ih.0, ih.1, e')
  ]

  recast-IsCounting :
      {c : Settings} {s : Buffer E} (p : List (Append E)) (pe : ℕ) (b : Option (List (Append E)))
      (fe : ℕ) (t f : Bool) (l : List (ℕ × Outcome))
      → IsCounting c s
      → IsCounting c (record s {
        pending = p;
        pending_events = pe;
        in_flight = b;
        in_flight_events = fe;
        timer = t;
        flushing = f;
        resolved = l;
      })
  recast-IsCounting p pe b fe t f l h = record {
    weighed = h.weighed;
    counted = h.counted;
    limited = h.limited;
  }

  flush_pending-IsPumping :
      (c : Settings) (s : Buffer E) → IsPumping c s → IsPumping c (flush_pending c s)
  unfolding flush_pending start_batch
  flush_pending-IsPumping c s h =
      if_elim (IsPumping c) (s.flushing || is_empty s.pending) (λ _. h)
        (λ _. (recast-IsCounting _ _ _ _ _ _ _ h.0, h.1))

  request_flush-IsPumping :
      (c : Settings) (s : Buffer E) → IsPumping c s → IsPumping c (request_flush c s)
  unfolding request_flush
  request_flush-IsPumping c s h =
      flush_pending-IsPumping c (record s { timer = false })
        (recast-IsCounting _ _ _ _ _ _ _ h.0, h.1)

  schedule_flush-IsPumping :
      (c : Settings) (s : Buffer E) → IsPumping c s → IsPumping c (schedule_flush s)
  unfolding schedule_flush
  schedule_flush-IsPumping c s h =
      if_elim (IsPumping c) (s.timer || s.flushing) (λ _. h)
        (λ _. (recast-IsCounting _ _ _ _ _ _ _ h.0, h.1))

  pub append-IsPumping :
      (c : Settings) (caller : ℕ) (events : List E) (s : Buffer E)
      → IsPumping c s
      → IsPumping c (append c caller events s).0
  unfolding append
  append-IsPumping c caller events s h =
      let P : Buffer E × Reply → Type 0 = λ o. IsPumping c o.0 in
      let h' : IsPumping c (enqueue caller events s) =
        unfold enqueue in (recast-IsCounting _ _ _ _ _ _ _ h.0, h.1) in
      if_elim P (length events == 0) (λ _. h)
        (λ _.
          if_elim P (ltb c.max_events (length events)) (λ _. h)
            (λ _.
              if_elim P (ltb c.max_pending_events (queued_events s + length events)) (λ _. h)
                (λ _.
                  if_elim P (leb c.max_events (enqueue caller events s).pending_events)
                    (λ _. request_flush-IsPumping c (enqueue caller events s) h')
                    (λ _. schedule_flush-IsPumping c (enqueue caller events s) h'))))

  pub timer_fires-IsPumping :
      (c : Settings) (s : Buffer E) → IsPumping c s → IsPumping c (timer_fires c s)
  unfolding timer_fires request_flush
  timer_fires-IsPumping c s h =
      if_elim (IsPumping c) s.timer (λ _. request_flush-IsPumping c s h) (λ _. h)

  next_round-IsPumping :
      (c : Settings) (xs : List (Append E)) (s : Buffer E)
      → IsPumping c s
      → IsPumping c (next_round c xs s)
  unfolding next_round start_batch
  next_round-IsPumping c [] s h = (recast-IsCounting _ _ _ _ _ _ _ h.0, h.1)
  next_round-IsPumping c (x ∷ xs) s h = (recast-IsCounting _ _ _ _ _ _ _ h.0, h.1)

  pub append_returns-IsPumping :
      (c : Settings) (result : Option ℕ) (s : Buffer E)
      → IsPumping c s
      → IsPumping c (append_returns c result s)
  unfolding append_returns
  append_returns-IsPumping c result s h = elim (Option-cases s.in_flight) [
    | inl e ↦ rw (e, append_returns) h
    | inr (batch, e) ↦
        rw (e, append_returns)
          (unfold batch_returns in
            next_round-IsPumping c s.pending _ (recast-IsCounting _ _ _ _ _ _ _ h.0, h.1))
  ]

  -- The two operations of the queue keep both halves.
  pub append_idempotent-IsPumping :
      (c : Settings) (caller : ℕ) (events : List E) (s : Buffer E)
      → IsReady c s × IsPumping c s
      → IsReady c (append_idempotent c caller events s).0
        × IsPumping c (append_idempotent c caller events s).0
  unfolding append_idempotent enqueue_idempotent
  append_idempotent-IsPumping c caller events s h =
      let P : Buffer E × Reply → Type 0 = λ o. IsReady c o.0 × IsPumping c o.0 in
      let x : IdempotentAppend E = record {
        caller = caller;
        events = events;
        weight = max 1 (length events);
      } in
      if_elim P (ltb c.max_events (length events)) (λ _. h)
        (λ _.
          if_elim P (ltb c.max_pending_events (queued_events s + max 1 (length events))) (λ _. h)
            (λ _. (
              pump-IsReady c (s.queue ++ x ∷ []) _ (recast-IsBatching _ _ _ _ _ h.0.0, h.0.1),
              pump-IsPumping c (s.queue ++ x ∷ []) _ refl (record {
                weighed =
                    omega (arith, h.1.0.weighed, weights-append s.queue (x ∷ []), weights-one x);
                counted = h.1.0.counted;
                limited = h.1.0.limited;
              }),
            )))

  pub idempotent_returns-IsPumping :
      (c : Settings) (i : ℕ) (result : Option ℕ) (s : Buffer E)
      → IsReady c s × IsPumping c s
      → IsReady c (idempotent_returns c i result s) × IsPumping c (idempotent_returns c i result s)
  unfolding idempotent_returns
  idempotent_returns-IsPumping c i result s h = elim (Option-cases (pick i s.running)) [
    | inl e ↦ rw (e, idempotent_returns) h
    | inr ((item, others), e) ↦
        let p = pick-weights i s.running item others e in
        rw (e, idempotent_returns)
          (unfold item_returns in
            (
              pump-IsReady c s.queue _ (recast-IsBatching _ _ _ _ _ h.0.0, h.0.1),
              pump-IsPumping c s.queue _ refl (record {
                weighed = omega (arith, h.1.0.weighed, p.0);
                counted = omega (arith, h.1.0.counted, p.1);
                limited = omega (arith, h.1.0.limited);
              }),
            ))
  ]
