-- ===== src/BufferedStore/Order.antt =====
-- src/stores/bufferedEventStore.ts: one event keeps the order of the accepted appends.
use poolstatis.Common.{
  ℕ, ◌+◌, ◌≡◌, refl, sym, ap, ◌∙◌, inl, inr, true, false, ◌||◌, Option, none, some, List, [], ◌∷◌,
  ◌++◌, map, length, max, arith, ltb, leb, ◌==◌, Option-cases, if_elim,
}
use mathlib.Core.List.{append-nil, append_assoc, map-append}
use poolstatis.BufferedStore.State.{
  Settings, Append, IdempotentAppend, Outcome, Buffer, queued_events, is_empty, start_batch,
  flush_pending, schedule_flush, request_flush,
}
use poolstatis.BufferedStore.Steps.{
  Reply, waits, Event, call, idempotent_call, timer, answer, idempotent_answer, append, enqueue,
  timer_fires, next_round, batch_returns, append_returns, pump, enqueue_idempotent,
  append_idempotent, pick, item_returns, idempotent_returns, step, share, reject_all, settle_batch,
}
use poolstatis.BufferedStore.Share.{take_batch-append}
use poolstatis.BufferedStore.Batching.{IsBatching, enqueue-IsBatching}

module _ {E : Type 0} where
  abbrev pub callers : List (Append E) → List ℕ
  callers xs = map (λ x. x.caller) xs

  abbrev at_work : Option (List (Append E)) → List (Append E)
  at_work none = []
  at_work (some batch) = batch

  -- The accepted appends that have no answer yet, the oldest first.
  abbrev pub waiting : Buffer E → List (Append E)
  waiting s = at_work s.in_flight ++ s.pending

  start_batch-waiting :
      (c : Settings) (s : Buffer E) → s.in_flight ≡ none → waiting (start_batch c s) ≡ s.pending
  unfolding start_batch
  start_batch-waiting c s e = take_batch-append c.max_events 0 s.pending

  flush_pending-waiting :
      (c : Settings) (s : Buffer E) → IsBatching c s → waiting (flush_pending c s) ≡ waiting s
  unfolding flush_pending
  flush_pending-waiting c s h =
      if_elim (λ (t : Buffer E). waiting t ≡ waiting s) (s.flushing || is_empty s.pending)
        (λ _. refl)
        (λ go.
          let idle : s.in_flight ≡ none = ground (arith, h.busy) in
          start_batch-waiting c (record s { flushing = true }) idle ∙ rw idle)

  request_flush-waiting :
      (c : Settings) (s : Buffer E) → IsBatching c s → waiting (request_flush c s) ≡ waiting s
  unfolding request_flush
  request_flush-waiting c s h =
      flush_pending-waiting c (record s { timer = false })
        (record {
          counted = h.counted;
          flying = h.flying;
          small = h.small;
          busy = h.busy;
          working = h.working;
          fit = h.fit;
        })

  schedule_flush-waiting : (s : Buffer E) → waiting (schedule_flush s) ≡ waiting s
  unfolding schedule_flush
  schedule_flush-waiting s =
      if_elim (λ (t : Buffer E). waiting t ≡ waiting s) (s.timer || s.flushing) (λ _. refl)
        (λ _. refl)

  pump-waiting :
      (c : Settings) (q : List (IdempotentAppend E)) (s : Buffer E)
      → waiting (pump c q s) ≡ waiting s
  unfolding pump
  pump-waiting c [] s = refl
  pump-waiting c (item ∷ rest) s =
      if_elim (λ (t : Buffer E). waiting t ≡ waiting s)
        (ltb s.idempotent_in_flight c.max_concurrent) (λ _. pump-waiting c rest _) (λ _. refl)

  -- What a call adds to those that wait, by its reply.
  abbrev pub admitted : Reply → ℕ → List E → List (Append E)
  admitted waits caller events = record { caller = caller; events = events } ∷ []
  admitted _ caller events = []

  append-waiting :
      (c : Settings) (caller : ℕ) (events : List E) (s : Buffer E)
      → IsBatching c s
      → waiting (append c caller events s).0
        ≡ waiting s ++ admitted (append c caller events s).1 caller events
  unfolding append
  append-waiting c caller events s h =
      let P : Buffer E × Reply → Type 0 =
        λ o. waiting o.0 ≡ waiting s ++ admitted o.1 caller events in
      let s' = enqueue caller events s in
      let grown : waiting s' ≡ waiting s ++ record { caller = caller; events = events } ∷ [] =
        unfold enqueue in sym (append_assoc (at_work s.in_flight) s.pending _) in
      if_elim P (length events == 0) (λ _. sym (append-nil _))
        (λ n.
          if_elim P (ltb c.max_events (length events)) (λ _. sym (append-nil _))
            (λ m.
              if_elim P (ltb c.max_pending_events (queued_events s + length events))
                (λ _. sym (append-nil _))
                (λ room.
                  let h' : IsBatching c s' =
                    enqueue-IsBatching c caller events s h (ground arith) (ground arith) in
                  if_elim P (leb c.max_events s'.pending_events)
                    (λ _. request_flush-waiting c s' h' ∙ grown)
                    (λ _. schedule_flush-waiting s' ∙ grown))))

  next_round-waiting :
      (c : Settings) (xs : List (Append E)) (s : Buffer E)
      → s.in_flight ≡ none
      → waiting (next_round c xs s) ≡ s.pending
  unfolding next_round
  next_round-waiting c [] s e = rw e
  next_round-waiting c (x ∷ xs) s e = start_batch-waiting c s e

  append_returns-waiting :
      (c : Settings) (result : Option ℕ) (s : Buffer E)
      → waiting s ≡ at_work s.in_flight ++ waiting (append_returns c result s)
  unfolding append_returns
  append_returns-waiting c result s = elim (Option-cases s.in_flight) [
    | inl e ↦ rw (e, append_returns) (rw e refl)
    | inr (batch, e) ↦
        rw (e, append_returns)
          (unfold batch_returns in
            sym (ap (λ l. batch ++ l) (next_round-waiting c s.pending _ refl)))
  ]

  callers-share :
      (offset result : ℕ) (batch : List (Append E))
      → map (λ o. o.0) (share offset result batch) ≡ callers batch
  unfolding share
  callers-share offset result [] = refl
  callers-share offset result (x ∷ xs) =
      ap (λ l. x.caller ∷ l) (callers-share (offset + length x.events) result xs)

  callers-reject_all : (batch : List (Append E)) → map (λ o. o.0) (reject_all batch) ≡ callers batch
  unfolding reject_all
  callers-reject_all [] = refl
  callers-reject_all (x ∷ xs) = ap (λ l. x.caller ∷ l) (callers-reject_all xs)

  callers-settle_batch :
      (result : Option ℕ) (batch : List (Append E))
      → map (λ o. o.0) (settle_batch result batch) ≡ callers batch
  unfolding settle_batch
  callers-settle_batch none batch = callers-reject_all batch
  callers-settle_batch (some n) batch = callers-share 0 n batch

  -- The appends that an event admits, and the answers that it gives to appends.
  unfoldable pub admits : Settings → Event E → Buffer E → List (Append E)
  admits c (call caller events) s = admitted (append c caller events s).1 caller events
  admits c _ s = []

  unfoldable pub answers : Settings → Event E → Buffer E → List (ℕ × Outcome)
  answers c (answer result) s = settle_batch result (at_work s.in_flight)
  answers c _ s = []

  append_idempotent-waiting :
      (c : Settings) (caller : ℕ) (events : List E) (s : Buffer E)
      → waiting (append_idempotent c caller events s).0 ≡ waiting s
  unfolding append_idempotent enqueue_idempotent
  append_idempotent-waiting c caller events s =
      let P : Buffer E × Reply → Type 0 = λ o. waiting o.0 ≡ waiting s in
      if_elim P (ltb c.max_events (length events)) (λ _. refl)
        (λ _.
          if_elim P (ltb c.max_pending_events (queued_events s + max 1 (length events))) (λ _. refl)
            (λ _. pump-waiting c _ _))

  idempotent_returns-waiting :
      (c : Settings) (i : ℕ) (result : Option ℕ) (s : Buffer E)
      → waiting (idempotent_returns c i result s) ≡ waiting s
  unfolding idempotent_returns
  idempotent_returns-waiting c i result s = elim (Option-cases (pick i s.running)) [
    | inl e ↦ rw (e, idempotent_returns) refl
    | inr ((item, others), e) ↦
        rw (e, idempotent_returns) (unfold item_returns in pump-waiting c s.queue _)
  ]

  timer_fires-waiting :
      (c : Settings) (s : Buffer E) → IsBatching c s → waiting (timer_fires c s) ≡ waiting s
  unfolding timer_fires request_flush
  timer_fires-waiting c s h =
      if_elim (λ (t : Buffer E). waiting t ≡ waiting s) s.timer (λ _. request_flush-waiting c s h)
        (λ _. refl)

  -- One event: those that wait and those that are admitted are, in this order, those that are answered and
  -- those that wait afterwards.
  pub step-waiting :
      (c : Settings) (e : Event E) (s : Buffer E)
      → IsBatching c s
      → callers (waiting s) ++ callers (admits c e s)
        ≡ map (λ o. o.0) (answers c e s) ++ callers (waiting (step c e s))
  unfolding step admits answers
  step-waiting c (call caller events) s h =
      sym (map-append _ (waiting s) _) ∙ ap callers (sym (append-waiting c caller events s h))
  step-waiting c (idempotent_call caller events) s h =
      append-nil (callers (waiting s))
      ∙ ap callers (sym (append_idempotent-waiting c caller events s))
  step-waiting c timer s h =
      append-nil (callers (waiting s)) ∙ ap callers (sym (timer_fires-waiting c s h))
  step-waiting c (answer result) s h =
      append-nil (callers (waiting s))
      ∙ ap callers (append_returns-waiting c result s)
      ∙ map-append _ (at_work s.in_flight) _
      ∙ ap (λ l. l ++ callers (waiting (append_returns c result s)))
          (sym (callers-settle_batch result (at_work s.in_flight)))
  step-waiting c (idempotent_answer i result) s h =
      append-nil (callers (waiting s)) ∙ ap callers (sym (idempotent_returns-waiting c i result s))
