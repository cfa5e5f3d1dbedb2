-- ===== src/BufferedStore/Answers.antt =====
-- src/stores/bufferedEventStore.ts: the promises of the accepted calls, and what they are settled with.
use poolstatis.Common.{
  ℕ, ◌+◌, ◌≡◌, refl, sym, ap, ◌∙◌, inl, inr, false, Option, none, some, List, [], ◌∷◌, ◌++◌, map,
  length, max, ltb, leb, ◌==◌, ◌||◌, Option-cases, if_elim,
}
use mathlib.Core.List.{append-nil, append_assoc, map-append}
use poolstatis.BufferedStore.State.{
  Settings, Append, IdempotentAppend, Outcome, Buffer, queued_events, is_empty, start_batch,
  flush_pending, schedule_flush, request_flush,
}
use poolstatis.BufferedStore.Steps.{
  Reply, Event, call, idempotent_call, timer, answer, idempotent_answer, append, enqueue,
  timer_fires, next_round, batch_returns, append_returns, pump, enqueue_idempotent,
  append_idempotent, pick, item_returns, idempotent_returns, step, run, settle_batch,
}
use poolstatis.BufferedStore.Safety.{IsSafe, step-IsSafe}
use poolstatis.BufferedStore.Order.{callers, waiting, admits, answers, step-waiting}

nothing_settled :
    (E : Type 0) (result : Option ℕ) (l : List (ℕ × Outcome))
    → l ≡ l ++ settle_batch {E = E} result []
unfolding settle_batch
nothing_settled E none l = sym (append-nil l)
nothing_settled E (some n) l = sym (append-nil l)

abbrev pub settled : List (ℕ × Outcome) → List ℕ
settled xs = map (λ o. o.0) xs

module _ {E : Type 0} where
  -- Only an answer of the delegate settles a promise of `append`.
  flush_pending-resolved : (c : Settings) (s : Buffer E) → (flush_pending c s).resolved ≡ s.resolved
  unfolding flush_pending start_batch
  flush_pending-resolved c s =
      if_elim (λ (t : Buffer E). t.resolved ≡ s.resolved) (s.flushing || is_empty s.pending)
        (λ _. refl) (λ _. refl)

  request_flush-resolved : (c : Settings) (s : Buffer E) → (request_flush c s).resolved ≡ s.resolved
  unfolding request_flush
  request_flush-resolved c s = flush_pending-resolved c (record s { timer = false })

  schedule_flush-resolved : (s : Buffer E) → (schedule_flush s).resolved ≡ s.resolved
  unfolding schedule_flush
  schedule_flush-resolved s =
      if_elim (λ (t : Buffer E). t.resolved ≡ s.resolved) (s.timer || s.flushing) (λ _. refl)
        (λ _. refl)

  pump-resolved :
      (c : Settings) (q : List (IdempotentAppend E)) (s : Buffer E)
      → (pump c q s).resolved ≡ s.resolved
  unfolding pump
  pump-resolved c [] s = refl
  pump-resolved c (item ∷ rest) s =
      if_elim (λ (t : Buffer E). t.resolved ≡ s.resolved)
        (ltb s.idempotent_in_flight c.max_concurrent) (λ _. pump-resolved c rest _) (λ _. refl)

  append-resolved :
      (c : Settings) (caller : ℕ) (events : List E) (s : Buffer E)
      → (append c caller events s).0.resolved ≡ s.resolved
  unfolding append enqueue
  append-resolved c caller events s =
      let P : Buffer E × Reply → Type 0 = λ o. o.0.resolved ≡ s.resolved in
      let s' = enqueue caller events s in
      if_elim P (length events == 0) (λ _. refl)
        (λ _.
          if_elim P (ltb c.max_events (length events)) (λ _. refl)
            (λ _.
              if_elim P (ltb c.max_pending_events (queued_events s + length events)) (λ _. refl)
                (λ _.
                  if_elim P (leb c.max_events s'.pending_events) (λ _. request_flush-resolved c s')
                    (λ _. schedule_flush-resolved s'))))

  append_idempotent-resolved :
      (c : Settings) (caller : ℕ) (events : List E) (s : Buffer E)
      → (append_idempotent c caller events s).0.resolved ≡ s.resolved
  unfolding append_idempotent enqueue_idempotent
  append_idempotent-resolved c caller events s =
      let P : Buffer E × Reply → Type 0 = λ o. o.0.resolved ≡ s.resolved in
      if_elim P (ltb c.max_events (length events)) (λ _. refl)
        (λ _.
          if_elim P (ltb c.max_pending_events (queued_events s + max 1 (length events))) (λ _. refl)
            (λ _. pump-resolved c _ _))

  timer_fires-resolved : (c : Settings) (s : Buffer E) → (timer_fires c s).resolved ≡ s.resolved
  unfolding timer_fires
  timer_fires-resolved c s =
      if_elim (λ (t : Buffer E). t.resolved ≡ s.resolved) s.timer
        (λ _. flush_pending-resolved c (record s { timer = false })) (λ _. refl)

  idempotent_returns-resolved :
      (c : Settings) (i : ℕ) (result : Option ℕ) (s : Buffer E)
      → (idempotent_returns c i result s).resolved ≡ s.resolved
  unfolding idempotent_returns
  idempotent_returns-resolved c i result s = elim (Option-cases (pick i s.running)) [
    | inl e ↦ rw (e, idempotent_returns) refl
    | inr ((item, others), e) ↦
        rw (e, idempotent_returns) (unfold item_returns in pump-resolved c s.queue _)
  ]

  next_round-resolved :
      (c : Settings) (xs : List (Append E)) (s : Buffer E)
      → (next_round c xs s).resolved ≡ s.resolved
  unfolding next_round start_batch
  next_round-resolved c [] s = refl
  next_round-resolved c (x ∷ xs) s = refl

  append_returns-resolved :
      (c : Settings) (result : Option ℕ) (s : Buffer E)
      → (append_returns c result s).resolved ≡ s.resolved ++ answers c (answer result) s
  unfolding append_returns answers
  append_returns-resolved c result s = elim (Option-cases s.in_flight) [
    | inl e ↦ rw (e, append_returns) (nothing_settled E result s.resolved)
    | inr (batch, e) ↦
        rw (e, append_returns) (unfold batch_returns in (next_round-resolved c s.pending _))
  ]

  step-resolved :
      (c : Settings) (e : Event E) (s : Buffer E)
      → (step c e s).resolved ≡ s.resolved ++ answers c e s
  unfolding step answers
  step-resolved c (call caller events) s =
      append-resolved c caller events s ∙ sym (append-nil s.resolved)
  step-resolved c (idempotent_call caller events) s =
      append_idempotent-resolved c caller events s ∙ sym (append-nil s.resolved)
  step-resolved c timer s = timer_fires-resolved c s ∙ sym (append-nil s.resolved)
  step-resolved c (answer result) s = append_returns-resolved c result s
  step-resolved c (idempotent_answer i result) s =
      idempotent_returns-resolved c i result s ∙ sym (append-nil s.resolved)

  -- Every promise of the buffer so far, of `append` in the order of the answers and of the calls.
  abbrev pub promises : Buffer E → List ℕ
  promises s = settled s.resolved ++ callers (waiting s)

  -- The calls that a run admits.
  unfoldable pub admits_run : Settings → List (Event E) → Buffer E → List ℕ
  unfolding admits
  admits_run c [] s = []
  admits_run c (e ∷ es) s = callers (admits c e s) ++ admits_run c es (step c e s)

  -- One event adds to the promises what it admits, and settles the oldest of them.
  step-promises :
      (c : Settings) (e : Event E) (s : Buffer E)
      → IsSafe c s
      → promises s ++ callers (admits c e s) ≡ promises (step c e s)
  step-promises c e s h =
      append_assoc (settled s.resolved) (callers (waiting s)) (callers (admits c e s))
      ∙ ap (λ l. settled s.resolved ++ l) (step-waiting c e s h.ready.0)
      ∙ sym (
          append_assoc (settled s.resolved) (settled (answers c e s))
            (callers (waiting (step c e s))))
      ∙ ap (λ l. l ++ callers (waiting (step c e s)))
          (sym (map-append _ s.resolved (answers c e s)) ∙ ap settled (sym (step-resolved c e s)))

  pub run-promises :
      (c : Settings) (es : List (Event E)) (s : Buffer E)
      → IsSafe c s
      → promises s ++ admits_run c es s ≡ promises (run c es s)
  unfolding run admits_run
  run-promises c [] s h = append-nil (promises s)
  run-promises c (e ∷ es) s h =
      sym (append_assoc (promises s) (callers (admits c e s)) _)
      ∙ ap (λ l. l ++ admits_run c es (step c e s)) (step-promises c e s h)
      ∙ run-promises c es (step c e s) (step-IsSafe c e s h)
