-- ===== src/BufferedStore/Queueing.antt =====
-- src/stores/bufferedEventStore.ts: the promises of `appendIdempotent`.
use poolstatis.Common.{
  ℕ, zero, suc, ◌+◌, ◌≡◌, refl, sym, ap, subst, ◌∙◌, inl, inr, false, Option, some, List, [], ◌∷◌,
  ◌++◌, map, length, max, ltb, leb, ◌==◌, ◌||◌, Option-cases, if_elim, Perm,
}
use mathlib.Core.List.{append-nil, append_assoc, map-append}
use mathlib.Core.List.Perm
use poolstatis.BufferedStore.State.{
  Settings, Append, IdempotentAppend, Outcome, Buffer, queued_events, is_empty, start_batch,
  flush_pending, schedule_flush, request_flush,
}
use poolstatis.BufferedStore.Steps.{
  Reply, waits, Event, idempotent_call, append, enqueue, timer_fires, next_round, batch_returns,
  append_returns, pump, enqueue_idempotent, append_idempotent, pick, item_returns,
  idempotent_returns, step, outcome_of,
}
use poolstatis.BufferedStore.Answers.{settled}

-- The idempotent calls that an event admits: those that wait for an answer.
abbrev pub admitted_caller : Reply → ℕ → List ℕ
admitted_caller waits caller = caller ∷ []
admitted_caller _ caller = []

some_inj : {A : Type 0} {a b : A} → some a ≡ some b → a ≡ b
some_inj h = cc

pub same-Perm : {A : Type 0} {k l : List A} → k ≡ l → Perm k l
same-Perm {k = k} h = subst (λ (l : List _). Perm k l) h Perm.rfl

abbrev Half : Type 0 → Type 0
Half E = List (ℕ × Outcome) × List (IdempotentAppend E) × List (IdempotentAppend E)

module _ {E : Type 0} where
  -- The accepted appends of the queue that have no answer yet, the oldest first but for those at work.
  abbrev pub outstanding : Buffer E → List (IdempotentAppend E)
  outstanding s = s.running ++ s.queue

  abbrev pub idempotent_callers : List (IdempotentAppend E) → List ℕ
  idempotent_callers xs = map (λ x. x.caller) xs

  -- The same, of `appendIdempotent`.
  abbrev pub idempotent_promises : Buffer E → List ℕ
  idempotent_promises s = settled s.idempotent_resolved ++ idempotent_callers (outstanding s)

  unfoldable pub idempotent_admits : Settings → Event E → Buffer E → List ℕ
  idempotent_admits c (idempotent_call caller events) s =
      admitted_caller (append_idempotent c caller events s).1 caller
  idempotent_admits c _ s = []

  unfoldable pub idempotent_admits_run : Settings → List (Event E) → Buffer E → List ℕ
  unfolding idempotent_admits
  idempotent_admits_run c [] s = []
  idempotent_admits_run c (e ∷ es) s =
      idempotent_admits c e s ++ idempotent_admits_run c es (step c e s)

  -- The pump moves the oldest of the queue to those at work.
  pump-outstanding :
      (c : Settings) (q : List (IdempotentAppend E)) (s : Buffer E)
      → s.queue ≡ q
      → outstanding (pump c q s) ≡ s.running ++ q
  unfolding pump
  pump-outstanding c [] s h = ap (λ l. s.running ++ l) h
  pump-outstanding c (item ∷ rest) s h =
      if_elim (λ (t : Buffer E). outstanding t ≡ s.running ++ item ∷ rest)
        (ltb s.idempotent_in_flight c.max_concurrent)
        (λ _. pump-outstanding c rest _ refl ∙ append_assoc s.running (item ∷ []) rest)
        (λ _. ap (λ l. s.running ++ l) h)

  -- The item that is picked and the others are those that were there.
  pick-Perm :
      (i : ℕ) (l : List (IdempotentAppend E)) {item : IdempotentAppend E}
      {others : List (IdempotentAppend E)}
      → pick i l ≡ some (item, others)
      → Perm l (item ∷ others)
  unfolding pick
  pick-Perm i [] h = absurd cc
  pick-Perm zero (x ∷ l) {item} {others} h =
      subst (λ (o : IdempotentAppend E × List (IdempotentAppend E)). Perm (x ∷ l) (o.0 ∷ o.1))
        (some_inj h) Perm.rfl
  pick-Perm (suc i) (x ∷ l) {item} {others} h = elim (Option-cases (pick i l)) [
    | inl e ↦ let h' = rw (e, pick) at h in absurd cc
    | inr ((y, rest), e) ↦
        let h' = rw (e, pick) at h in
        subst (λ (o : IdempotentAppend E × List (IdempotentAppend E)). Perm (x ∷ l) (o.0 ∷ o.1))
          (some_inj h') (Perm.trans (Perm.cons x (pick-Perm i l e)) (Perm.swap y x rest))
  ]

  -- What `append` and its batches leave alone.
  abbrev half : Buffer E → Half E
  half s = (s.idempotent_resolved, s.running, s.queue)

  pub half-idempotent_promises :
      (t s : Buffer E) → half t ≡ half s → idempotent_promises t ≡ idempotent_promises s
  half-idempotent_promises t s h =
      ap (λ (o : Half E). settled o.0 ++ idempotent_callers (o.1 ++ o.2)) h

  flush_pending-half : (c : Settings) (s : Buffer E) → half (flush_pending c s) ≡ half s
  unfolding flush_pending start_batch
  flush_pending-half c s =
      if_elim (λ (t : Buffer E). half t ≡ half s) (s.flushing || is_empty s.pending) (λ _. refl)
        (λ _. refl)

  schedule_flush-half : (s : Buffer E) → half (schedule_flush s) ≡ half s
  unfolding schedule_flush
  schedule_flush-half s =
      if_elim (λ (t : Buffer E). half t ≡ half s) (s.timer || s.flushing) (λ _. refl) (λ _. refl)

  pub append-half :
      (c : Settings) (caller : ℕ) (events : List E) (s : Buffer E)
      → half (append c caller events s).0 ≡ half s
  unfolding append enqueue request_flush
  append-half c caller events s =
      let P : Buffer E × Reply → Type 0 = λ o. half o.0 ≡ half s in
      let s' = enqueue caller events s in
      if_elim P (length events == 0) (λ _. refl)
        (λ _.
          if_elim P (ltb c.max_events (length events)) (λ _. refl)
            (λ _.
              if_elim P (ltb c.max_pending_events (queued_events s + length events)) (λ _. refl)
                (λ _.
                  if_elim P (leb c.max_events s'.pending_events)
                    (λ _. flush_pending-half c (record s' { timer = false }))
                    (λ _. schedule_flush-half s'))))

  pub timer_fires-half : (c : Settings) (s : Buffer E) → half (timer_fires c s) ≡ half s
  unfolding timer_fires
  timer_fires-half c s =
      if_elim (λ (t : Buffer E). half t ≡ half s) s.timer
        (λ _. flush_pending-half c (record s { timer = false })) (λ _. refl)

  next_round-half :
      (c : Settings) (xs : List (Append E)) (s : Buffer E) → half (next_round c xs s) ≡ half s
  unfolding next_round start_batch
  next_round-half c [] s = refl
  next_round-half c (x ∷ xs) s = refl

  pub append_returns-half :
      (c : Settings) (result : Option ℕ) (s : Buffer E) → half (append_returns c result s) ≡ half s
  unfolding append_returns
  append_returns-half c result s = elim (Option-cases s.in_flight) [
    | inl e ↦ rw (e, append_returns) refl
    | inr (batch, e) ↦
        rw (e, append_returns) (unfold batch_returns in next_round-half c s.pending _)
  ]

  pump-idempotent_resolved :
      (c : Settings) (q : List (IdempotentAppend E)) (s : Buffer E)
      → (pump c q s).idempotent_resolved ≡ s.idempotent_resolved
  unfolding pump
  pump-idempotent_resolved c [] s = refl
  pump-idempotent_resolved c (item ∷ rest) s =
      if_elim (λ (t : Buffer E). t.idempotent_resolved ≡ s.idempotent_resolved)
        (ltb s.idempotent_in_flight c.max_concurrent) (λ _. pump-idempotent_resolved c rest _)
        (λ _. refl)

  pump-idempotent_promises :
      (c : Settings) (s : Buffer E) → idempotent_promises (pump c s.queue s) ≡ idempotent_promises s
  pump-idempotent_promises c s =
      ap (λ l. settled l ++ idempotent_callers (outstanding (pump c s.queue s)))
        (pump-idempotent_resolved c s.queue s)
      ∙ ap (λ l. settled s.idempotent_resolved ++ idempotent_callers l)
          (pump-outstanding c s.queue s refl)

  enqueue_idempotent-idempotent_promises :
      (caller : ℕ) (events : List E) (weight : ℕ) (s : Buffer E)
      → idempotent_promises (enqueue_idempotent caller events weight s)
        ≡ idempotent_promises s ++ caller ∷ []
  unfolding enqueue_idempotent
  enqueue_idempotent-idempotent_promises caller events weight s =
      ap (λ l. settled s.idempotent_resolved ++ l)
        (ap idempotent_callers (sym (append_assoc s.running s.queue _))
          ∙ map-append _ (outstanding s) _)
      ∙ sym (append_assoc (settled s.idempotent_resolved) (idempotent_callers (outstanding s)) _)

  pub append_idempotent-idempotent_promises :
      (c : Settings) (caller : ℕ) (events : List E) (s : Buffer E)
      → idempotent_promises s ++ admitted_caller (append_idempotent c caller events s).1 caller
        ≡ idempotent_promises (append_idempotent c caller events s).0
  unfolding append_idempotent
  append_idempotent-idempotent_promises c caller events s =
      let P : Buffer E × Reply → Type 0 =
        λ o. idempotent_promises s ++ admitted_caller o.1 caller ≡ idempotent_promises o.0 in
      let w = max 1 (length events) in
      if_elim P (ltb c.max_events (length events)) (λ _. append-nil _)
        (λ _.
          if_elim P (ltb c.max_pending_events (queued_events s + w)) (λ _. append-nil _)
            (λ _. sym (
              pump-idempotent_promises c (enqueue_idempotent caller events w s)
              ∙ enqueue_idempotent-idempotent_promises caller events w s)))

  settles-Perm :
      (r : List (ℕ × Outcome)) (item : IdempotentAppend E) (o : Outcome)
      (running others queue : List (IdempotentAppend E))
      → Perm running (item ∷ others)
      → Perm
          (settled r ++ idempotent_callers (running ++ queue))
          (settled (r ++ (item.caller, o) ∷ []) ++ idempotent_callers (others ++ queue))
  settles-Perm r item o running others queue h =
      Perm.trans
        (Perm.append_left (settled r) (Perm.map (λ x. x.caller) (Perm.append_right queue h)))
        (same-Perm (
          sym (append_assoc (settled r) (item.caller ∷ []) (idempotent_callers (others ++ queue)))
          ∙ ap (λ l. l ++ idempotent_callers (others ++ queue))
              (sym (map-append _ r ((item.caller, o) ∷ [])))))

  pub idempotent_returns-Perm :
      (c : Settings) (i : ℕ) (result : Option ℕ) (s : Buffer E)
      → Perm (idempotent_promises s) (idempotent_promises (idempotent_returns c i result s))
  unfolding idempotent_returns
  idempotent_returns-Perm c i result s = elim (Option-cases (pick i s.running)) [
    | inl e ↦ rw (e, idempotent_returns) Perm.rfl
    | inr ((item, others), e) ↦
        rw (e, idempotent_returns)
          (unfold item_returns in
            Perm.trans
              (settles-Perm s.idempotent_resolved item (outcome_of result) s.running others s.queue
                (pick-Perm i s.running e))
              (same-Perm (sym (pump-idempotent_promises c _))))
  ]
