-- ===== src/Metering/Calls.antt =====
-- src/stores/postgresEventStore.ts and src/services/usageEntitlements.ts: the calls that write the tables, and
-- what is kept by all of them because every metered insertion keeps it.
use poolstatis.Common.{
  ℕ, ◌+◌, ◌≡◌, inl, inr, Bool, true, false, ◌||◌, Option, none, some, String, List, [], ◌∷◌, ◌++◌,
  get, str_eq, ◌==◌, ltb, length, any, if_elim, Option-cases, sort_by, arith,
}
use poolstatis.Metering.Table.{
  Event, billable, Batch, Backfill, Warning, Tables, Answer, threw, done, committed, used,
  hard_limit_of, record_warnings,
}
use poolstatis.Metering.Insert.{
  Inserted, Group, Surroundings, max_meter_quantity, exceeds, insert_events, write_usage, meter,
  meter_scoped, is_elsewhere, insert_metered, scope_of, insert_groups, append_groups, append,
  remember, with_sources, plus, group_order, resolve_group,
}
use poolstatis.Metering.Batches.{
  Request, Result, accepted, duplicate, accept, meter_group, meter_request, claim_found, claim,
  append_idempotent, History, record_backfill, backfill_new, backfill_found, backfill, warned_by,
  complete_batch, new_batch, find_batch, find_backfill, is_reclaimable, is_processing, materialized,
}
use poolstatis.Metering.Entitlements.{Update, configure}

unfoldable pub warned_after : Bool → Tables → Answer Result → Tables
unfolding record_warnings warned_by
warned_after stored t (threw e) = t
warned_after false t (done u a) = u
warned_after true t (done u a) = record u { warnings = record_warnings u.warnings (warned_by a) }

-- Each call has whether its warnings could be recorded after COMMIT.
pub data Call : Type 0 where
  appends : Surroundings → List Event → Bool → Call
  batches : Surroundings → Bool → Request → String → ℕ → Bool → Call
  backfills : Surroundings → History → String → Bool → Call
  configures : String → ℕ → Update → String → Call

unfoldable pub step : Call → Tables → Tables
unfolding warned_after
step (appends s events stored) t = remember stored t (append s events t)
step (batches s locked r source now stored) t =
    warned_after stored t (append_idempotent s locked r source now t)
step (backfills s h source stored) t = warned_after stored t (backfill s h source t)
step (configures org period u actor) t = committed t (configure org period u actor t)

unfoldable pub run : List Call → Tables → Tables
run [] t = t
run (c ∷ cs) t = run cs (step c t)

-- A predicate that insertions of a period keep.
pub record IsClosed (period : ℕ) (P : Tables → Type 0) : Type 0 where
  pub plain :
      (t : Tables) (events : List Event)
      → length (billable events) ≡ 0
      → P t
      → P (insert_events events t)
  pub metered :
      (t : Tables) (org source : String) (first : Event) (events : List Event)
      → any (is_elsewhere first) events ≡ false
      → (ltb max_meter_quantity (used org period t.counters + length (billable events))
          || exceeds
              (hard_limit_of (get t.entitlements org))
              (used org period t.counters + length (billable events)))
        ≡ false
      → P t
      → P (write_usage (record { org_id = org; period = period }) first events source t)
  pub noted :
      (t : Tables) (hs : List Backfill) (ws : List Warning)
      → P t
      → P (record t { backfills = hs; warnings = ws })

-- A predicate that the claim of a batch keeps.
abbrev pub IsClaimed : (Tables → Type 0) → Type 0
IsClaimed P = (t : Tables) (bs : List Batch) → P t → P (record t { batches = bs })

module _ {period : ℕ} {P : Tables → Type 0} (closed : IsClosed period P) where
  -- The predicate holds of the tables of an answer.
  abbrev pub Kept : {A : Type 0} → Answer A → Type 0
  Kept (threw e) = Unit
  Kept (done u a) = P u

  ends : {A : Type 0} (t : Tables) (a : Answer A) → Kept a → P t → P (committed t a)
  unfolding committed
  ends t (threw e) k h = h
  ends t (done u a) k h = k

  meter_scoped-Kept :
      (scope : Option String) (first : Event) (events : List Event) (source : String) (t : Tables)
      → any (is_elsewhere first) events ≡ false
      → P t
      → Kept (meter_scoped (scope_of period scope) first events source t)
  unfolding meter_scoped meter scope_of
  meter_scoped-Kept none first events source t same h = tt
  meter_scoped-Kept (some org) first events source t same h =
      if_elim (λ (a : Answer Inserted). Kept a) _ (λ _. tt)
        (λ within. closed.metered t org source first events same within h)

  is_zero : (n : ℕ) → (n == 0) ≡ true → n ≡ 0
  is_zero n h = ground arith

  insert_metered-Kept :
      (events : List Event) (source : String) (scope : Option String) (t : Tables)
      → P t
      → Kept (insert_metered events source (scope_of period scope) t)
  unfolding insert_metered
  insert_metered-Kept [] source scope t h = h
  insert_metered-Kept (first ∷ events) source scope t h =
      if_elim (λ (a : Answer Inserted). Kept a) (any (is_elsewhere first) (first ∷ events))
        (λ _. tt)
        (λ same.
          if_elim (λ (a : Answer Inserted). Kept a) (length (billable (first ∷ events)) == 0)
            (λ none_left. closed.plain t (first ∷ events) (is_zero _ none_left) h)
            (λ _. meter_scoped-Kept scope first (first ∷ events) source t same h))

  next-Kept :
      (gs : List (Group × String)) (sum : Inserted) (a : Answer Inserted)
      → ((b : Inserted) (u : Tables) → P u → Kept (insert_groups period gs b u))
      → Kept a
      → Kept (elim a [ threw e ↦ threw e | done u b ↦ insert_groups period gs (plus sum b) u ])
  next-Kept gs sum (threw e) more k = tt
  next-Kept gs sum (done u b) more k = more (plus sum b) u k

  insert_groups-Kept :
      (gs : List (Group × String)) (sum : Inserted) (t : Tables)
      → P t
      → Kept (insert_groups period gs sum t)
  unfolding insert_groups
  insert_groups-Kept [] sum t h = h
  insert_groups-Kept ((g, source) ∷ gs) sum t h =
      next-Kept gs sum (insert_metered g.events source (scope_of period g.org_id) t)
        (λ b u k. insert_groups-Kept gs b u k) (insert_metered-Kept g.events source g.org_id t h)

  append_groups-Kept :
      (s : Surroundings) (gs : Option (List Group)) (t : Tables)
      → s.period ≡ period
      → P t
      → Kept (append_groups s gs t)
  unfolding append_groups
  append_groups-Kept s none t same h = tt
  append_groups-Kept s (some gs) t same h = rw same (
      insert_groups-Kept (with_sources s.source 0 (sort_by (group_order s.place) gs))
        (record { count = 0; warned = [] }) t h)

  remember_kept :
      (stored : Bool) (t : Tables) (a : Answer Inserted) → Kept a → P t → P (remember stored t a)
  unfolding remember
  remember_kept stored t (threw e) k h = h
  remember_kept false t (done u a) k h = k
  remember_kept true t (done u a) k h = closed.noted u u.backfills _ k

  pub appends_kept :
      (s : Surroundings) (events : List Event) (stored : Bool) (t : Tables)
      → s.period ≡ period
      → P t
      → P (remember stored t (append s events t))
  unfolding append
  appends_kept s [] stored t same h = remember_kept stored t _ h h
  appends_kept s (e ∷ events) stored t same h =
      remember_kept stored t _ (append_groups-Kept s _ t same h) h

  accept-Kept : (a : Answer Inserted) → Kept a → Kept (accept a)
  unfolding accept
  accept-Kept (threw e) k = tt
  accept-Kept (done u a) k = k

  pub meter_group-Kept :
      (s : Surroundings) (events : List Event) (source : String) (t : Tables) (g : Option Group)
      → s.period ≡ period
      → P t
      → Kept (meter_group s events source t g)
  unfolding meter_group
  meter_group-Kept s events source t none same h = tt
  meter_group-Kept s events source t (some g) same h =
      accept-Kept _ (rw same (insert_metered-Kept events source g.org_id t h))

  claim_found-Kept :
      (claimed : IsClaimed P) (s : Surroundings) (r : Request) (source : String) (now : ℕ)
      (t : Tables) (b : Batch)
      → s.period ≡ period
      → P t
      → Kept (claim_found s r source now t b)
  unfolding claim_found meter_request
  claim_found-Kept claimed s r source now t b same h =
      if_elim (λ (a : Answer Result). Kept a) (is_reclaimable now b)
        (λ _.
          meter_group-Kept s r.events source _ _ same
            (claimed t (complete_batch r now t.batches) h))
        (λ _. if_elim (λ (a : Answer Result). Kept a) (is_processing b.status) (λ _. tt) (λ _. h))

  claim-Kept :
      (claimed : IsClaimed P) (s : Surroundings) (r : Request) (source : String) (now : ℕ)
      (t : Tables)
      → s.period ≡ period
      → P t
      → Kept (claim s r source now t)
  unfolding claim meter_request
  claim-Kept claimed s r source now t same h = elim (Option-cases (find_batch r t.batches)) [
    | inl e ↦
        rw (e, claim)
          (meter_group-Kept s r.events source _ _ same
            (claimed t (t.batches ++ new_batch r now ∷ []) h))
    | inr (b, e) ↦ rw (e, claim) (claim_found-Kept claimed s r source now t b same h)
  ]

  pub warned_kept :
      (stored : Bool) (t : Tables) (a : Answer Result) → Kept a → P t → P (warned_after stored t a)
  unfolding warned_after
  warned_kept stored t (threw e) k h = h
  warned_kept false t (done u a) k h = k
  warned_kept true t (done u a) k h = closed.noted u u.backfills _ k

  pub batches_kept :
      (claimed : IsClaimed P) (s : Surroundings) (locked : Bool) (r : Request) (source : String)
      (now : ℕ) (stored : Bool) (t : Tables)
      → s.period ≡ period
      → P t
      → P (warned_after stored t (append_idempotent s locked r source now t))
  unfolding append_idempotent
  batches_kept claimed s locked r source now stored t same h =
      warned_kept stored t _
        (if_elim (λ (a : Answer Result). Kept a) locked
          (λ _. claim-Kept claimed s r source now t same h) (λ _. tt))
        h

  record_backfill-Kept : (h : History) (a : Answer Result) → Kept a → Kept (record_backfill h a)
  unfolding record_backfill
  record_backfill-Kept h (threw e) k = tt
  record_backfill-Kept h (done u duplicate) k = k
  record_backfill-Kept h (done u (accepted a)) k = closed.noted u _ u.warnings k

  pub backfills_kept :
      (s : Surroundings) (h : History) (source : String) (stored : Bool) (t : Tables)
      → s.period ≡ period
      → P t
      → P (warned_after stored t (backfill s h source t))
  unfolding backfill backfill_new backfill_found
  backfills_kept s h source stored t same k =
      warned_kept stored t _
        (elim (Option-cases (find_backfill h t.backfills)) [
          | inl e ↦
              rw (e, backfill)
                (record_backfill-Kept h _ (
                  meter_group-Kept s (materialized h.events) source t
                    (resolve_group s.org_of (record {
                      project_id = h.project_id;
                      env = h.env;
                      events = materialized h.events;
                      org_id = none;
                    }))
                    same k))
          | inr (b, e) ↦
              rw (e, backfill)
                (if_elim (λ (a : Answer Result). Kept a) (str_eq b.payload_sha256 h.payload_sha256)
                  (λ _. k) (λ _. tt))
        ])
        k
