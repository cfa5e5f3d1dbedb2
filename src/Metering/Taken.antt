-- ===== src/Metering/Taken.antt =====
-- src/stores/postgresEventStore.ts: a batch id is taken once in 35 days.
use poolstatis.Common.{
  ℕ, ◌+◌, ◌≤◌, ◌≡◌, refl, sym, subst, ◌∙◌, inl, inr, Bool, true, false, not, none, some, String,
  List, [], ◌∷◌, eq_refl, arith, Bool-cases, Option-cases, if_elim, All, ◌==◌,
}
use poolstatis.Metering.Table.{
  Dedupe, ingest, experience, BatchStatus, completed, Batch, Tables, Answer, threw, done, committed,
  used,
}
use poolstatis.Metering.Insert.{Inserted, Surroundings, insert_events, write_usage, resolve_group}
use poolstatis.Metering.Batches.{
  same_dedupe, Request, is_batch, find_batch, complete_batch, new_batch, reclaim_interval,
  is_failed, is_processing, is_reclaimable, Result, accepted, duplicate, meter_request, claim_found,
  claim, append_idempotent,
}
use poolstatis.Metering.Calls.{
  Call, appends, batches, backfills, configures, step, run, IsClosed, Kept, appends_kept,
  backfills_kept, meter_group-Kept, warned_kept, warned_after,
}
use poolstatis.Metering.Entitlements.{
  Update, configure, snapshot_revision, is_below, is_unchanged, write_entitlement,
}
use poolstatis.Releases.Changes.{some-eq}
use poolstatis.Metering.Rows.{
  find_batch-is_batch, find_batch-same, find_batch-append, find_batch-new, find-complete_self,
  find-complete_other,
}

-- The batch of a request is completed, and was received at a time or later.
abbrev IsTaken : Request → ℕ → Tables → Type 0
IsTaken r since t =
    (b : Batch) × (find_batch r t.batches ≡ some b)
    × ((b.status ≡ completed) × (since ≤ b.received_at))

IsTaken-IsClosed : (period : ℕ) (r : Request) (since : ℕ) → IsClosed period (IsTaken r since)
unfolding insert_events write_usage
IsTaken-IsClosed period r since = record {
  plain = λ t events none_left h. h;
  metered = λ t org source first events same within h. h;
  noted = λ t hs ws h. h;
}

completed_holds :
    (s : BatchStatus) → s ≡ completed → (is_failed s ≡ false) × (is_processing s ≡ false)
unfolding is_failed is_processing
completed_holds s h =
    subst (λ (x : BatchStatus). (is_failed x ≡ false) × (is_processing x ≡ false)) (sym h)
      (refl, refl)

not_reclaimable :
    (since now : ℕ) (b : Batch)
    → b.status ≡ completed
    → since ≤ b.received_at
    → now ≤ since + reclaim_interval
    → is_reclaimable now b ≡ false
unfolding is_reclaimable
not_reclaimable since now b status later soon =
    rw (completed_holds b.status status).0 (ground arith)

module _ (s : Surroundings) (q r : Request) (source : String) (since now : ℕ) where
  abbrev Stays : Answer Result → Type 0
  Stays a = Kept (IsTaken-IsClosed s.period r since) a

  meter_request-Stays : (t : Tables) → IsTaken r since t → Stays (meter_request s q source t)
  unfolding meter_request
  meter_request-Stays t h =
      meter_group-Kept (IsTaken-IsClosed s.period r since) s q.events source t
        (resolve_group s.org_of
          (record { project_id = q.project_id; env = q.env; events = q.events; org_id = none }))
        refl h

  claim_found-Stays :
      (t : Tables) (c : Batch)
      → find_batch q t.batches ≡ some c
      → now ≤ since + reclaim_interval
      → IsTaken r since t
      → Stays (claim_found s q source now t c)
  unfolding claim_found
  claim_found-Stays t c found soon (b, there, (status, later)) =
      if_elim (λ (a : Answer Result). Stays a) (is_reclaimable now c)
        (λ again. meter_request-Stays _ (moved again))
        (λ _.
          if_elim (λ (a : Answer Result). Stays a) (is_processing c.status) (λ _. tt)
            (λ _. (b, there, (status, later))))
    where
      moved :
          is_reclaimable now c ≡ true
          → IsTaken r since (record t { batches = complete_batch q now t.batches })
      moved again = elim (Bool-cases (is_batch r c)) [
        | inl mine ↦
            let same =
              find_batch-same q r t.batches c (find_batch-is_batch q t.batches c found) mine in
            let c_is_b = some-eq (sym found ∙ (same ∙ there)) in
            let held =
              subst (λ (x : Batch). is_reclaimable now x ≡ false) (sym c_is_b)
                (not_reclaimable since now b status later soon) in
            absurd cc
        | inr other ↦
            (b, find-complete_other q r now t.batches c found other ∙ there, (status, later))
      ]

  claim-Stays :
      (t : Tables)
      → now ≤ since + reclaim_interval
      → IsTaken r since t
      → Stays (claim s q source now t)
  unfolding claim
  claim-Stays t soon (b, there, held) = elim (Option-cases (find_batch q t.batches)) [
    | inl e ↦
        rw (e, claim)
          (meter_request-Stays _ (b, find_batch-append r t.batches b (new_batch q now) there, held))
    | inr (c, e) ↦ rw (e, claim) (claim_found-Stays t c e soon (b, there, held))
  ]

  batch-IsTaken :
      (locked stored : Bool) (t : Tables)
      → now ≤ since + reclaim_interval
      → IsTaken r since t
      → IsTaken r since (warned_after stored t (append_idempotent s locked q source now t))
  unfolding append_idempotent
  batch-IsTaken locked stored t soon h =
      warned_kept (IsTaken-IsClosed s.period r since) stored t _
        (if_elim (λ (a : Answer Result). Stays a) locked (λ _. claim-Stays t soon h) (λ _. tt)) h

-- The call comes before a time, if it claims a batch.
unfoldable pub ComesBy : ℕ → Call → Type 0
ComesBy limit (batches s locked q source now stored) = now ≤ limit
ComesBy limit _ = Unit

configure-IsTaken :
    (r : Request) (since : ℕ) (org : String) (period : ℕ) (u : Update) (actor : String) (t : Tables)
    → IsTaken r since t
    → IsTaken r since (committed t (configure org period u actor t))
unfolding configure write_entitlement committed
configure-IsTaken r since org period u actor t h =
    if_elim (λ (a : Answer Bool). IsTaken r since (committed t a))
      (not (snapshot_revision org t == u.expected_revision)) (λ _. h)
      (λ _.
        if_elim (λ (a : Answer Bool). IsTaken r since (committed t a))
          (is_below u.hard_limit (used org period t.counters)) (λ _. h)
          (λ _.
            if_elim (λ (a : Answer Bool). IsTaken r since (committed t a)) (is_unchanged org u t)
              (λ _. h) (λ _. h)))

step-IsTaken :
    (r : Request) (since : ℕ) (c : Call) (t : Tables)
    → ComesBy (since + reclaim_interval) c
    → IsTaken r since t
    → IsTaken r since (step c t)
unfolding step ComesBy
step-IsTaken r since (appends s events stored) t soon h =
    appends_kept (IsTaken-IsClosed s.period r since) s events stored t refl h
step-IsTaken r since (batches s locked q source now stored) t soon h =
    batch-IsTaken s q r source since now locked stored t soon h
step-IsTaken r since (backfills s b source stored) t soon h =
    backfills_kept (IsTaken-IsClosed s.period r since) s b source stored t refl h
step-IsTaken r since (configures org period u actor) t soon h =
    configure-IsTaken r since org period u actor t h

run-IsTaken :
    (r : Request) (since : ℕ) (cs : List Call) (t : Tables)
    → All (ComesBy (since + reclaim_interval)) cs
    → IsTaken r since t
    → IsTaken r since (run cs t)
unfolding run
run-IsTaken r since [] t soon h = h
run-IsTaken r since (c ∷ cs) t soon h =
    run-IsTaken r since cs (step c t) soon.1 (step-IsTaken r since c t soon.0 h)

same_dedupe_refl : (d : Dedupe) → same_dedupe d d ≡ true
unfolding same_dedupe
same_dedupe_refl ingest = refl
same_dedupe_refl experience = refl

new_batch-is_batch : (r : Request) (now : ℕ) → is_batch r (new_batch r now) ≡ true
unfolding is_batch new_batch same_dedupe
new_batch-is_batch r now =
    rw (same_dedupe_refl r.dedupe, eq_refl r.project_id, eq_refl r.env, eq_refl r.batch_id) refl

-- What a claim that is accepted leaves.
abbrev Takes : Request → ℕ → Answer Result → Type 0
Takes r now (threw e) = Unit
Takes r now (done u duplicate) = Unit
Takes r now (done u (accepted a)) = IsTaken r now u

Kept-Takes :
    (period : ℕ) (r : Request) (now : ℕ) (a : Answer Result)
    → Kept (IsTaken-IsClosed period r now) a
    → Takes r now a
Kept-Takes period r now (threw e) h = tt
Kept-Takes period r now (done u duplicate) h = tt
Kept-Takes period r now (done u (accepted a)) h = h

claim-Takes :
    (s : Surroundings) (r : Request) (source : String) (now : ℕ) (t : Tables)
    → Takes r now (claim s r source now t)
unfolding claim claim_found
claim-Takes s r source now t = elim (Option-cases (find_batch r t.batches)) [
  | inl e ↦
      rw (e, claim)
        (Kept-Takes s.period r now _ (
          meter_request-Stays s r r source now now _ (
            new_batch r now,
            find_batch-new r t.batches (new_batch r now) e (new_batch-is_batch r now),
            (unfold new_batch in (refl, omega arith)),
          )))
  | inr (b, e) ↦
      rw (e, claim)
        (if_elim (Takes r now) (is_reclaimable now b)
          (λ _. Kept-Takes s.period r now _ (
            meter_request-Stays s r r source now now _ (
              record b { status = completed; received_at = now },
              find-complete_self r now t.batches b e,
              (refl, omega arith),
            )))
          (λ _. if_elim (Takes r now) (is_processing b.status) (λ _. tt) (λ _. tt)))
]

IsTaken-duplicate :
    (s : Surroundings) (r : Request) (source : String) (since now : ℕ) (t : Tables)
    → now ≤ since + reclaim_interval
    → IsTaken r since t
    → append_idempotent s true r source now t ≡ done t duplicate
unfolding append_idempotent claim claim_found
IsTaken-duplicate s r source since now t soon (b, there, (status, later)) =
    rw
      (
        there,
        claim,
        not_reclaimable since now b status later soon,
        (completed_holds b.status status).1,
      )
      refl

-- A batch that was accepted is answered as a duplicate, and changes nothing, for the 35 days that follow,
-- whatever calls come in between at times within them, whenever its lock is free.
pub append_idempotent-once :
    (s s' : Surroundings) (r : Request) (source source' : String) (before now : ℕ) (t u : Tables)
    (a : Inserted) (cs : List Call)
    → append_idempotent s true r source before t ≡ done u (accepted a)
    → All (ComesBy (before + reclaim_interval)) cs
    → now ≤ before + reclaim_interval
    → append_idempotent s' true r source' now (run cs u) ≡ done (run cs u) duplicate
unfolding append_idempotent
append_idempotent-once s s' r source source' before now t u a cs first soon last =
    let taken = subst (Takes r before) first (claim-Takes s r source before t) in
    IsTaken-duplicate s' r source' before now (run cs u) last (run-IsTaken r before cs u soon taken)
