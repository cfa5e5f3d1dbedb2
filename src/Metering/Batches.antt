-- ===== src/Metering/Batches.antt =====
-- src/stores/postgresEventStore.ts: `appendIdempotent` and `backfill`.
use poolstatis.Common.{
  ℕ, ◌+◌, ◌*◌, Bool, true, false, ◌&&◌, ◌||◌, Option, none, some, String, List, [], ◌∷◌, ◌++◌,
  str_eq, ltb, if◌then◌else◌,
}
use poolstatis.Metering.Table.{
  Event, backfilled, Dedupe, ingest, experience, BatchStatus, processing, completed, failed_batch,
  Batch, Backfill, Warning, Tables, project_missing, batch_processing, backfill_conflict, Answer,
  threw, done,
}
use poolstatis.Metering.Insert.{
  Inserted, Group, Surroundings, resolve_group, scope_of, insert_metered,
}

unfoldable pub same_dedupe : Dedupe → Dedupe → Bool
same_dedupe ingest ingest = true
same_dedupe experience experience = true
same_dedupe _ _ = false

-- `IdempotentAppend`
pub record Request : Type 0 where
  pub dedupe : Dedupe
  pub project_id : String
  pub env : String
  pub batch_id : String
  pub events : List Event

unfoldable pub is_batch : Request → Batch → Bool
unfolding same_dedupe
is_batch r b =
    same_dedupe b.dedupe r.dedupe
    && (str_eq b.project_id r.project_id && (str_eq b.env r.env && str_eq b.batch_id r.batch_id))

unfoldable pub find_batch : Request → List Batch → Option Batch
unfolding is_batch
find_batch r [] = none
find_batch r (b ∷ bs) = if is_batch r b then some b else find_batch r bs

unfoldable pub complete_batch : Request → ℕ → List Batch → List Batch
unfolding is_batch
complete_batch r now [] = []
complete_batch r now (b ∷ bs) =
    let rest = complete_batch r now bs in
    if is_batch r b then record b { status = completed; received_at = now } ∷ bs else b ∷ rest

unfoldable pub new_batch : Request → ℕ → Batch
new_batch r now = record {
  dedupe = r.dedupe;
  project_id = r.project_id;
  env = r.env;
  batch_id = r.batch_id;
  status = completed;
  received_at = now;
}

-- 35 days, in milliseconds.
unfoldable pub reclaim_interval : ℕ
reclaim_interval = 35 * 86400000

unfoldable pub is_failed : BatchStatus → Bool
is_failed failed_batch = true
is_failed _ = false

unfoldable pub is_processing : BatchStatus → Bool
is_processing processing = true
is_processing _ = false

-- The WHERE of the claim.
unfoldable pub is_reclaimable : ℕ → Batch → Bool
unfolding is_failed reclaim_interval
is_reclaimable now b = is_failed b.status || ltb (b.received_at + reclaim_interval) now

-- `AppendResult`, and whether it is a duplicate.
pub data Result : Type 0 where
  accepted : Inserted → Result
  duplicate : Result

unfoldable pub accept : Answer Inserted → Answer Result
accept (threw e) = threw e
accept (done t a) = done t (accepted a)

unfoldable pub meter_group :
    Surroundings → List Event → String → Tables → Option Group → Answer Result
unfolding scope_of insert_metered accept
meter_group s events source t none = threw project_missing
meter_group s events source t (some g) =
    accept (insert_metered events source (scope_of s.period g.org_id) t)

unfoldable pub meter_request : Surroundings → Request → String → Tables → Answer Result
unfolding resolve_group meter_group
meter_request s r source t = meter_group s r.events source t (
    resolve_group s.org_of
      (record { project_id = r.project_id; env = r.env; events = r.events; org_id = none }))

unfoldable pub claim_found : Surroundings → Request → String → ℕ → Tables → Batch → Answer Result
unfolding is_reclaimable complete_batch is_processing meter_request
claim_found s r source now t b =
    if is_reclaimable now b
    then meter_request s r source (record t { batches = complete_batch r now t.batches })
    else if is_processing b.status
    then threw batch_processing
    else done t duplicate

unfoldable pub claim : Surroundings → Request → String → ℕ → Tables → Answer Result
unfolding find_batch claim_found new_batch meter_request
claim s r source now t = elim (find_batch r t.batches) [
  | some b ↦ claim_found s r source now t b
  | none ↦ meter_request s r source (record t { batches = t.batches ++ new_batch r now ∷ [] })
]

-- `appendIdempotent`, up to COMMIT: whether the lock of the batch is free, the key of its ledger row, and
-- the time of the transaction.
unfoldable pub append_idempotent :
    Surroundings → Bool → Request → String → ℕ → Tables → Answer Result
unfolding claim
append_idempotent s locked r source now t =
    if locked then claim s r source now t else threw batch_processing

-- `HistoricalBackfill`
pub record History : Type 0 where
  pub project_id : String
  pub env : String
  pub batch_id : String
  pub payload_sha256 : String
  pub events : List Event

unfoldable pub find_backfill : History → List Backfill → Option Backfill
find_backfill h [] = none
find_backfill h (b ∷ bs) =
    if str_eq b.project_id h.project_id && (str_eq b.env h.env && str_eq b.batch_id h.batch_id)
    then some b
    else find_backfill h bs

unfoldable pub materialized : List Event → List Event
materialized [] = []
materialized (e ∷ events) = record e { origin = backfilled } ∷ materialized events

unfoldable pub record_backfill : History → Answer Result → Answer Result
record_backfill h (threw e) = threw e
record_backfill h (done t duplicate) = done t duplicate
record_backfill h (done t (accepted a)) =
    done
      (record t {
        backfills =
            t.backfills
            ++ record {
              project_id = h.project_id;
              env = h.env;
              batch_id = h.batch_id;
              payload_sha256 = h.payload_sha256;
              event_count = a.count;
            }
              ∷ [];
      })
      (accepted a)

unfoldable pub backfill_new : Surroundings → History → String → Tables → Answer Result
unfolding materialized resolve_group meter_group record_backfill
backfill_new s h source t = record_backfill h (
    meter_group s (materialized h.events) source t (
      resolve_group s.org_of (record {
        project_id = h.project_id;
        env = h.env;
        events = materialized h.events;
        org_id = none;
      })))

unfoldable pub backfill_found : History → Tables → Backfill → Answer Result
backfill_found h t b =
    if str_eq b.payload_sha256 h.payload_sha256 then done t duplicate else threw backfill_conflict

-- `backfill`, up to COMMIT, for a batch with events.
unfoldable pub backfill : Surroundings → History → String → Tables → Answer Result
unfolding find_backfill backfill_found backfill_new
backfill s h source t = elim (find_backfill h t.backfills) [
  | none ↦ backfill_new s h source t
  | some b ↦ backfill_found h t b
]

unfoldable pub warned_by : Result → List Warning
warned_by duplicate = []
warned_by (accepted a) = a.warned
