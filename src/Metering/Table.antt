-- ===== src/Metering/Table.antt =====
-- src/stores/postgresEventStore.ts, src/services/usageEntitlements.ts and the migrations 024, 025 and 041: the
-- tables of the accepted events and of their count. The meter is always `events_stored`.
use poolstatis.Common.{
  ℕ, ◌+◌, Bool, true, false, not, ◌&&◌, Option, none, some, String, List, [], ◌∷◌, ◌++◌, Map,
  str_eq, ◌==◌, if◌then◌else◌, keep_if,
}

pub data Origin : Type 0 where
  live backfilled : Origin

-- What metering reads of a `StorableEvent`: `is_system` is `isSystem === true`, `from_system` that the
-- source is `system`.
pub record Event : Type 0 where
  pub project_id : String
  pub env : String
  pub name : String
  pub is_system : Bool
  pub from_system : Bool
  pub registered : Bool
  pub origin : Origin

unfoldable pub is_billable : Event → Bool
is_billable e = not e.is_system && not e.from_system

unfoldable pub billable : List Event → List Event
unfolding is_billable
billable events = keep_if is_billable events

-- A row of `usage_ledger`. A period is the number of a month.
pub record Entry : Type 0 where
  pub org_id : String
  pub project_id : String
  pub env : String
  pub period : ℕ
  pub quantity : ℕ
  pub source_batch : String

-- A row of `organization_usage`.
pub record Counter : Type 0 where
  pub org_id : String
  pub period : ℕ
  pub quantity : ℕ

-- A row of `organization_entitlements`.
pub record Entitlement : Type 0 where
  pub hard_limit : Option ℕ
  pub warning_thresholds : List ℕ
  pub configuration_revision : ℕ

-- A row of `usage_warnings`.
pub record Warning : Type 0 where
  pub org_id : String
  pub period : ℕ
  pub threshold : ℕ
  pub quantity : ℕ

-- A row of `usage_entitlement_revisions`.
pub record Revision : Type 0 where
  pub org_id : String
  pub revision : ℕ
  pub actor : String
  pub reason : String
  pub previous_hard_limit : Option ℕ
  pub hard_limit : Option ℕ
  pub previous_warning_thresholds : List ℕ
  pub warning_thresholds : List ℕ
  pub current_usage : ℕ

pub data Dedupe : Type 0 where
  ingest experience : Dedupe

pub data BatchStatus : Type 0 where
  processing completed failed_batch : BatchStatus

-- A row of `ingest_batches` or of `experience_batches`.
pub record Batch : Type 0 where
  pub dedupe : Dedupe
  pub project_id : String
  pub env : String
  pub batch_id : String
  pub status : BatchStatus
  pub received_at : ℕ

-- A row of `event_backfill_batches`.
pub record Backfill : Type 0 where
  pub project_id : String
  pub env : String
  pub batch_id : String
  pub payload_sha256 : String
  pub event_count : ℕ

pub record Tables : Type 0 where
  pub events : List Event
  pub ledger : List Entry
  pub counters : List Counter
  pub entitlements : Map Entitlement
  pub warnings : List Warning
  pub revisions : List Revision
  pub batches : List Batch
  pub backfills : List Backfill

pub data Error : Type 0 where
  mixed_batch scope_missing project_missing limit_reached batch_processing : Error
  backfill_conflict revision_conflict cap_below_usage : Error

-- A throw with ROLLBACK, or COMMIT.
pub data Answer (A : Type 0) : Type 0 where
  threw : Error → Answer A
  done : Tables → A → Answer A

unfoldable pub committed : {A : Type 0} → Tables → Answer A → Tables
committed t (threw e) = t
committed t (done t' a) = t'

unfoldable pub is_counter : String → ℕ → Counter → Bool
is_counter org period c = str_eq c.org_id org && c.period == period

-- `COALESCE(quantity, 0)` of the row of an organization and a period.
unfoldable pub used : String → ℕ → List Counter → ℕ
unfolding is_counter
used org period [] = 0
used org period (c ∷ cs) = if is_counter org period c then c.quantity else used org period cs

-- INSERT of a zero ON CONFLICT DO NOTHING, and then `quantity = quantity + $3`.
unfoldable pub add_usage : String → ℕ → ℕ → List Counter → List Counter
unfolding is_counter
add_usage org period n [] = record { org_id = org; period = period; quantity = n } ∷ []
add_usage org period n (c ∷ cs) =
    let rest = add_usage org period n cs in
    if is_counter org period c then record c { quantity = c.quantity + n } ∷ cs else c ∷ rest

unfoldable pub hard_limit_of : Option Entitlement → Option ℕ
hard_limit_of none = none
hard_limit_of (some e) = e.hard_limit

unfoldable pub thresholds_of : Option Entitlement → List ℕ
thresholds_of none = []
thresholds_of (some e) = e.warning_thresholds

unfoldable pub is_warned : String → ℕ → ℕ → List Warning → Bool
is_warned org period threshold [] = false
is_warned org period threshold (w ∷ ws) =
    if str_eq w.org_id org && (w.period == period && w.threshold == threshold)
    then true
    else is_warned org period threshold ws

-- INSERT into `usage_warnings` ON CONFLICT DO NOTHING.
unfoldable pub record_warning : List Warning → Warning → List Warning
unfolding is_warned
record_warning ws w = if is_warned w.org_id w.period w.threshold ws then ws else ws ++ w ∷ []

unfoldable pub record_warnings : List Warning → List Warning → List Warning
unfolding record_warning
record_warnings ws [] = ws
record_warnings ws (n ∷ new) = record_warnings (record_warning ws n) new
