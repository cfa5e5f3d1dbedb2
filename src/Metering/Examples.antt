-- ===== src/Metering/Examples.antt =====
-- The usage of one organization with a cap of three events a month.
use poolstatis.Common.{
  ℕ, ◌≡◌, refl, Bool, true, false, some, String, List, [], ◌∷◌, get, set, arith, sort_by, insert_by,
  lex_le,
}
use poolstatis.Metering.Table.{
  Event, live, is_billable, billable, Tables, ingest, threw, done, committed, is_counter, used,
  add_usage, hard_limit_of, thresholds_of, is_warned, record_warning, record_warnings,
  revision_conflict,
}
use poolstatis.Metering.Insert.{
  Surroundings, Inserted, max_meter_quantity, exceeds, crossed, crossings, insert_events,
  write_usage, meter, meter_scoped, is_elsewhere, insert_metered, add_to_groups, group_from,
  has_billable_events, cons_group, resolve_group, resolve_groups, scope_of, plus, insert_groups,
  or_empty, group_order, with_sources, append_groups, append, remember,
}
use poolstatis.Metering.Batches.{
  Request, find_batch, new_batch, accept, meter_group, meter_request, claim_found, claim,
  append_idempotent, accepted, duplicate, reclaim_interval,
}
use poolstatis.Metering.Entitlements.{
  Update, latest_revision, configured_revision, snapshot_revision, same_option, same_list,
  is_unchanged, advanced, reached, new_revision, write_entitlement, is_below, configure,
}
use poolstatis.Metering.Calls.{Call, appends, batches, configures, step, run, warned_after}
use poolstatis.Metering.Counts.{IsCounted, ledger_of, ledger_of_project, billable_of, run-IsCounted}
use poolstatis.Metering.Caps.{IsCapped, last_month, month_of, run-IsCapped}
use poolstatis.Metering.Taken.{ComesBy, append_idempotent-once}
use poolstatis.Metering.Stale.{configure-stale}

abbrev around : Surroundings
around = record { org_of = λ _. some "o1"; period = 678; place = λ _. 1; source = λ _. "direct:1" }

abbrev event : String → Bool → Event
event project system = record {
  project_id = project;
  env = "prod";
  name = "signed_up";
  is_system = system;
  from_system = false;
  registered = true;
  origin = live;
}

abbrev empty : Tables
empty = record {
  events = [];
  ledger = [];
  counters = [];
  entitlements = [];
  warnings = [];
  revisions = [];
  batches = [];
  backfills = [];
}

abbrev cap : ℕ → Update
cap expected = record {
  expected_revision = expected;
  hard_limit = some 3;
  warning_thresholds = 2 ∷ [];
  reason = "a cap for the trial";
}

abbrev two : List Event
two = event "p1" false ∷ event "p1" true ∷ event "p2" false ∷ []

abbrev request : Request
request = record {
  dedupe = ingest;
  project_id = "p1";
  env = "prod";
  batch_id = "b1";
  events = event "p1" false ∷ [];
}

-- A cap, two events that count, a batch with a third, the same batch again, and two more that are too many.
abbrev calls : List Call
calls =
    configures "o1" 678 (cap 0) "key:1"
    ∷ appends around two true
    ∷ batches around true request "ingest:b1" 1000 true
    ∷ batches around true request "ingest:b1" 2000 true
    ∷ appends around two true
    ∷ []

calls_count : used "o1" 678 (run calls empty).counters ≡ 3
unfolding run step committed configure snapshot_revision latest_revision configured_revision
    is_below is_unchanged same_option same_list write_entitlement advanced reached new_revision used
    is_counter get set hard_limit_of thresholds_of is_warned record_warning record_warnings remember
    append append_groups group_from add_to_groups resolve_groups resolve_group has_billable_events
    cons_group with_sources group_order or_empty insert_groups insert_metered is_elsewhere billable
    is_billable scope_of meter_scoped meter max_meter_quantity exceeds crossed crossings write_usage
    insert_events add_usage plus sort_by insert_by lex_le warned_after append_idempotent claim
    find_batch claim_found new_batch meter_request meter_group accept
calls_count = refl

empty-IsCounted : IsCounted empty
unfolding used ledger_of billable_of ledger_of_project
empty-IsCounted = record { counted = λ org period. refl; stored = λ project. refl }

run-IsCounted_example : IsCounted (run calls empty)
run-IsCounted_example = run-IsCounted calls empty empty-IsCounted

empty-IsCapped : IsCapped 678 empty
unfolding used get hard_limit_of
empty-IsCapped = record {
  within = λ org. tt;
  later = λ org period after. refl;
  safe = λ org period. omega arith;
}

run-IsCapped_example : IsCapped (last_month 678 calls) (run calls empty)
unfolding month_of
run-IsCapped_example =
    run-IsCapped calls 678 empty
      (omega arith, (omega arith, (omega arith, (omega arith, (omega arith, tt))))) empty-IsCapped

abbrev one : List Event
one = event "p1" false ∷ []

abbrev batched : Tables
batched = record empty {
  events = one;
  ledger =
      record {
        org_id = "o1";
        project_id = "p1";
        env = "prod";
        period = 678;
        quantity = 1;
        source_batch = "ingest:b1";
      }
      ∷ [];
  counters = record { org_id = "o1"; period = 678; quantity = 1 } ∷ [];
  batches = new_batch request 1000 ∷ [];
}

abbrev counted_one : Inserted
counted_one = record { count = 1; warned = [] }

first_is_accepted :
    append_idempotent around true request "ingest:b1" 1000 empty
    ≡ done batched (accepted counted_one)
unfolding append_idempotent claim find_batch meter_request resolve_group has_billable_events
    is_billable meter_group insert_metered is_elsewhere billable scope_of meter_scoped meter used
    exceeds hard_limit_of thresholds_of get max_meter_quantity write_usage insert_events add_usage
    crossings accept
first_is_accepted = refl

append_idempotent-once_example :
    append_idempotent around true request "ingest:b1" 3000000000 (
      run
        (batches around true request "ingest:b1" 2000 true ∷ appends around two true ∷ [])
        batched)
    ≡ done
        (run
          (batches around true request "ingest:b1" 2000 true ∷ appends around two true ∷ [])
          batched)
        duplicate
unfolding ComesBy reclaim_interval
append_idempotent-once_example =
    append_idempotent-once around around request "ingest:b1" "ingest:b1" 1000 3000000000 empty
      batched counted_one
      (batches around true request "ingest:b1" 2000 true ∷ appends around two true ∷ [])
      first_is_accepted (omega arith, (tt, tt)) (omega arith)

abbrev capped : Tables
capped = write_entitlement "o1" 678 (cap 0) "key:1" empty

cap_is_set : configure "o1" 678 (cap 0) "key:1" empty ≡ done capped true
unfolding configure snapshot_revision latest_revision configured_revision is_below is_unchanged
    same_option used get hard_limit_of thresholds_of
cap_is_set = refl

configure-stale_example :
    configure "o1" 679 (cap 0) "key:2" (run (appends around two true ∷ []) capped)
    ≡ threw revision_conflict
configure-stale_example =
    configure-stale "o1" "key:1" "key:2" 678 679 (cap 0) (cap 0) empty capped
      (appends around two true ∷ []) cap_is_set (omega arith)
