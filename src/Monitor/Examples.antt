-- ===== src/Monitor/Examples.antt =====
-- A pass over four releases: one is planned, one waits for its window, one has evidence and one fails.
use poolstatis.Common.{
  ℕ, ◌≡◌, refl, false, none, some, Option, String, [], ◌∷◌, get, set, All, str_eq, arith,
  if◌then◌else◌,
}
use poolstatis.Monitor.Claims.{IsKeyed, run_once-settles, run_once-handled, handled}
use poolstatis.Monitor.Passes.{
  Environment, ready, thrown, or_not_ready, judge, decide, attempt, process, process_all, run_once,
}
use poolstatis.Monitor.Settled.{due_at}
use poolstatis.Monitor.Tables.{
  Options, AttemptStatus, Row, Tables, is_due, is_open, in_scope, is_past, due_time, due_no_later,
  coalesce, place, due_rows, limit, lease, claim_due, update_row, begin, is_attempt, finish,
  finish_rows, finished, or_scheduled, scheduled, retry_delay, ends, is_over,
}
use poolstatis.Releases.Table.{Status, planned, deployed, observing}

abbrev options : Options
options = record {
  batch_size = 10;
  max_attempts = 2;
  base_retry_ms = 1000;
  max_retry_ms = 60000;
  lease_ms = 300000;
  project_id = none;
}

abbrev environment : Environment
environment = record {
  evaluate = λ r now. if str_eq r.id "c" then ready "e1" "d1" else thrown "timeout";
  window_key = λ id revision deployed_at observation_to. id;
}

abbrev row : String → Status → ℕ → Option ℕ → Row
row id status days deployed_at = record {
  id = id;
  project_id = "p";
  status = status;
  contract_revision = 1;
  observation_window_days = days;
  deployed_at = deployed_at;
  evaluation_attempts = 0;
  next_evaluation_at = none;
  retry_state = none;
}

abbrev tables : Tables
tables = record {
  releases =
      ("a", row "a" planned 1 none)
      ∷ ("b", row "b" deployed 14 (some 5000))
      ∷ ("c", row "c" observing 0 (some 4000))
      ∷ ("d", row "d" observing 0 (some 6000))
      ∷ [];
  attempts = [];
}

pass :
    (run_once environment options 10000 tables).1
    ≡ record { claimed = 3; waiting = 1; succeeded = 1; failed = 1 }
unfolding run_once claim_due due_rows is_due is_open in_scope due_time coalesce is_past ends is_over
    place due_no_later limit lease update_row get set process_all process attempt begin is_attempt
    decide judge or_not_ready retry_delay finish finish_rows finished or_scheduled scheduled
pass = refl

-- The release that fails is tried again a second later.
next_times :
    get (run_once environment options 10000 tables).0.releases "d"
    ≡ some (record (row "d" observing 0 (some 6000)) {
      evaluation_attempts = 1;
      next_evaluation_at = some 11000;
      retry_state = some (record {
        status = AttemptStatus.failed;
        reason = some "evaluation_failed";
        error_code = some "timeout";
      });
    })
unfolding run_once claim_due due_rows is_due is_open in_scope due_time coalesce is_past ends is_over
    place due_no_later limit lease update_row get set process_all process attempt begin is_attempt
    decide judge or_not_ready retry_delay finish finish_rows finished or_scheduled scheduled
next_times = refl

tables-IsKeyed : IsKeyed tables.releases
unfolding get
tables-IsKeyed = (refl, (refl, (refl, (refl, (refl, (refl, (refl, (refl, tt))))))))

run_once-settles_example :
    All
      (λ r. due_at options 10000 (run_once environment options 10000 tables).0 r.id ≡ false)
      (claim_due options 10000 tables).0
run_once-settles_example =
    run_once-settles environment options 10000 tables tables-IsKeyed (omega arith) (omega arith)

run_once-handled_example :
    (run_once environment options 10000 tables).1.claimed
    ≡ handled (run_once environment options 10000 tables).1
run_once-handled_example = run_once-handled environment options 10000 tables
