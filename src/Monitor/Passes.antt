-- ===== src/Monitor/Passes.antt =====
-- src/services/releaseMonitor.ts: `runOnce`. The evaluation is the function that the monitor is built with,
-- and the hash of a window is any function of the window.
use poolstatis.Common.{
  ℕ, ◌+◌, ◌*◌, Option, none, some, String, List, [], ◌∷◌, length, ltb, leb, if◌then◌else◌,
}
use poolstatis.Monitor.Tables.{
  Options, AttemptStatus, waiting, failed, succeeded, Row, Tables, claim_due, begin, Update, finish,
  retry_delay,
}

-- What the evaluator gives: evidence that is ready, or not with the code of the first blocker, each with the
-- ids of the evidence and the decision; or the code of an error.
pub data Evaluation : Type 0 where
  ready : String → String → Evaluation
  blocked : Option String → String → String → Evaluation
  thrown : String → Evaluation

pub record Environment : Type 0 where
  pub evaluate : Row → ℕ → Evaluation
  pub window_key : String → ℕ → ℕ → ℕ → String

pub record RunResult : Type 0 where
  pub claimed : ℕ
  pub waiting : ℕ
  pub succeeded : ℕ
  pub failed : ℕ

unfoldable pub or_not_ready : Option String → String
or_not_ready none = "evidence_not_ready"
or_not_ready (some code) = code

-- The update after an evaluation, and the counter that it adds to.
unfoldable pub judge : Options → ℕ → ℕ → Evaluation → Update × AttemptStatus
unfolding or_not_ready retry_delay
judge o now count (ready evidence decision) = (
  record {
    status = succeeded;
    reason = none;
    error_code = none;
    scheduled_at = none;
    evidence_id = some evidence;
    decision_id = some decision;
  },
  succeeded,
)
judge o now count (blocked code evidence decision) = (
  record {
    status = if leb o.max_attempts count then failed else waiting;
    reason = some (or_not_ready code);
    error_code = none;
    scheduled_at = if leb o.max_attempts count then none else some (now + retry_delay o count);
    evidence_id = some evidence;
    decision_id = some decision;
  },
  (if leb o.max_attempts count then failed else waiting),
)
judge o now count (thrown code) = (
  record {
    status = failed;
    reason = some "evaluation_failed";
    error_code = some code;
    scheduled_at = if leb o.max_attempts count then none else some (now + retry_delay o count);
    evidence_id = none;
    decision_id = none;
  },
  failed,
)

abbrev pub incomplete : ℕ → Update
incomplete observation_to = record {
  status = waiting;
  reason = some "observation_window_incomplete";
  error_code = none;
  scheduled_at = some observation_to;
  evidence_id = none;
  decision_id = none;
}

unfoldable pub decide : Environment → Options → ℕ → ℕ → ℕ → Row → Update × AttemptStatus
unfolding judge
decide e o now observation_to count r =
    if ltb now observation_to
    then (incomplete observation_to, waiting)
    else judge o now count (e.evaluate r now)

unfoldable pub attempt : Environment → Options → ℕ → ℕ → Row → Tables → Tables × AttemptStatus
unfolding decide
attempt e o now deployed_at r t =
    let observation_to = deployed_at + r.observation_window_days * 86400000 in
    let key = e.window_key r.id r.contract_revision deployed_at observation_to in
    let (count, attempts) = begin r.project_id r.id key now t.attempts in
    let (update, counter) = decide e o now observation_to count r in
    (finish r.project_id r.id key count update now (record t { attempts = attempts }), counter)

abbrev pub counted : AttemptStatus → RunResult → RunResult
counted succeeded n = record n { succeeded = n.succeeded + 1 }
counted failed n = record n { failed = n.failed + 1 }
counted _ n = record n { waiting = n.waiting + 1 }

-- One claimed release. A claimed row has a deployment.
unfoldable pub process : Environment → Options → ℕ → Row → Tables × RunResult → Tables × RunResult
unfolding attempt
process e o now r (t, n) = elim r.deployed_at [
  | none ↦ (t, n)
  | some deployed_at ↦
      let (t', counter) = attempt e o now deployed_at r t in (t', counted counter n)
]

unfoldable pub process_all :
    Environment → Options → ℕ → List Row → Tables × RunResult → Tables × RunResult
process_all e o now [] s = s
process_all e o now (r ∷ rows) s = process_all e o now rows (process e o now r s)

unfoldable pub run_once : Environment → Options → ℕ → Tables → Tables × RunResult
unfolding process_all
run_once e o now t =
    let (claimed, t') = claim_due o now t in
    process_all e o now claimed
      (t', record { claimed = length claimed; waiting = 0; succeeded = 0; failed = 0 })
