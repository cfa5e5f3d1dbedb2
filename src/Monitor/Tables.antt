-- ===== src/Monitor/Tables.antt =====
-- src/services/releaseMonitor.ts: the columns that the monitor reads and writes, the claim of the releases
-- that are due, and the two transactions of an attempt. Times are whole milliseconds.
use poolstatis.Common.{
  ℕ, ◌+◌, ◌-◌, ◌*◌, ◌^◌, Bool, true, false, ◌&&◌, not, Option, none, some, String, List, [], ◌∷◌,
  Map, get, set, any, min, ltb, leb, str_eq, if◌then◌else◌,
}
use poolstatis.Releases.Table.{Status, deployed, observing}

pub record Options : Type 0 where
  pub batch_size : ℕ
  pub max_attempts : ℕ
  pub base_retry_ms : ℕ
  pub max_retry_ms : ℕ
  pub lease_ms : ℕ
  pub project_id : Option String

-- `running` is written by `beginAttempt`, the others by `finishAttempt`.
pub data AttemptStatus : Type 0 where
  running waiting failed succeeded : AttemptStatus

-- `retry_state`
pub record RetryState : Type 0 where
  pub status : AttemptStatus
  pub reason : Option String
  pub error_code : Option String

-- A row of `releases`, as far as the monitor goes.
pub record Row : Type 0 where
  pub id : String
  pub project_id : String
  pub status : Status
  pub contract_revision : ℕ
  pub observation_window_days : ℕ
  pub deployed_at : Option ℕ
  pub evaluation_attempts : ℕ
  pub next_evaluation_at : Option ℕ
  pub retry_state : Option RetryState

-- A row of `evaluation_attempts`.
pub record Attempt : Type 0 where
  pub project_id : String
  pub release_id : String
  pub window_key : String
  pub status : AttemptStatus
  pub attempt_count : ℕ
  pub reason : Option String
  pub error_code : Option String
  pub evidence_id : Option String
  pub decision_id : Option String
  pub scheduled_at : ℕ
  pub started_at : ℕ
  pub completed_at : Option ℕ

pub record Tables : Type 0 where
  pub releases : Map Row
  pub attempts : List Attempt

-- `COALESCE(a, b)`
unfoldable pub coalesce {ℓ} : {A : Type ℓ} → Option A → Option A → Option A
coalesce none b = b
coalesce (some a) b = some a

unfoldable pub is_open : Status → Bool
is_open deployed = true
is_open observing = true
is_open _ = false

unfoldable pub in_scope : Option String → String → Bool
in_scope none project = true
in_scope (some p) project = str_eq project p

-- The time from which a row is due, and `none` without a deployment.
unfoldable pub due_time : Row → Option ℕ
unfolding coalesce
due_time r = elim r.deployed_at [ none ↦ none | some d ↦ coalesce r.next_evaluation_at (some d) ]

unfoldable pub is_past : Option ℕ → ℕ → Bool
is_past none now = false
is_past (some due) now = leb due now

unfoldable pub is_over : Options → AttemptStatus → ℕ → Bool
is_over o succeeded count = true
is_over o failed count = leb o.max_attempts count
is_over o _ count = false

-- An attempt that ends the evaluation of a release for good.
unfoldable pub ends : Options → String → String → Attempt → Bool
unfolding is_over
ends o project id a =
    str_eq a.project_id project && (str_eq a.release_id id && is_over o a.status a.attempt_count)

unfoldable pub is_due : Options → ℕ → List Attempt → Row → Bool
unfolding is_open in_scope due_time is_past ends
is_due o now attempts r =
    is_open r.status
    && (in_scope o.project_id r.project_id
        && (is_past (due_time r) now && not (any (ends o r.project_id r.id) attempts)))

-- `ORDER BY`: a row goes behind those that are due no later. Rows of one due time keep the order of
-- their creation.
unfoldable pub due_no_later : Row → Row → Bool
unfolding due_time
due_no_later r q = elim (due_time r) [
  | none ↦ true
  | some a ↦ elim (due_time q) [ none ↦ false | some b ↦ leb a b ]
]

unfoldable pub place : Row → List Row → List Row
unfolding due_no_later
place r [] = r ∷ []
place r (q ∷ rows) = let rest = place r rows in if due_no_later q r then q ∷ rest else r ∷ q ∷ rows

unfoldable pub due_rows : Options → ℕ → List Attempt → Map Row → List Row → List Row
unfolding is_due place
due_rows o now attempts [] sorted = sorted
due_rows o now attempts ((_, r) ∷ rows) sorted =
    due_rows o now attempts rows (if is_due o now attempts r then place r sorted else sorted)

-- `LIMIT`
unfoldable pub limit : ℕ → List Row → List Row
limit n [] = []
limit n (r ∷ rows) = let rest = limit (n - 1) rows in if ltb 0 n then r ∷ rest else []

-- `UPDATE releases ... WHERE project_id = $1 AND id = $2`
unfoldable pub update_row : String → String → (Row → Row) → Map Row → Map Row
update_row project id f rows = elim (get rows id) [
  | none ↦ rows
  | some r ↦ if str_eq r.project_id project then set rows id (f r) else rows
]

unfoldable pub lease : ℕ → List Row → Map Row → Map Row
unfolding update_row
lease until [] rows = rows
lease until (r ∷ claimed) rows =
    lease until claimed
      (update_row r.project_id r.id (λ q. record q { next_evaluation_at = some until }) rows)

-- `claimDue`, one transaction. `RETURNING` may list the rows in any order; here it is that of `due`.
unfoldable pub claim_due : Options → ℕ → Tables → List Row × Tables
unfolding due_rows limit lease
claim_due o now t =
    let claimed = limit o.batch_size (due_rows o now t.attempts t.releases []) in
    (claimed, record t { releases = lease (now + o.lease_ms) claimed t.releases })

unfoldable pub is_attempt : String → String → String → Attempt → Bool
is_attempt project id key a =
    str_eq a.project_id project && (str_eq a.release_id id && str_eq a.window_key key)

-- The row that `ON CONFLICT` makes of one that is there.
abbrev pub again : ℕ → Attempt → Attempt
again now a = record a {
  status = running;
  attempt_count = a.attempt_count + 1;
  reason = none;
  error_code = none;
  started_at = now;
  completed_at = none;
}

abbrev pub first_attempt : String → String → String → ℕ → Attempt
first_attempt project id key now = record {
  project_id = project;
  release_id = id;
  window_key = key;
  status = running;
  attempt_count = 1;
  reason = none;
  error_code = none;
  evidence_id = none;
  decision_id = none;
  scheduled_at = now;
  started_at = now;
  completed_at = none;
}

-- `beginAttempt`: the count of the attempt, and the rows.
unfoldable pub begin : String → String → String → ℕ → List Attempt → ℕ × List Attempt
unfolding is_attempt
begin project id key now [] = (1, first_attempt project id key now ∷ [])
begin project id key now (a ∷ rows) =
    let rest = begin project id key now rows in
    if is_attempt project id key a
    then (a.attempt_count + 1, again now a ∷ rows)
    else (rest.0, a ∷ rest.1)

-- The argument `update` of `finishAttempt`.
pub record Update : Type 0 where
  pub status : AttemptStatus
  pub reason : Option String
  pub error_code : Option String
  pub scheduled_at : Option ℕ
  pub evidence_id : Option String
  pub decision_id : Option String

unfoldable pub or_scheduled : Option ℕ → ℕ → ℕ
or_scheduled none b = b
or_scheduled (some a) b = a

unfoldable pub finished : Update → ℕ → Attempt → Attempt
unfolding coalesce or_scheduled
finished u now a = record a {
  status = u.status;
  reason = u.reason;
  error_code = u.error_code;
  evidence_id = coalesce u.evidence_id a.evidence_id;
  decision_id = coalesce u.decision_id a.decision_id;
  scheduled_at = or_scheduled u.scheduled_at a.scheduled_at;
  completed_at = some now;
}

unfoldable pub finish_rows : String → String → String → Update → ℕ → List Attempt → List Attempt
unfolding is_attempt finished
finish_rows project id key u now [] = []
finish_rows project id key u now (a ∷ rows) =
    let rest = finish_rows project id key u now rows in
    if is_attempt project id key a then finished u now a ∷ rows else a ∷ rest

unfoldable pub scheduled : ℕ → Update → Row → Row
scheduled count u r = record r {
  evaluation_attempts = count;
  next_evaluation_at = u.scheduled_at;
  retry_state = some (record { status = u.status; reason = u.reason; error_code = u.error_code });
}

-- `finishAttempt`, one transaction.
unfoldable pub finish : String → String → String → ℕ → Update → ℕ → Tables → Tables
unfolding finish_rows update_row scheduled
finish project id key count u now t = record {
  releases = update_row project id (scheduled count u) t.releases;
  attempts = finish_rows project id key u now t.attempts;
}

unfoldable pub retry_delay : Options → ℕ → ℕ
retry_delay o count = min o.max_retry_ms (o.base_retry_ms * 2 ^ (count - 1))
