-- ===== src/Actions/Table.antt =====
-- src/services/actions.ts: the actions of one project, with their audit, and the calls up to each wait for the
-- effect of an action. JSON values are their texts, and the times of the database are left out.
use poolstatis.Common.{
  ℕ, zero, suc, Bool, true, false, not, Option, none, some, String, List, [], ◌∷◌, ◌++◌, Map, get,
  set, str_eq, if◌then◌else◌,
}

pub data ActionType : Type 0 where
  draft_implementation_prompt prepare_flag_rollback schedule_observation request_more_data :
      ActionType
  generic_webhook create_issue open_draft_pr : ActionType

pub data Status : Type 0 where
  prepared approved executed rejected failed : Status

-- What the fingerprint is taken of, with the release and the key of the call, which it leaves out.
pub record Payload : Type 0 where
  pub decision_id : String
  pub release_id : String
  pub evidence_id : String
  pub decision_revision : ℕ
  pub action_type : ActionType
  pub target : String
  pub payload : String
  pub expected_effect : String
  pub undo : String
  pub idempotency_key : String

pub record Action : Type 0 where
  pub id : String
  pub frozen : Payload
  pub confirmation_fingerprint : String
  pub prepared_by : String
  pub status : Status
  pub approved_by : Option String
  pub result : Option String
  pub error_code : Option String
  pub error_message : Option String

pub data AuditEvent : Type 0 where
  was_prepared was_approved was_executed was_rejected was_failed was_retried : AuditEvent

pub record Audit : Type 0 where
  pub event : AuditEvent
  pub actor : String
  pub snapshot : Action

-- `running` are the calls of `executeApproved` that wait for the effect, each with its action and actor.
pub record Tables : Type 0 where
  pub actions : Map Action
  pub audit : List Audit
  pub running : List (Action × String)

pub data Error : Type 0 where
  not_found idempotency_conflict confirmation_mismatch not_approvable unsupported : Error
  decision_approval_required not_rejectable not_retryable id_taken : Error

-- A throw, or the end of a call. A call that goes on to `executeApproved` is in `running`.
pub data Answer : Type 0 where
  threw : Error → Answer
  done : Tables → Answer

unfoldable pub committed : Tables → Answer → Tables
committed t (threw e) = t
committed t (done t') = t'

-- The write of a row with its audit.
unfoldable pub write : Action → AuditEvent → String → Tables → Tables
write a event actor t = record t {
  actions = set t.actions a.id a;
  audit = t.audit ++ record { event = event; actor = actor; snapshot = a } ∷ [];
}

unfoldable pub find_key : String → Map Action → Option Action
find_key key [] = none
find_key key ((_, a) ∷ rows) =
    if str_eq a.frozen.idempotency_key key then some a else find_key key rows

unfoldable pub new_action : (Payload → String) → String → Payload → String → Action
new_action fingerprint id p actor = record {
  id = id;
  frozen = p;
  confirmation_fingerprint = fingerprint p;
  prepared_by = actor;
  status = prepared;
  approved_by = none;
  result = none;
  error_code = none;
  error_message = none;
}

unfoldable pub insert : Action → String → Tables → Answer
unfolding write
insert a actor t = elim (get t.actions a.id) [
  | none ↦ done (write a was_prepared actor t)
  | some _ ↦ threw id_taken
]

-- `prepareAction`, after its reads of the decision and of what an undo would restore. The fingerprint is the
-- SHA-256 of the payload, and `id` is the one that the database would give.
unfoldable pub prepare : (Payload → String) → String → Payload → String → Tables → Answer
unfolding insert new_action
prepare fingerprint id p actor t = elim (find_key p.idempotency_key t.actions) [
  | none ↦ insert (new_action fingerprint id p actor) actor t
  | some a ↦
      if str_eq a.confirmation_fingerprint (fingerprint p)
      then done t
      else threw idempotency_conflict
]

abbrev pub is_executed : Status → Bool
is_executed executed = true
is_executed _ = false

abbrev pub is_approvable : Status → Bool
is_approvable prepared = true
is_approvable approved = true
is_approvable failed = true
is_approvable _ = false

abbrev pub needs_integration : ActionType → Bool
needs_integration create_issue = true
needs_integration open_draft_pr = true
needs_integration _ = false

abbrev pub approve_row : Action → String → Action
approve_row a actor = record a {
  status = approved;
  approved_by = some actor;
  error_code = none;
  error_message = none;
}

unfoldable pub start_execution : Action → String → Tables → Tables
start_execution a actor t = record t { running = t.running ++ (a, actor) ∷ [] }

unfoldable pub approve_found : (String → Bool) → String → String → Tables → Action → Answer
unfolding write start_execution
approve_found decision_approved fingerprint actor t a =
    if not (str_eq a.confirmation_fingerprint fingerprint)
    then threw confirmation_mismatch
    else if is_executed a.status
    then done t
    else if not (is_approvable a.status)
    then threw not_approvable
    else if needs_integration a.frozen.action_type
    then threw unsupported
    else if not (decision_approved a.frozen.decision_id)
    then threw decision_approval_required
    else done (
        start_execution (approve_row a actor) actor
          (write (approve_row a actor) was_approved actor t))

-- `approveAction`, up to the effect.
unfoldable pub approve : (String → Bool) → String → String → String → Tables → Answer
unfolding approve_found
approve decision_approved id fingerprint actor t = elim (get t.actions id) [
  | none ↦ threw not_found
  | some a ↦ approve_found decision_approved fingerprint actor t a
]

abbrev pub is_prepared : Status → Bool
is_prepared prepared = true
is_prepared _ = false

unfoldable pub reject_found : String → String → Tables → Action → Answer
unfolding write
reject_found rationale actor t a =
    if is_prepared a.status
    then done (write (record a { status = rejected; result = some rationale }) was_rejected actor t)
    else threw not_rejectable

-- `rejectAction`
unfoldable pub reject : String → String → String → Tables → Answer
unfolding reject_found
reject id rationale actor t = elim (get t.actions id) [
  | none ↦ threw not_found
  | some a ↦ reject_found rationale actor t a
]

abbrev pub is_failed : Status → Bool
is_failed failed = true
is_failed _ = false

unfoldable pub retry_found : String → Tables → Action → Answer
unfolding start_execution
retry_found actor t a =
    if is_failed a.status
    then done (
        start_execution a actor (record t {
          audit = t.audit ++ record { event = was_retried; actor = actor; snapshot = a } ∷ [];
        }))
    else threw not_retryable

-- `retryAction`, up to the effect.
unfoldable pub retry : String → String → Tables → Answer
unfolding retry_found
retry id actor t = elim (get t.actions id) [
  | none ↦ threw not_found
  | some a ↦ retry_found actor t a
]

-- How the effect of an action ends: with a result, or with the code and the message of an error.
pub data Effect : Type 0 where
  performed : String → Effect
  broke : String → String → Effect

abbrev pub executed_row : Effect → Action → Action
executed_row (performed result) a = record a {
  status = executed;
  result = some result;
  error_code = none;
  error_message = none;
}
executed_row (broke code message) a = record a {
  status = failed;
  error_code = some code;
  error_message = some message;
}

abbrev pub event_of : Effect → AuditEvent
event_of (performed _) = was_executed
event_of (broke _ _) = was_failed

-- The rest of `executeApproved`: the UPDATE is of the row that is there by then.
unfoldable pub finish : Effect → Action × String → Tables → Tables
unfolding write
finish effect (a, actor) t = elim (get t.actions a.id) [
  | none ↦ t
  | some r ↦ write (executed_row effect r) (event_of effect) actor t
]

-- The execution at a place of those that wait, and the others.
unfoldable pub pick :
    ℕ → List (Action × String) → Option ((Action × String) × List (Action × String))
pick i [] = none
pick zero (x ∷ rest) = some (x, rest)
pick (suc i) (x ∷ rest) = elim (pick i rest) [
  | none ↦ none
  | some (found, others) ↦ some (found, x ∷ others)
]

pub data Call : Type 0 where
  prepares : String → Payload → String → Call
  approves : (String → Bool) → String → String → String → Call
  rejects : String → String → String → Call
  retries : String → String → Call
  finishes : ℕ → Effect → Call

unfoldable pub finish_at : ℕ → Effect → Tables → Tables
unfolding finish
finish_at i effect t = elim (pick i t.running) [
  | none ↦ t
  | some (x, others) ↦ finish effect x (record t { running = others })
]

unfoldable pub step : (Payload → String) → Call → Tables → Tables
step fingerprint (prepares id p actor) t = committed t (prepare fingerprint id p actor t)
step fingerprint (approves decision_approved id given actor) t =
    committed t (approve decision_approved id given actor t)
step fingerprint (rejects id rationale actor) t = committed t (reject id rationale actor t)
step fingerprint (retries id actor) t = committed t (retry id actor t)
step fingerprint (finishes i effect) t = finish_at i effect t

unfoldable pub run : (Payload → String) → List Call → Tables → Tables
run fingerprint [] t = t
run fingerprint (c ∷ cs) t = run fingerprint cs (step fingerprint c t)
