-- ===== src/Actions/Examples.antt =====
-- An action that is approved and breaks, is tried again and is executed, and one that is rejected.
use poolstatis.Common.{◌≡◌, refl, true, none, some, String, List, [], ◌∷◌, map, get, set}
use poolstatis.Actions.Approved.{IsApproved}
use poolstatis.Actions.Executions.{run-IsApproved}
use poolstatis.Actions.Rejections.{run-rejected}
use poolstatis.Actions.Table.{
  request_more_data, prepared, rejected, Payload, Action, Audit, was_prepared, was_approved,
  was_rejected, was_failed, was_retried, was_executed, Tables, committed, write, find_key,
  new_action, insert, prepare, start_execution, approve_found, approve, reject_found, reject,
  retry_found, retry, performed, broke, finish, pick, Call, prepares, approves, rejects, retries,
  finishes, finish_at, step, run,
}

abbrev payload : String → Payload
payload key = record {
  decision_id = "d";
  release_id = "r";
  evidence_id = "e";
  decision_revision = 1;
  action_type = request_more_data;
  target = "{}";
  payload = "{}";
  expected_effect = "more data";
  undo = "none";
  idempotency_key = key;
}

abbrev fingerprint : Payload → String
fingerprint p = p.idempotency_key

abbrev calls : List Call
calls =
    prepares "a" (payload "k1") "agent"
    ∷ prepares "b" (payload "k2") "agent"
    ∷ approves (λ _. true) "a" "k1" "owner"
    ∷ finishes 0 (broke "timeout" "no answer")
    ∷ rejects "b" "not now" "owner"
    ∷ retries "a" "owner"
    ∷ approves (λ _. true) "b" "k2" "owner"
    ∷ finishes 0 (performed "ok")
    ∷ []

abbrev empty : Tables
empty = record { actions = []; audit = []; running = [] }

events :
    map (λ (v : Audit). v.event) (run fingerprint calls empty).audit
    ≡ was_prepared ∷ was_prepared ∷ was_approved ∷ was_failed ∷ was_rejected ∷ was_retried
      ∷ was_executed ∷ []
unfolding run step committed prepare find_key insert new_action write get set approve approve_found
    start_execution finish_at finish pick reject reject_found retry retry_found
events = refl

empty-IsApproved : IsApproved empty
unfolding get
empty-IsApproved = record { honest = λ id a h. absurd cc; running = tt }

run-IsApproved_example : IsApproved (run fingerprint calls empty)
run-IsApproved_example = run-IsApproved fingerprint calls empty empty-IsApproved

abbrev new_row : String → String → Action
new_row id key = record {
  id = id;
  frozen = payload key;
  confirmation_fingerprint = key;
  prepared_by = "agent";
  status = prepared;
  approved_by = none;
  result = none;
  error_code = none;
  error_message = none;
}

abbrev rejected_row : Action
rejected_row = record (new_row "b" "k2") { status = rejected; result = some "not now" }

b_is_rejected : get (run fingerprint calls empty).actions "b" ≡ some rejected_row
unfolding run step committed prepare find_key insert new_action write get set approve approve_found
    start_execution finish_at finish pick reject reject_found retry retry_found
b_is_rejected = refl

run-rejected_example :
    get (run fingerprint calls (run fingerprint calls empty)).actions "b" ≡ some rejected_row
run-rejected_example =
    run-rejected fingerprint calls (run fingerprint calls empty) "b" rejected_row
      run-IsApproved_example b_is_rejected refl
