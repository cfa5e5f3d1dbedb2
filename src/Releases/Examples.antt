-- ===== src/Releases/Examples.antt =====
-- Releases of one product: a contract that names a flag, and the calls of two deployments.
use poolstatis.Common.{
  ◌≡◌, ◌↔◌, refl, ap, subst, Bool, true, false, none, some, Option, String, List, [], ◌∷◌, get, set,
  str_eq, if◌then◌else◌,
}
use poolstatis.Contracts.Declaration.{
  increase, active, count, Registry, validate_declaration, semantic_issues, check_metric,
  metric_issues, report, compatible, is_value, guardrail_issues, filter_issues, property_issues,
  is_missing, no_issues, unknown_flag, unknown_metric,
}
use poolstatis.Contracts.Anchored.{IsAnchored, validate-IsAnchored}
use poolstatis.Releases.Changes.{Change-IsLedger, register-Change}
use poolstatis.Releases.Invariant.{IsLedger, empty, empty-IsLedger}
use poolstatis.Releases.Ledger.{Reaches}
use poolstatis.Releases.Lifecycle.{
  Call, registers, transitions, finalizes, step, run, run-IsLedger, run-Reaches, run-final,
  is_final,
}
use poolstatis.Releases.Outcome.{transition-exact}
use poolstatis.Releases.Register.{
  Input, register, or_else, deployment_time, first_registration, origin_missing, insert_release,
  new_release,
}
use poolstatis.Releases.Kept.{keeps, keeps_link, keeps_time}
use poolstatis.Releases.Repeat.{retry-returns, retry-conflicts}
use poolstatis.Releases.Sha.{lower, lower_digit}
use poolstatis.Releases.Table.{
  Status, planned, deployed, observing, decided, cancelled, Release, Tables, StoredContract, World,
  find_contract, constraint_violation, idempotency_conflict, Answer, failed, done, committed,
  is_some, row_check, status_check, has_key, find_key, find_release, in_project, append_revision,
  write, registered,
}
use poolstatis.Releases.Transition.{
  allowed_transition, contract_is_valid, is_active, moved, moved_time, transition, transition_found,
  update_release, finalize_observed, finalize_found,
}

-- The database returns milliseconds.
abbrev pub spelled : String → String
spelled at = if str_eq at "2026-07-19T01:00:00Z" then "2026-07-19T01:00:00.000Z" else at

abbrev pub contract : StoredContract
contract = record {
  id = "c1";
  revision = 1;
  declared = record {
    key = "shorter_onboarding";
    primary_metric_key = "activations";
    guardrail_metric_keys = "errors" ∷ [];
    target_properties = "plan" ∷ [];
    baseline_window_days = 28;
    observation_window_days = 14;
    minimum_sample_size = 100;
    expected_direction = increase;
    minimum_meaningful_effect = none;
    flag_key = some "short_form";
    experiment_key = none;
    status = active;
  };
}

abbrev pub registry : Registry
registry = record {
  metrics =
      ("activations", record { kind = count; is_active = true; from_posthog = false })
      ∷ ("errors", record { kind = count; is_active = true; from_posthog = true })
      ∷ [];
  properties = ("plan", true) ∷ [];
  flags = ("short_form", tt) ∷ [];
  experiments = [];
}

abbrev pub world : World
world = record {
  contracts = λ _. contract ∷ [];
  decision_exists = λ _ _. false;
  registry = λ _. registry;
}

abbrev pub input : String → Option String → Option String → Status → Input
input key flag at status = record {
  idempotency_key = key;
  contract_key = "shorter_onboarding";
  env = "prod";
  repository = "acme/product";
  branch = some "main";
  commit_sha = "ABCDEF0";
  pr_url = none;
  deployed_at = at;
  flag_key = flag;
  experiment_key = none;
  variant = none;
  originating_decision_id = none;
  status = status;
}

abbrev pub exact : Input
exact = input "deploy-1" (some "short_form") (some "2026-07-19T01:00:00.000Z") deployed

abbrev brief : Input
brief = input "deploy-2" none none planned

abbrev answer : Input → String → Answer (Release × Bool)
answer i id = register spelled world "p1" id i "ci" "2026-07-20T00:00:00.000Z" empty

abbrev pub row : Input → String → Release
row i id = record {
  id = id;
  project_id = "p1";
  contract_id = "c1";
  contract_key = "shorter_onboarding";
  contract_revision = 1;
  contract_snapshot = contract.declared;
  env = "prod";
  repository = "acme/product";
  branch = some "main";
  commit_sha = "abcdef0";
  pr_url = none;
  deployed_at = i.deployed_at;
  flag_key = some "short_form";
  experiment_key = none;
  variant = none;
  originating_decision_id = none;
  status = i.status;
  idempotency_key = i.idempotency_key;
  created_by = "ci";
}

abbrev pub stored : Input → String → Tables
stored i id = record {
  releases = (id, row i id) ∷ [];
  revisions =
      record {
        release_id = id;
        project_id = "p1";
        action = registered;
        from_status = none;
        to_status = i.status;
        snapshot = row i id;
        actor = "ci";
      }
      ∷ [];
}

exact_is_stored : answer exact "r1" ≡ done (stored exact "r1") (row exact "r1", false)
unfolding register find_key first_registration find_contract origin_missing insert_release
    new_release or_else deployment_time lower lower_digit is_some get set row_check status_check
    write append_revision
exact_is_stored = refl

brief_is_stored : answer brief "r2" ≡ done (stored brief "r2") (row brief "r2", false)
unfolding register find_key first_registration find_contract origin_missing insert_release
    new_release or_else deployment_time lower lower_digit is_some get set row_check status_check
    write append_revision
brief_is_stored = refl

contract_is_found : find_contract "shorter_onboarding" (contract ∷ []) ≡ some contract
unfolding find_contract
contract_is_found = refl

exact_keeps : keeps spelled exact contract ≡ true
unfolding keeps keeps_link keeps_time is_some
exact_keeps = refl

brief_leaves : keeps spelled brief contract ≡ false
unfolding keeps keeps_link keeps_time is_some
brief_leaves = refl

-- The first deployment is observed and decided; a second release is planned in between.
abbrev calls : List Call
calls =
    transitions world "p1" "r1" observing none "ci" "2026-07-20T00:00:00.000Z"
    ∷ registers world "p1" "r3" brief "ci" "2026-07-21T00:00:00.000Z"
    ∷ finalizes "p1" "r1" "owner"
    ∷ []

stored-IsLedger :
    (i : Input) (id : String)
    → answer i id ≡ done (stored i id) (row i id, false)
    → IsLedger (stored i id)
unfolding committed
stored-IsLedger i id e = subst IsLedger (ap (committed empty) e) (
    Change-IsLedger (register-Change spelled world "p1" id i "ci" "2026-07-20T00:00:00.000Z" empty)
      empty-IsLedger)

pub exact-stored-IsLedger : IsLedger (stored exact "r1")
exact-stored-IsLedger = stored-IsLedger exact "r1" exact_is_stored

brief-stored-IsLedger : IsLedger (stored brief "r2")
brief-stored-IsLedger = stored-IsLedger brief "r2" brief_is_stored

run-IsLedger_example : IsLedger (run spelled calls (stored exact "r1"))
run-IsLedger_example = run-IsLedger spelled calls (stored exact "r1") exact-stored-IsLedger

abbrev decided_row : Release
decided_row = record (row exact "r1") { status = decided }

calls_decide : get (run spelled calls (stored exact "r1")).releases "r1" ≡ some decided_row
unfolding run step committed register find_key first_registration find_contract origin_missing
    insert_release new_release or_else deployment_time lower lower_digit is_some get set row_check
    status_check write append_revision has_key transition transition_found allowed_transition
    contract_is_valid is_active validate_declaration semantic_issues check_metric metric_issues
    report compatible is_value guardrail_issues filter_issues property_issues is_missing no_issues
    moved moved_time update_release finalize_observed finalize_found find_release in_project
calls_decide = refl

get-stored : get (stored exact "r1").releases "r1" ≡ some (row exact "r1")
unfolding get
get-stored = refl

run-Reaches_example :
    (s : Release) × (get (run spelled calls (stored exact "r1")).releases "r1" ≡ some s)
    × Reaches (row exact "r1") s
run-Reaches_example =
    run-Reaches spelled calls (stored exact "r1") "r1" (row exact "r1") exact-stored-IsLedger
      get-stored

run-final_example :
    get (run spelled calls (run spelled calls (stored exact "r1"))).releases "r1" ≡ some decided_row
unfolding is_final
run-final_example =
    run-final spelled calls (run spelled calls (stored exact "r1")) "r1" decided_row
      run-IsLedger_example calls_decide refl

retry-returns_example :
    (s : Release) × (register spelled world "p1" "r9" exact "ci" "2026-07-22T00:00:00.000Z"
        (run spelled calls (stored exact "r1"))
      ≡ done (run spelled calls (stored exact "r1")) (s, true))
    × (s.id ≡ "r1")
    × (find_key "p1" exact.env exact.idempotency_key
          (run spelled calls (stored exact "r1")).releases
        ≡ some s)
retry-returns_example =
    retry-returns spelled world world "p1" "r1" "r9" exact "ci" "ci" "2026-07-20T00:00:00.000Z"
      "2026-07-22T00:00:00.000Z" empty (stored exact "r1") (row exact "r1") contract calls
      empty-IsLedger contract_is_found exact_is_stored exact_keeps

retry-conflicts_example :
    register spelled world "p1" "r9" brief "ci" "2026-07-22T00:00:00.000Z"
      (run spelled [] (stored brief "r2"))
    ≡ failed idempotency_conflict
retry-conflicts_example =
    retry-conflicts spelled world world "p1" "r2" "r9" brief "ci" "ci" "2026-07-20T00:00:00.000Z"
      "2026-07-22T00:00:00.000Z" empty (stored brief "r2") (row brief "r2") contract []
      empty-IsLedger contract_is_found brief_is_stored brief_leaves

brief_is_found : find_release "p1" "r2" (stored brief "r2") ≡ some (row brief "r2")
unfolding find_release in_project get
brief_is_found = refl

-- A planned release cannot be cancelled.
transition-exact_example :
    transition spelled world "p1" "r2" cancelled none "ci" "2026-07-22T00:00:00.000Z"
      (stored brief "r2")
    ≡ failed constraint_violation
unfolding allowed_transition
transition-exact_example =
    transition-exact spelled world "p1" "r2" cancelled none "ci" "2026-07-22T00:00:00.000Z"
      (stored brief "r2") (row brief "r2") brief-stored-IsLedger brief_is_found refl refl

validate-IsAnchored_example :
    (validate_declaration registry contract.declared ≡ true) ↔ IsAnchored registry contract.declared
validate-IsAnchored_example = validate-IsAnchored registry contract.declared

-- A contract that names a flag that is not there, and a metric that is not there.
unanchored :
    semantic_issues registry
      (record contract.declared { primary_metric_key = "sales"; flag_key = some "long_form" })
    ≡ unknown_metric true ∷ unknown_flag ∷ []
unfolding semantic_issues check_metric metric_issues report compatible is_value guardrail_issues
    filter_issues property_issues is_missing get
unanchored = refl
