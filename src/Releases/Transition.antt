-- ===== src/Releases/Transition.antt =====
-- src/services/releases.ts: `transitionRelease`; src/services/decisions.ts: `finalizeObservedRelease`.
use poolstatis.Common.{
  Bool, true, false, ◌&&◌, ◌||◌, not, Option, none, some, String, if◌then◌else◌,
}
use poolstatis.Contracts.Declaration.{
  ContractStatus, active, Contract, Registry, validate_declaration,
}
use poolstatis.Releases.Register.{deployment_time}
use poolstatis.Releases.Table.{
  Status, planned, deployed, observing, decided, cancelled, status_eq, Release, transitioned,
  finalized, Tables, World, not_found, invalid_transition, contract_invalid, constraint_violation,
  Answer, failed, done, row_check, find_release, write,
}

unfoldable pub allowed_transition : Status → Status → Bool
allowed_transition from cancelled =
    status_eq from planned || (status_eq from deployed || status_eq from observing)
allowed_transition from to =
    status_eq from planned && status_eq to deployed
    || (status_eq from deployed && status_eq to observing
        || status_eq from observing && status_eq to decided)

unfoldable pub is_active : ContractStatus → Bool
is_active active = true
is_active _ = false

-- `assertContractValid`
unfoldable pub contract_is_valid : Registry → Contract → Bool
unfolding is_active
contract_is_valid registry c = is_active c.status && validate_declaration registry c

-- `const deployedAt`
unfoldable pub moved_time :
    (String → String) → Status → Option String → String → Option String → Option String
moved_time iso deployed at now before = deployment_time iso deployed at now
moved_time iso _ at now before = before

unfoldable pub moved : (String → String) → Release → Status → Option String → String → Release
unfolding moved_time
moved iso r to at now = record r {
  status = to;
  deployed_at = moved_time iso to at now r.deployed_at;
}

-- UPDATE, with the CHECK of the table.
unfoldable pub update_release : Release → Release → String → Tables → Answer Release
update_release old r actor t =
    if row_check r
    then done (write r transitioned (some old.status) actor t) r
    else failed constraint_violation

unfoldable pub transition_found :
    (String → String)
    → World
    → String
    → Status
    → Option String
    → String
    → String
    → Tables
    → Release
    → Answer Release
unfolding contract_is_valid moved update_release
transition_found iso w project to at actor now t r =
    if not (allowed_transition r.status to)
    then failed invalid_transition
    else if status_eq to observing
        && not (contract_is_valid (w.registry project) r.contract_snapshot)
    then failed contract_invalid
    else update_release r (moved iso r to at now) actor t

-- `transitionRelease`
unfoldable pub transition :
    (String → String)
    → World
    → String
    → String
    → Status
    → Option String
    → String
    → String
    → Tables
    → Answer Release
unfolding transition_found
transition iso w project id to at actor now t = elim (find_release project id t) [
  | none ↦ failed not_found
  | some r ↦ transition_found iso w project to at actor now t r
]

unfoldable pub finalize_found : String → Tables → Release → Tables
finalize_found actor t r =
    if status_eq r.status observing
    then write (record r { status = decided }) finalized (some observing) actor t
    else t

-- `finalizeObservedRelease`, a part of the transaction of its caller.
unfoldable pub finalize_observed : String → String → String → Tables → Tables
unfolding finalize_found
finalize_observed project id actor t = elim (find_release project id t) [
  | none ↦ t
  | some r ↦ finalize_found actor t r
]
