-- ===== src/Releases/Table.antt =====
-- src/services/releases.ts and src/migrations/018_measurement_contracts_releases.sql: the two tables, with
-- their constraints, and the tables of others that a release reads.
use poolstatis.Common.{
  ℕ, Bool, true, false, ◌&&◌, ◌||◌, not, Option, none, some, String, List, [], ◌∷◌, ◌++◌, Map, get,
  set, str_eq, ◌==◌, if◌then◌else◌,
}
use poolstatis.Contracts.Declaration.{Contract, Registry}

pub data Status : Type 0 where
  planned deployed observing decided cancelled : Status

abbrev pub number : Status → ℕ
number planned = 0
number deployed = 1
number observing = 2
number decided = 3
number cancelled = 4

abbrev pub status_eq : Status → Status → Bool
status_eq a b = number a == number b

-- A row of `releases`. The columns that only the release monitor and the scheduling of actions write,
-- and the times that the database sets, are left out.
pub record Release : Type 0 where
  pub id : String
  pub project_id : String
  pub contract_id : String
  pub contract_key : String
  pub contract_revision : ℕ
  pub contract_snapshot : Contract
  pub env : String
  pub repository : String
  pub branch : Option String
  pub commit_sha : String
  pub pr_url : Option String
  pub deployed_at : Option String
  pub flag_key : Option String
  pub experiment_key : Option String
  pub variant : Option String
  pub originating_decision_id : Option String
  pub status : Status
  pub idempotency_key : String
  pub created_by : String

-- The column `action`, and what the snapshot is. The last two are both 'transitioned' in the column:
-- `finalized` is the row of `finalizeObservedRelease`, whose snapshot is the row of the table as Postgres
-- prints it, without its project (`to_jsonb(releases.*) - 'project_id'`), and not what `toRelease` makes of it.
pub data Action : Type 0 where
  registered transitioned finalized : Action

-- A row of `release_revisions`.
pub record Revision : Type 0 where
  pub release_id : String
  pub project_id : String
  pub action : Action
  pub from_status : Option Status
  pub to_status : Status
  pub snapshot : Release  -- the row that the snapshot shows, in the form that the action says
  pub actor : String

-- `releases` by primary key, in the order of insertion, and `release_revisions` in that order.
pub record Tables : Type 0 where
  pub releases : Map Release
  pub revisions : List Revision

-- A row of `measurement_contracts`.
pub record StoredContract : Type 0 where
  pub id : String
  pub revision : ℕ
  pub declared : Contract

-- The rows that the calls only read, by project, and a decision by its id too.
pub record World : Type 0 where
  pub contracts : String → List StoredContract
  pub decision_exists : String → String → Bool
  pub registry : String → Registry

-- `WHERE project_id = $1 AND key = $2`, among the contracts of the project.
unfoldable pub find_contract : String → List StoredContract → Option StoredContract
find_contract key [] = none
find_contract key (c ∷ rows) = if str_eq c.declared.key key then some c else find_contract key rows

pub data Error : Type 0 where
  not_found invalid_transition contract_invalid idempotency_conflict constraint_violation : Error

-- The end of a transaction: ROLLBACK and a throw, or COMMIT.
pub data Answer (A : Type 0) : Type 0 where
  failed : Error → Answer A
  done : Tables → A → Answer A

unfoldable pub committed : {A : Type 0} → Tables → Answer A → Tables
committed t (failed e) = t
committed t (done t' a) = t'

unfoldable pub is_some : {A : Type 0} → Option A → Bool
is_some none = false
is_some (some _) = true

-- The CHECK of the table on a status and the time of the deployment.
unfoldable pub status_check : Status → Option String → Bool
unfolding is_some
status_check status deployed_at =
    status_eq status planned && not (is_some deployed_at)
    || not (status_eq status planned) && is_some deployed_at

unfoldable pub row_check : Release → Bool
unfolding status_check
row_check r = status_check r.status r.deployed_at

unfoldable pub has_key : String → String → String → Release → Bool
has_key project env key r =
    str_eq r.project_id project && (str_eq r.env env && str_eq r.idempotency_key key)

-- `WHERE project_id = $1 AND env = $2 AND idempotency_key = $3`
unfoldable pub find_key : String → String → String → Map Release → Option Release
find_key project env key [] = none
find_key project env key ((_, r) ∷ rows) =
    if has_key project env key r then some r else find_key project env key rows

unfoldable pub in_project : String → Option Release → Option Release
in_project project none = none
in_project project (some r) = if str_eq r.project_id project then some r else none

-- `WHERE project_id = $1 AND id = $2`
unfoldable pub find_release : String → String → Tables → Option Release
unfolding in_project
find_release project id t = in_project project (get t.releases id)

-- `appendRevision`
unfoldable pub append_revision :
    Release → Action → Option Status → String → List Revision → List Revision
append_revision r action from actor log =
    log
    ++ record {
      release_id = r.id;
      project_id = r.project_id;
      action = action;
      from_status = from;
      to_status = r.status;
      snapshot = r;
      actor = actor;
    }
      ∷ []

-- A write of one row, with its revision.
unfoldable pub write : Release → Action → Option Status → String → Tables → Tables
unfolding append_revision
write r action from actor t = record {
  releases = set t.releases r.id r;
  revisions = append_revision r action from actor t.revisions;
}
