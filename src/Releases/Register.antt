-- ===== src/Releases/Register.antt =====
-- src/services/releases.ts: `registerRelease`. The parameter `iso` is how a text of a time comes back from
-- the database and `toISOString`.
use poolstatis.Common.{
  Bool, true, false, ◌&&◌, ◌||◌, not, Option, none, some, String, List, [], ◌∷◌, get, str_eq,
  if◌then◌else◌,
}
use poolstatis.Releases.Sha.{lower}
use poolstatis.Releases.Table.{
  Status, deployed, status_eq, Release, registered, Revision, Tables, StoredContract, World,
  not_found, idempotency_conflict, constraint_violation, Answer, failed, done, is_some, row_check,
  find_key, find_contract, write,
}

-- `RegisterReleaseInput`
pub record Input : Type 0 where
  pub idempotency_key : String
  pub contract_key : String
  pub env : String
  pub repository : String
  pub branch : Option String
  pub commit_sha : String
  pub pr_url : Option String
  pub deployed_at : Option String
  pub flag_key : Option String
  pub experiment_key : Option String
  pub variant : Option String
  pub originating_decision_id : Option String
  pub status : Status

-- `a ?? b`
unfoldable pub or_else : Option String → Option String → Option String
or_else none b = b
or_else (some a) b = some a

unfoldable pub option_eq : Option String → Option String → Bool
option_eq none none = true
option_eq none (some _) = false
option_eq (some _) none = false
option_eq (some a) (some b) = str_eq a b

-- `input.deployed_at === undefined || input.deployed_at === snapshot.deployed_at`
unfoldable pub same_time : Option String → Option String → Bool
same_time none b = true
same_time (some a) b = option_eq (some a) b

unfoldable pub same_registration : Input → Release → Bool
unfolding option_eq same_time
same_registration i r =
    str_eq i.contract_key r.contract_key
    && (str_eq i.env r.env
        && (str_eq i.repository r.repository
            && (option_eq i.branch r.branch
                && (str_eq (lower i.commit_sha) r.commit_sha
                    && (option_eq i.pr_url r.pr_url
                        && (option_eq i.flag_key r.flag_key
                            && (option_eq i.experiment_key r.experiment_key
                                && (option_eq i.variant r.variant
                                    && (option_eq i.originating_decision_id
                                          r.originating_decision_id
                                        && (status_eq i.status r.status
                                            && same_time i.deployed_at r.deployed_at))))))))))

unfoldable pub is_registration : String → String → Revision → Bool
is_registration project id v =
    str_eq v.project_id project
    && (str_eq v.release_id id && (elim v.action [ registered ↦ true | _ ↦ false ]))

-- `WHERE project_id = $1 AND release_id = $2 AND action = 'registered'`, the first one.
unfoldable pub registration : String → String → List Revision → Option Release
unfolding is_registration
registration project id [] = none
registration project id (v ∷ log) =
    if is_registration project id v then some v.snapshot else registration project id log

unfoldable pub or_current : Release → Option Release → Release
or_current r none = r
or_current r (some snapshot) = snapshot

-- The branch of `registerRelease` for a key that is there.
unfoldable pub repeat : String → Input → Release → Tables → Answer (Release × Bool)
unfolding or_current
repeat project i r t =
    if same_registration i (or_current r (registration project r.id t.revisions))
    then done t (r, true)
    else failed idempotency_conflict

-- `const deployedAt`, as the database returns it.
unfoldable pub deployment_time : (String → String) → Status → Option String → String → Option String
deployment_time iso deployed none now = some (iso now)
deployment_time iso deployed (some at) now = some (iso at)
deployment_time iso _ at now = none

unfoldable pub new_release :
    (String → String) → String → String → Input → StoredContract → String → String → Release
unfolding or_else deployment_time
new_release iso project id i c actor now = record {
  id = id;
  project_id = project;
  contract_id = c.id;
  contract_key = c.declared.key;
  contract_revision = c.revision;
  contract_snapshot = c.declared;
  env = i.env;
  repository = i.repository;
  branch = i.branch;
  commit_sha = lower i.commit_sha;
  pr_url = i.pr_url;
  deployed_at = deployment_time iso i.status i.deployed_at now;
  flag_key = or_else i.flag_key c.declared.flag_key;
  experiment_key = or_else i.experiment_key c.declared.experiment_key;
  variant = i.variant;
  originating_decision_id = i.originating_decision_id;
  status = i.status;
  idempotency_key = i.idempotency_key;
  created_by = actor;
}

-- INSERT, with the CHECK and the primary key of the table. The other key is free here, as the
-- advisory lock holds back any other insertion under it.
unfoldable pub insert_release : Release → String → Tables → Answer (Release × Bool)
insert_release r actor t =
    if is_some (get t.releases r.id) || not (row_check r)
    then failed constraint_violation
    else done (write r registered none actor t) (r, false)

unfoldable pub origin_missing : World → String → Option String → Bool
origin_missing w project none = false
origin_missing w project (some id) = not (w.decision_exists project id)

-- The branch of `registerRelease` for a key that is free.
unfoldable pub first_registration :
    (String → String)
    → World
    → String
    → String
    → Input
    → String
    → String
    → Tables
    → Option StoredContract
    → Answer (Release × Bool)
unfolding insert_release origin_missing
first_registration iso w project id i actor now t none = failed not_found
first_registration iso w project id i actor now t (some c) =
    if origin_missing w project i.originating_decision_id
    then failed not_found
    else insert_release (new_release iso project id i c actor now) actor t

-- `registerRelease`, where `id` is the one that the database would give to a new row.
unfoldable pub register :
    (String → String)
    → World
    → String
    → String
    → Input
    → String
    → String
    → Tables
    → Answer (Release × Bool)
unfolding repeat first_registration
register iso w project id i actor now t =
    elim (find_key project i.env i.idempotency_key t.releases) [
      | none ↦
          first_registration iso w project id i actor now t
            (find_contract i.contract_key (w.contracts project))
      | some r ↦ repeat project i r t
    ]
