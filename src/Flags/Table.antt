-- ===== src/Flags/Table.antt =====
-- src/services/flags.ts: the flags of one project, by key, and the calls on them. Times and the order of the list
-- are left out.
use poolstatis.Common.{
  ℕ, Bool, true, false, ◌&&◌, not, Option, none, some, String, List, [], ◌∷◌, Map, get, set, any,
  str_eq, if◌then◌else◌,
}
use poolstatis.Flags.Variants.{Variant, select_variant}

pub data Status : Type 0 where
  draft active archived : Status

pub record Flag : Type 0 where
  pub name : String
  pub purpose : String
  pub status : Status
  pub env : Option String
  pub salt : String
  pub variants : List Variant

-- A row of `experiments`, as far as flags go.
pub record Experiment : Type 0 where
  pub key : String
  pub flag_key : String
  pub is_running : Bool

pub data Error : Type 0 where
  key_taken not_found is_archived in_running_experiment not_active : Error

pub data Answer (A : Type 0) : Type 0 where
  failed : Error → Answer A
  done : Map Flag → A → Answer A

unfoldable pub committed : {A : Type 0} → Map Flag → Answer A → Map Flag
committed flags (failed e) = flags
committed flags (done flags' a) = flags'

-- `createFeatureFlag`: the salt is the one that the database would give.
unfoldable pub create : String → Flag → Map Flag → Answer Flag
create key flag flags = elim (get flags key) [
  | none ↦ done (set flags key flag) flag
  | some _ ↦ failed key_taken
]

-- `ensureNoRunningExperiment`
unfoldable pub has_running : List Experiment → String → Bool
has_running experiments key = any (λ e. str_eq e.flag_key key && e.is_running) experiments

pub record Patch : Type 0 where
  pub name : Option String
  pub purpose : Option String
  pub variants : Option (List Variant)
  pub status : Option Status

-- `COALESCE(a, b)`
unfoldable pub or_keep : {A : Type 0} → Option A → A → A
or_keep none b = b
or_keep (some a) b = a

abbrev pub archived_status : Status → Bool
archived_status archived = true
archived_status _ = false

unfoldable pub patched : Patch → Flag → Flag
unfolding or_keep
patched p f = record f {
  name = or_keep p.name f.name;
  purpose = or_keep p.purpose f.purpose;
  variants = or_keep p.variants f.variants;
  status = or_keep p.status f.status;
}

unfoldable pub update_found : List Experiment → String → Patch → Map Flag → Flag → Answer Flag
unfolding has_running patched
update_found experiments key p flags f =
    if archived_status f.status
    then failed is_archived
    else if has_running experiments key
    then failed in_running_experiment
    else done (set flags key (patched p f)) (patched p f)

-- `updateFeatureFlag`
unfoldable pub update : List Experiment → String → Patch → Map Flag → Answer Flag
unfolding update_found
update experiments key p flags = elim (get flags key) [
  | none ↦ failed not_found
  | some f ↦ update_found experiments key p flags f
]

unfoldable pub archive_found : List Experiment → String → Map Flag → Flag → Answer Flag
unfolding has_running
archive_found experiments key flags f =
    if has_running experiments key
    then failed in_running_experiment
    else done (set flags key (record f { status = archived })) (record f { status = archived })

-- `archiveFeatureFlag`
unfoldable pub archive : List Experiment → String → Map Flag → Answer Flag
unfolding archive_found
archive experiments key flags = elim (get flags key) [
  | none ↦ failed not_found
  | some f ↦ archive_found experiments key flags f
]

-- The event `$feature_flag_called`.
pub record Exposure : Type 0 where
  pub env : String
  pub distinct_id : String
  pub flag_key : String
  pub variant : String
  pub payload : Option String

pub data Evaluation : Type 0 where
  refused : Error → Evaluation
  evaluated : Option Variant → List Exposure → Evaluation

unfoldable pub other_env : Option String → String → Bool
other_env none env = false
other_env (some e) env = not (str_eq e env)

unfoldable pub exposures : Bool → String → String → String → Option Variant → List Exposure
exposures emit env distinct_id key none = []
exposures emit env distinct_id key (some v) =
    if emit
    then record {
      env = env;
      distinct_id = distinct_id;
      flag_key = key;
      variant = v.key;
      payload = v.payload;
    }
      ∷ []
    else []

unfoldable pub is_active : Status → Bool
is_active active = true
is_active _ = false

unfoldable pub evaluate_found : (String → ℕ) → Bool → String → String → String → Flag → Evaluation
unfolding other_env is_active exposures
evaluate_found hash emit env key distinct_id f =
    if other_env f.env env
    then evaluated none []
    else if not (is_active f.status)
    then refused not_active
    else evaluated (select_variant hash f.salt f.variants distinct_id)
        (exposures emit env distinct_id key (select_variant hash f.salt f.variants distinct_id))

-- `evaluateFeatureFlag`: the variant, and the events that it appends.
unfoldable pub evaluate : (String → ℕ) → Bool → String → String → String → Map Flag → Evaluation
unfolding evaluate_found
evaluate hash emit env key distinct_id flags = elim (get flags key) [
  | none ↦ refused not_found
  | some f ↦ evaluate_found hash emit env key distinct_id f
]
