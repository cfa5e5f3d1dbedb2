-- ===== src/Flags/Examples.antt =====
-- A flag with an experiment, and one without.
use poolstatis.Common.{ℕ, arith, ◌≡◌, refl, true, none, some, String, List, [], ◌∷◌, Map, get, set}
use poolstatis.Flags.Buckets.{count, has_key, rollout_of, count-choose}
use poolstatis.Flags.Frozen.{Call, updates, archives, step, run, run-frozen}
use poolstatis.Flags.Intervals.{select_variant-at}
use poolstatis.Flags.Table.{
  active, archived, Flag, Experiment, committed, has_running, update, update_found, archive,
  archive_found, evaluated, evaluate, evaluate_found, other_env,
}
use poolstatis.Flags.Variants.{
  Variant, total, no_duplicates, validate_variants, choose, select_variant,
}

abbrev variants : List Variant
variants =
    record { key = "control"; rollout = 5000; payload = none }
    ∷ record { key = "short"; rollout = 2500; payload = some "{}" }
    ∷ []

abbrev flag : Flag
flag = record {
  name = "Short form";
  purpose = "Fewer fields";
  status = active;
  env = some "prod";
  salt = "s";
  variants = variants;
}

abbrev flags : Map Flag
flags = ("form", flag) ∷ ("menu", flag) ∷ []

abbrev experiments : List Experiment
experiments = record { key = "e"; flag_key = "form"; is_running = true } ∷ []

-- A hash that puts everybody into one bucket.
abbrev hash : String → ℕ
hash _ = 36000

in_short :
    select_variant hash "s" variants "u1"
    ≡ some (record { key = "short"; rollout = 2500; payload = some "{}" })
unfolding select_variant choose
in_short = refl

elsewhere : evaluate hash true "dev" "form" "u1" flags ≡ evaluated none []
unfolding evaluate evaluate_found get other_env
elsewhere = refl

variants_are_valid : validate_variants variants ≡ true
unfolding validate_variants no_duplicates total
variants_are_valid = refl

count-choose_example :
    count (λ b. has_key "short" (choose b 0 variants)) 10000 ≡ rollout_of "short" variants
count-choose_example = count-choose "short" variants variants_are_valid

abbrev calls : List Call
calls =
    archives "form"
    ∷ archives "menu"
    ∷ updates "form" (record { name = none; purpose = none; variants = some []; status = none })
    ∷ []

menu_is_archived :
    get (run experiments calls flags) "menu" ≡ some (record flag { status = archived })
unfolding run step committed archive archive_found has_running update update_found get set
menu_is_archived = refl

form_is_running : has_running experiments "form" ≡ true
unfolding has_running
form_is_running = refl

get-form : get flags "form" ≡ some flag
unfolding get
get-form = refl

run-frozen_example : get (run experiments calls flags) "form" ≡ some flag
run-frozen_example = run-frozen experiments calls flags "form" flag form_is_running get-form

select_variant-at_example :
    select_variant hash "s" variants "u1"
    ≡ some (record { key = "short"; rollout = 2500; payload = some "{}" })
unfolding total
select_variant-at_example =
    select_variant-at hash "s" "u1"
      (record { key = "control"; rollout = 5000; payload = none } ∷ [])
      (record { key = "short"; rollout = 2500; payload = some "{}" }) [] (omega arith) (omega arith)
