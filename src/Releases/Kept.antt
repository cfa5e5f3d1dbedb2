-- ===== src/Releases/Kept.antt =====
-- src/services/releases.ts: `sameRegistration` between an input and the row that it makes.
use poolstatis.Common.{
  ◌≡◌, refl, Bool, true, false, ◌&&◌, not, Option, none, some, String, str_eq, eq_refl,
}
use poolstatis.Releases.Register.{
  Input, or_else, option_eq, same_time, same_registration, deployment_time, new_release,
}
use poolstatis.Releases.Sha.{lower}
use poolstatis.Releases.Table.{
  Status, planned, deployed, observing, decided, cancelled, status_eq, StoredContract, is_some,
}

-- A link that the input leaves to the contract is stored, so that the input no longer agrees with it.
unfoldable pub keeps_link : Option String → Option String → Bool
unfolding is_some
keeps_link (some key) declared = true
keeps_link none declared = not (is_some declared)

unfoldable pub keeps_time : (String → String) → Status → Option String → Bool
keeps_time iso status none = true
keeps_time iso deployed (some at) = str_eq at (iso at)
keeps_time iso _ (some at) = false

-- Whether the row that an input makes agrees with it.
unfoldable pub keeps : (String → String) → Input → StoredContract → Bool
unfolding keeps_link keeps_time
keeps iso i c =
    keeps_link i.flag_key c.declared.flag_key
    && (keeps_link i.experiment_key c.declared.experiment_key
        && keeps_time iso i.status i.deployed_at)

option_eq_refl : (o : Option String) → option_eq o o ≡ true
unfolding option_eq
option_eq_refl none = refl
option_eq_refl (some a) = eq_refl a

status_eq_refl : (s : Status) → status_eq s s ≡ true
status_eq_refl planned = refl
status_eq_refl deployed = refl
status_eq_refl observing = refl
status_eq_refl decided = refl
status_eq_refl cancelled = refl

option_eq-or_else : (a b : Option String) → option_eq a (or_else a b) ≡ keeps_link a b
unfolding or_else option_eq keeps_link is_some
option_eq-or_else none none = refl
option_eq-or_else none (some b) = refl
option_eq-or_else (some a) b = eq_refl a

same_time-stored :
    (iso : String → String) (s : Status) (at : Option String) (now : String)
    → same_time at (deployment_time iso s at now) ≡ keeps_time iso s at
unfolding same_time deployment_time keeps_time option_eq
same_time-stored iso planned none now = refl
same_time-stored iso planned (some at) now = refl
same_time-stored iso deployed none now = refl
same_time-stored iso deployed (some at) now = refl
same_time-stored iso observing none now = refl
same_time-stored iso observing (some at) now = refl
same_time-stored iso decided none now = refl
same_time-stored iso decided (some at) now = refl
same_time-stored iso cancelled none now = refl
same_time-stored iso cancelled (some at) now = refl

pub same_registration-new :
    (iso : String → String) (project id : String) (i : Input) (c : StoredContract)
    (actor now : String)
    → c.declared.key ≡ i.contract_key
    → same_registration i (new_release iso project id i c actor now) ≡ keeps iso i c
unfolding same_registration new_release keeps
same_registration-new iso project id i c actor now e =
    rw
      (
        e,
        eq_refl i.contract_key,
        eq_refl i.env,
        eq_refl i.repository,
        option_eq_refl i.branch,
        eq_refl (lower i.commit_sha),
        option_eq_refl i.pr_url,
        option_eq-or_else i.flag_key c.declared.flag_key,
        option_eq-or_else i.experiment_key c.declared.experiment_key,
        option_eq_refl i.variant,
        option_eq_refl i.originating_decision_id,
        status_eq_refl i.status,
        same_time-stored iso i.status i.deployed_at now,
      )
      refl
