-- ===== src/Releases/Outcome.antt =====
-- src/services/releases.ts: what a transition does to a row that is there.
use poolstatis.Common.{
  ◌≡◌, refl, Bool, true, false, ◌&&◌, not, Option, none, some, String, if◌then◌else◌,
}
use poolstatis.Releases.Changes.{find_release-get}
use poolstatis.Releases.Invariant.{IsLedger}
use poolstatis.Releases.Lifecycle.{no_way_out, is_final}
use poolstatis.Releases.Register.{deployment_time}
use poolstatis.Releases.Table.{
  Status, planned, deployed, observing, decided, cancelled, status_eq, Release, transitioned,
  Tables, World, constraint_violation, failed, done, is_some, status_check, row_check, find_release,
  write,
}
use poolstatis.Releases.Transition.{
  allowed_transition, contract_is_valid, moved_time, moved, update_release, transition_found,
  transition,
}

-- The CHECK of the table after a move: it fails for the cancellation of a planned release alone, whose
-- time of deployment stays empty.
check-moved_time :
    (iso : String → String) (from to : Status) (at before : Option String) (now : String)
    → allowed_transition from to ≡ true
    → status_check from before ≡ true
    → status_check to (moved_time iso to at now before)
      ≡ not (status_eq from planned && status_eq to cancelled)
unfolding is_final allowed_transition status_check moved_time deployment_time is_some
check-moved_time iso planned deployed none before now h k = refl
check-moved_time iso planned deployed (some _) before now h k = refl
check-moved_time iso planned cancelled at none now h k = refl
check-moved_time iso planned cancelled at (some _) now h k = absurd cc
check-moved_time iso planned planned at before now h k = absurd cc
check-moved_time iso planned observing at before now h k = absurd cc
check-moved_time iso planned decided at before now h k = absurd cc
check-moved_time iso deployed observing at before now h k = k
check-moved_time iso deployed cancelled at before now h k = k
check-moved_time iso deployed planned at before now h k = absurd cc
check-moved_time iso deployed deployed at before now h k = absurd cc
check-moved_time iso deployed decided at before now h k = absurd cc
check-moved_time iso observing decided at before now h k = k
check-moved_time iso observing cancelled at before now h k = k
check-moved_time iso observing planned at before now h k = absurd cc
check-moved_time iso observing deployed at before now h k = absurd cc
check-moved_time iso observing observing at before now h k = absurd cc
check-moved_time iso decided to at before now h k = let no = no_way_out decided to refl in absurd cc
check-moved_time iso cancelled to at before now h k =
    let no = no_way_out cancelled to refl in absurd cc

if-not : {A : Type 0} (b : Bool) (x y : A) → (if not b then x else y) ≡ (if b then y else x)
if-not true x y = refl
if-not false x y = refl

transition_found-exact :
    (iso : String → String) (w : World) (project : String) (to : Status) (at : Option String)
    (actor now : String) (t : Tables) (r : Release) (b : Bool)
    → allowed_transition r.status to ≡ true
    → (status_eq to observing && not (contract_is_valid (w.registry project) r.contract_snapshot))
      ≡ false
    → row_check (moved iso r to at now) ≡ not b
    → transition_found iso w project to at actor now t r ≡ (
        if b
        then failed constraint_violation
        else done
            (write (moved iso r to at now) transitioned (some r.status) actor t)
            (moved iso r to at now))
unfolding transition_found update_release
transition_found-exact iso w project to at actor now t r b allowed valid check =
    rw (allowed, valid, check) (if-not b _ _)

-- An allowed transition of a row of a ledger, whose contract is valid where the release is to be
-- observed, writes the moved row with its revision and returns it, except that the cancellation of a
-- planned release violates the CHECK of the table and fails.
pub transition-exact :
    (iso : String → String) (w : World) (project id : String) (to : Status) (at : Option String)
    (actor now : String) (t : Tables) (r : Release)
    → IsLedger t
    → find_release project id t ≡ some r
    → allowed_transition r.status to ≡ true
    → (status_eq to observing && not (contract_is_valid (w.registry project) r.contract_snapshot))
      ≡ false
    → transition iso w project id to at actor now t ≡ (
        if status_eq r.status planned && status_eq to cancelled
        then failed constraint_violation
        else done
            (write (moved iso r to at now) transitioned (some r.status) actor t)
            (moved iso r to at now))
unfolding transition row_check moved
transition-exact iso w project id to at actor now t r h found allowed valid =
    let there = (find_release-get project id t h found).0 in
    let check =
      check-moved_time iso r.status to at r.deployed_at now allowed (h.checked id there) in
    rw (found, transition)
      (transition_found-exact iso w project to at actor now t r
        (status_eq r.status planned && status_eq to cancelled) allowed valid check)
