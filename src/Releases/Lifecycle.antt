-- ===== src/Releases/Lifecycle.antt =====
-- src/services/releases.ts: releases under any calls, in the order of their transactions.
use poolstatis.Common.{
  ◌≡◌, refl, sym, ap, subst, ◌∙◌, inl, inr, Bool, true, false, Option, none, some, String, List, [],
  ◌∷◌, get, str_eq, eq_iff, Bool-cases,
}
use poolstatis.Releases.Changes.{
  Change, kept, inserts, moves, Change-IsLedger, register-Change, transition-Change,
  finalize_observed-Change, some-eq,
}
use poolstatis.Releases.Invariant.{IsLedger}
use poolstatis.Releases.Writes.{get-write}
use poolstatis.Releases.Ledger.{Reaches, here, move, Reaches-trans}
use poolstatis.Releases.Register.{Input, register}
use poolstatis.Releases.Table.{
  Status, planned, deployed, observing, decided, cancelled, Release, registered, Tables, World,
  committed,
}
use poolstatis.Releases.Transition.{allowed_transition, transition, finalize_observed}

pub data Call : Type 0 where
  registers : World → String → String → Input → String → String → Call
  transitions : World → String → String → Status → Option String → String → String → Call
  finalizes : String → String → String → Call

unfoldable pub step : (String → String) → Call → Tables → Tables
step iso (registers w project id i actor now) t =
    committed t (register iso w project id i actor now t)
step iso (transitions w project id to at actor now) t =
    committed t (transition iso w project id to at actor now t)
step iso (finalizes project id actor) t = finalize_observed project id actor t

unfoldable pub run : (String → String) → List Call → Tables → Tables
run iso [] t = t
run iso (c ∷ cs) t = run iso cs (step iso c t)

pub step-Change :
    (iso : String → String) (c : Call) (t : Tables) → IsLedger t → Change t (step iso c t)
unfolding step
step-Change iso (registers w project id i actor now) t h =
    register-Change iso w project id i actor now t
step-Change iso (transitions w project id to at actor now) t h =
    transition-Change iso w project id to at actor now t h
step-Change iso (finalizes project id actor) t h = finalize_observed-Change project id actor t h

-- Any registrations, transitions and decisions keep the tables a ledger: each row stands under its id
-- and is the snapshot in the last revision of its release, satisfies the CHECK of the table, and comes from
-- the snapshot of its registration by allowed transitions that change the status and the time of
-- the deployment alone; and no project, environment and idempotency key have two rows.
pub run-IsLedger :
    (iso : String → String) (cs : List Call) (t : Tables) → IsLedger t → IsLedger (run iso cs t)
unfolding run
run-IsLedger iso [] t h = h
run-IsLedger iso (c ∷ cs) t h =
    run-IsLedger iso cs (step iso c t) (Change-IsLedger (step-Change iso c t h) h)

-- What a change makes of a row.
abbrev pub Later : Tables → String → Release → Type 0
Later t id r = (s : Release) × (get t.releases id ≡ some s) × Reaches r s

pub Change-Later :
    (id : String) {t t' : Tables} {r : Release}
    → Change t t'
    → get t.releases id ≡ some r
    → Later t' id r
Change-Later id {r = r} kept h = (r, h, here)
Change-Later id {t} {r = r} (inserts q actor absent free ok) h =
    elim (Bool-cases (str_eq q.id id)) [
      | inl e ↦
          let absent' =
            subst (λ (i : String). get t.releases i ≡ none) ((eq_iff q.id id).0 e) absent in
          absurd cc
      | inr e ↦ (r, rw (get-write q registered none actor t id, e) h, here)
    ]
Change-Later id {t} {r = r} (moves a q to at actor there allowed ok) h =
    elim (Bool-cases (str_eq q.id id)) [
      | inl e ↦
          let there' =
            subst (λ (i : String). get t.releases i ≡ some q) ((eq_iff q.id id).0 e) there in
          let same = some-eq (sym there' ∙ h) in
          (
            record q { status = to; deployed_at = at },
            rw
                (
                  get-write (record q { status = to; deployed_at = at }) a (some q.status) actor t
                      id,
                  e,
                )
                refl,
            subst (λ (o : Release). Reaches o (record q { status = to; deployed_at = at })) same
                (move to at allowed here),
          )
      | inr e ↦ (
        r,
        rw (get-write (record q { status = to; deployed_at = at }) a (some q.status) actor t id, e)
            h,
        here,
      )
    ]

-- A row of a ledger is never lost: after any calls it is there, and what it reaches by allowed
-- transitions, with every other column but the time of the deployment as it was.
pub run-Reaches :
    (iso : String → String) (cs : List Call) (t : Tables) (id : String) (r : Release)
    → IsLedger t
    → get t.releases id ≡ some r
    → (s : Release) × (get (run iso cs t).releases id ≡ some s) × Reaches r s
unfolding run
run-Reaches iso [] t id r h there = (r, there, here)
run-Reaches iso (c ∷ cs) t id r h there =
    let change = step-Change iso c t h in
    let (q, there', first) = Change-Later id change there in
    let (s, there'', rest) =
      run-Reaches iso cs (step iso c t) id q (Change-IsLedger change h) there' in
    (s, there'', Reaches-trans first rest)

unfoldable pub is_final : Status → Bool
is_final decided = true
is_final cancelled = true
is_final _ = false

pub no_way_out : (from to : Status) → is_final from ≡ true → allowed_transition from to ≡ false
unfolding is_final allowed_transition
no_way_out decided planned h = refl
no_way_out decided deployed h = refl
no_way_out decided observing h = refl
no_way_out decided decided h = refl
no_way_out decided cancelled h = refl
no_way_out cancelled planned h = refl
no_way_out cancelled deployed h = refl
no_way_out cancelled observing h = refl
no_way_out cancelled decided h = refl
no_way_out cancelled cancelled h = refl
no_way_out planned to h = absurd cc
no_way_out deployed to h = absurd cc
no_way_out observing to h = absurd cc

Reaches-final : {r s : Release} → is_final r.status ≡ true → Reaches r s → s ≡ r
Reaches-final h here = refl
Reaches-final {r} h (move to at allowed rest) = let out = no_way_out r.status to h in absurd cc

-- A decided or cancelled release of a ledger is final: no calls change anything of its row.
pub run-final :
    (iso : String → String) (cs : List Call) (t : Tables) (id : String) (r : Release)
    → IsLedger t
    → get t.releases id ≡ some r
    → is_final r.status ≡ true
    → get (run iso cs t).releases id ≡ some r
run-final iso cs t id r h there final =
    let (s, there', reach) = run-Reaches iso cs t id r h there in
    there' ∙ ap some (Reaches-final final reach)
