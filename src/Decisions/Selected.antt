-- ===== src/Decisions/Selected.antt =====
-- src/services/decisions.ts: which rows the joins and the filter of the queue select.
use poolstatis.Common.{
  ◌≡◌, refl, ap, subst, ◌↔◌, inl, inr, Bool, true, false, ◌&&◌, Option, none, some, String, List,
  [], ◌∷◌, Map, str_eq, eq_iff, Bool-cases,
}
use poolstatis.Decisions.Tables.{
  EvidenceSet, Status, proposed, approved, rejected, Decision, Tables, find_evidence,
}
use poolstatis.Decisions.Queue.{
  Joined, Filter, same_status, wanted, wanted_link, wanted_status, passes, join_with, join,
  keep_passing, select,
}
use poolstatis.Releases.Table.{Release, find_release}

-- A part of the filter, on a column that is never NULL and on one that may be.
abbrev pub Wants : {A : Type 0} → Option A → A → Type 0
Wants none x = Unit
Wants (some y) x = x ≡ y

abbrev pub WantsLink : Option String → Option String → Type 0
WantsLink none x = Unit
WantsLink (some y) x = x ≡ some y

abbrev pub IsWanted : Filter → Joined → Type 0
IsWanted f j =
    Wants f.status j.decision.status
    × (Wants f.release_id j.decision.release_id
        × (Wants f.env j.release.env × WantsLink f.experiment_key j.release.experiment_key))

-- The joined row of a decision of the project, if the filter wants it.
abbrev pub IsRow : String → Filter → Tables → Decision → Joined → Type 0
IsRow project f t d j =
    (j.decision ≡ d)
    × ((d.project_id ≡ project)
        × ((find_release project d.release_id t.releases ≡ some j.release)
            × ((find_evidence project d.evidence_id t ≡ some j.evidence) × IsWanted f j)))

-- The rows of the decisions that have one, in the order of the table.
pub data Selects (project : String) (f : Filter) (t : Tables)
    : Map Decision → List Joined → Type 0 where
  nothing : Selects project f t [] []
  takes :
      (id : String) (d : Decision) (j : Joined) {m : Map Decision} {js : List Joined}
      → IsRow project f t d j
      → Selects project f t m js
      → Selects project f t ((id, d) ∷ m) (j ∷ js)
  leaves :
      (id : String) (d : Decision) {m : Map Decision} {js : List Joined}
      → ((j : Joined) → ¬ IsRow project f t d j)
      → Selects project f t m js
      → Selects project f t ((id, d) ∷ m) js

and_iff :
    {P Q : Type 0} (a b : Bool) → (a ≡ true) ↔ P → (b ≡ true) ↔ Q → ((a && b) ≡ true) ↔ (P × Q)
and_iff true b h k = (λ e. (h.0 refl, k.0 e), λ o. k.1 o.1)
and_iff false b h k = (λ e. absurd cc, λ o. h.1 o.0)

same_status_iff : (p s : Status) → (same_status s p ≡ true) ↔ (s ≡ p)
unfolding same_status
same_status_iff proposed proposed = (λ _. refl, λ _. refl)
same_status_iff approved approved = (λ _. refl, λ _. refl)
same_status_iff rejected rejected = (λ _. refl, λ _. refl)
same_status_iff proposed approved = (λ e. absurd cc, λ e. absurd cc)
same_status_iff proposed rejected = (λ e. absurd cc, λ e. absurd cc)
same_status_iff approved proposed = (λ e. absurd cc, λ e. absurd cc)
same_status_iff approved rejected = (λ e. absurd cc, λ e. absurd cc)
same_status_iff rejected proposed = (λ e. absurd cc, λ e. absurd cc)
same_status_iff rejected approved = (λ e. absurd cc, λ e. absurd cc)

wanted_status_iff : (o : Option Status) (s : Status) → (wanted_status o s ≡ true) ↔ Wants o s
unfolding wanted_status
wanted_status_iff none s = (λ _. tt, λ _. refl)
wanted_status_iff (some p) s = same_status_iff p s

wanted_iff : (o : Option String) (x : String) → (wanted o x ≡ true) ↔ Wants o x
unfolding wanted
wanted_iff none x = (λ _. tt, λ _. refl)
wanted_iff (some y) x = eq_iff x y

wanted_link_iff : (o x : Option String) → (wanted_link o x ≡ true) ↔ WantsLink o x
unfolding wanted_link
wanted_link_iff none x = (λ _. tt, λ _. refl)
wanted_link_iff (some y) none = (λ e. absurd cc, λ e. absurd cc)
wanted_link_iff (some y) (some x) = (λ e. ap some ((eq_iff x y).0 e), λ e. (eq_iff x y).1 cc)

passes_iff : (f : Filter) (j : Joined) → (passes f j ≡ true) ↔ IsWanted f j
unfolding passes
passes_iff f j = and_iff _ _ (wanted_status_iff f.status j.decision.status) (
    and_iff _ _ (wanted_iff f.release_id j.decision.release_id) (
      and_iff _ _ (wanted_iff f.env j.release.env)
        (wanted_link_iff f.experiment_key j.release.experiment_key)))

same : {A : Type 0} {a b : A} {o : Option A} → o ≡ some a → o ≡ some b → a ≡ b
same h k = cc

-- A decision has at most one joined row.
unwanted :
    (f : Filter) (d : Decision) (r : Release) (e : EvidenceSet) (x : Joined)
    → x.decision ≡ d
    → x.release ≡ r
    → x.evidence ≡ e
    → IsWanted f x
    → passes f (record { decision = d; release = r; evidence = e }) ≡ false
    → ⊥
unwanted f d r e x one two three w k =
    let P = λ (j : Joined). passes f j ≡ true in
    let a =
      subst (λ o. P (record { decision = o; release = x.release; evidence = x.evidence })) one
        ((passes_iff f x).1 w) in
    let b = subst (λ o. P (record { decision = d; release = o; evidence = x.evidence })) two a in
    let c = subst (λ o. P (record { decision = d; release = r; evidence = o })) three b in cc

-- What one decision adds to the rows.
kept-Selects :
    (project : String) (f : Filter) (t : Tables) (id : String) (d : Decision) (m : Map Decision)
    (rest : List Joined) (r : Option Release) (e : Option EvidenceSet)
    → d.project_id ≡ project
    → find_release project d.release_id t.releases ≡ r
    → find_evidence project d.evidence_id t ≡ e
    → Selects project f t m rest
    → Selects project f t ((id, d) ∷ m) (keep_passing f (join_with d r e) rest)
unfolding keep_passing join_with
kept-Selects project f t id d m rest none e p found proof h =
    leaves id d (λ j (own, (mine, (there, o))). cc) h
kept-Selects project f t id d m rest (some r) none p found proof h =
    leaves id d (λ j (own, (mine, (there, (held, o)))). cc) h
kept-Selects project f t id d m rest (some r) (some e) p found proof h =
    let j : Joined = record { decision = d; release = r; evidence = e } in
    elim (Bool-cases (passes f j)) [
      | inl k ↦ rw k (takes id d j (refl, (p, (found, (proof, (passes_iff f j).0 k)))) h)
      | inr k ↦ rw k (
          leaves id d
            (λ x (own, (mine, (there, (held, o)))).
              unwanted f d r e x own (same there found) (same held proof) o k)
            h)
    ]

pub select-Selects :
    (project : String) (f : Filter) (t : Tables) (m : Map Decision)
    → Selects project f t m (select project f t m)
unfolding select join
select-Selects project f t [] = nothing
select-Selects project f t ((id, d) ∷ m) = elim (Bool-cases (str_eq d.project_id project)) [
  | inl e ↦ rw e (
      kept-Selects project f t id d m _ _ _ ((eq_iff d.project_id project).0 e) refl refl
        (select-Selects project f t m))
  | inr e ↦ rw e (
      leaves id d (λ j (own, (mine, o)). let yes = (eq_iff d.project_id project).1 mine in cc)
        (select-Selects project f t m))
]
