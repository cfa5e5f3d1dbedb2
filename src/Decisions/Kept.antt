-- ===== src/Decisions/Kept.antt =====
-- src/services/evaluation.ts and src/services/decisions.ts: every call keeps the invariant of the rows.
use poolstatis.Common.{
  suc, ◌≤◌, ◌≡◌, refl, sym, ◌∙◌, subst, inl, inr, Bool, true, false, not, ◌&&◌, ◌||◌, none, some,
  String, [], get, set, str_eq, eq_iff, get-set, arith, Bool-cases, Option-cases, ◌⊎◌, Map,
  if◌then◌else◌,
}
use poolstatis.Decisions.Tables.{
  EvidenceSet, Error, Status, proposed, approved, rejected, Decision, Tables, set_of_project,
  find_evidence, write_decision,
}
use poolstatis.Decisions.Calls.{
  is_proposed, is_approved, is_directional, Command, approve, reject, edit, refusal,
  command_outcome, command_status, command_action, revised,
}
use poolstatis.Decisions.Invariant.{
  history, last_snapshot, numbers, upto, revision_of, Shape, Rests, IsNamed, IsBacked, IsReviewed,
  set-rows, set-All, write-numbered, write-logged,
}
use poolstatis.Releases.Table as Rows
use poolstatis.Releases.Table.{Release, is_some}
use poolstatis.Releases.Changes.{some-eq}
use poolstatis.Releases.Invariant.{IsLedger, empty-IsLedger}

abbrev pub empty : Tables
empty = record {
  evidence = [];
  decisions = [];
  revisions = [];
  releases = record { releases = []; revisions = [] };
}

pub empty-IsReviewed : IsReviewed empty
unfolding get history numbers last_snapshot revision_of upto
empty-IsReviewed = record {
  ledger = empty-IsLedger;
  named = tt;
  backed = tt;
  keyed = λ id d h. absurd cc;
  keyed_evidence = λ id e h. absurd cc;
  numbered = λ id. refl;
  logged = λ id. refl;
  shaped = λ id d h. absurd cc;
  supported = λ id d h. absurd cc;
}

-- The rows of the releases have no part in the invariant.
pub other_releases :
    (t : Tables) (u : Rows.Tables)
    → IsLedger u
    → IsReviewed t
    → IsReviewed (record t { releases = u })
unfolding find_evidence
other_releases t u ledger h = record {
  ledger = ledger;
  named = h.named;
  backed = h.backed;
  keyed = h.keyed;
  keyed_evidence = h.keyed_evidence;
  numbered = h.numbered;
  logged = h.logged;
  shaped = h.shaped;
  supported = h.supported;
}

first_revision :
    (d : Decision) (s : Status) → is_proposed s ≡ true → Shape s d → d.current_revision ≡ 1
first_revision d proposed h k = k.2
first_revision d approved h k = absurd cc
first_revision d rejected h k = absurd cc

early_revision :
    (d : Decision) (s : Status)
    → is_approved s ≡ false
    → Shape s d
    → (1 ≤ d.current_revision) × (d.current_revision ≤ 2)
early_revision d proposed h k = omega (arith, k.2)
early_revision d approved h k = absurd cc
early_revision d rejected h k = omega (arith, k.2)

allowed-proposed : (e : Error) (b : Bool) → (if b then none else some e) ≡ none → b ≡ true
allowed-proposed e true h = refl
allowed-proposed e false h = absurd cc

allowed-unapproved : (e : Error) (b : Bool) → (if b then some e else none) ≡ none → b ≡ false
allowed-unapproved e true h = absurd cc
allowed-unapproved e false h = refl

revised-Shape :
    (command : Command) (rationale : String) (d : Decision)
    → refusal command d.status ≡ none
    → Shape d.status d
    → Shape (revised command rationale d).status (revised command rationale d)
unfolding refusal revised command_status command_outcome is_some
revised-Shape approve rationale d h k =
    let one = first_revision d d.status (allowed-proposed _ _ h) k in
    (refl, refl, omega arith, omega arith)
revised-Shape reject rationale d h k =
    let one = first_revision d d.status (allowed-proposed _ _ h) k in (refl, refl, omega arith)
revised-Shape (edit o) rationale d h k =
    let (low, high) = early_revision d d.status (allowed-unapproved _ _ h) k in
    (refl, refl, omega arith, omega arith)

found-backed :
    (t : Tables) (d : Decision) (e : EvidenceSet)
    → find_evidence d.project_id d.evidence_id t ≡ some e
    → is_some (get t.evidence d.evidence_id) ≡ true
unfolding find_evidence set_of_project is_some
found-backed t d e h = elim (Option-cases (get t.evidence d.evidence_id)) [
  | inl gone ↦ let h' = rw gone at h in absurd cc
  | inr (q, there) ↦ rw there refl
]

pub inserted-backed :
    (m : Map EvidenceSet) (k : String) (e : EvidenceSet) (id : String)
    → (k ≡ id) ⊎ (is_some (get m id) ≡ true)
    → is_some (get (set m k e) id) ≡ true
unfolding is_some
inserted-backed m k e id h = elim (Bool-cases (str_eq k id)) [
  | inl same ↦ rw (get-set m k id e, same) refl
  | inr other ↦ elim h [
    | inl same ↦ let same' = (eq_iff k id).1 same in absurd cc
    | inr b ↦ rw (get-set m k id e, other) b
  ]
]

next_revision :
    (t : Tables) (command : Command) (rationale : String) (d : Decision)
    → get t.decisions d.id ≡ some d
    → (revised command rationale d).current_revision
      ≡ suc (revision_of (get t.decisions (revised command rationale d).id))
unfolding revised revision_of
next_revision t command rationale d there = rw there (omega arith)

pub revise-IsReviewed :
    (t : Tables) (command : Command) (rationale actor : String) (d : Decision) (e : EvidenceSet)
    → IsReviewed t
    → get t.decisions d.id ≡ some d
    → refusal command d.status ≡ none
    → find_evidence d.project_id d.evidence_id t ≡ some e
    → (is_directional (command_outcome command d) && (not e.result.ready || not e.result.trusted))
      ≡ false
    → IsReviewed (
        write_decision
          (revised command rationale d)
          (command_action command)
          actor
          (some d)
          rationale
          t)
revise-IsReviewed t command rationale actor d e h there allowed found ok =
    let (e', found', (release, _)) = h.supported d.id d there in
    record {
      ledger = unfold write_decision in h.ledger;
      named = unfold write_decision revised in set-All IsNamed t.decisions d.id _ refl h.named;
      backed =
          unfold write_decision revised in
          set-All (IsBacked t.evidence) t.decisions d.id _ (found-backed t d e found) h.backed;
      keyed =
          unfold write_decision revised in
          set-rows (λ id x. x.id ≡ id) t.decisions d.id _ refl h.keyed;
      keyed_evidence = unfold write_decision in h.keyed_evidence;
      numbered =
          write-numbered (revised command rationale d) _ actor (some d) rationale t
            (next_revision t command rationale d there) h.numbered;
      logged = write-logged (revised command rationale d) _ actor (some d) rationale t h.logged;
      shaped =
          unfold write_decision revised in
          set-rows (λ id x. Shape x.status x) t.decisions d.id (revised command rationale d)
            (revised-Shape command rationale d allowed (h.shaped d.id d there)) h.shaped;
      supported =
          unfold write_decision find_evidence revised in
          set-rows
            (λ id x.
              (e : EvidenceSet) × (find_evidence x.project_id x.evidence_id t ≡ some e) × Rests x e)
            t.decisions d.id (revised command rationale d)
            (
              e,
              found,
              (
                subst (λ (x : EvidenceSet). x.release_id ≡ d.release_id)
                    (some-eq (sym found' ∙ found)) release,
                ok,
              ),
            )
            h.supported;
    }
