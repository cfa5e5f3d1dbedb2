-- ===== src/Decisions/Invariant.antt =====
-- src/services/decisions.ts and migrations/019_decision_evidence.sql: what holds of the rows between calls.
use poolstatis.Common.{
  ℕ, zero, suc, ◌≤◌, ◌≡◌, refl, sym, ◌∙◌, ap, subst, inl, inr, Bool, true, false, not, ◌&&◌, ◌||◌,
  Option, none, some, String, List, [], ◌∷◌, ◌++◌, All, get, set, str_eq, eq_iff, get-set,
  Bool-cases, if_elim, Map, if◌then◌else◌,
}
use poolstatis.Decisions.Tables.{
  EvidenceSet, Status, proposed, approved, rejected, Decision, Action, Revision, Tables,
  find_evidence, write_decision,
}
use poolstatis.Decisions.Calls.{is_directional}
use poolstatis.Releases.Table.{is_some}
use poolstatis.Releases.Changes.{some-eq}
use poolstatis.Releases.Invariant.{IsLedger}

-- The revisions of one decision, in their order.
unfoldable pub history : String → List Revision → List Revision
history id [] = []
history id (x ∷ log) =
    let rest = history id log in if str_eq x.decision_id id then x ∷ rest else rest

unfoldable pub last_snapshot : List Revision → Option Decision
last_snapshot [] = none
last_snapshot (x ∷ []) = some x.snapshot
last_snapshot (x ∷ y ∷ log) = last_snapshot (y ∷ log)

unfoldable pub numbers : List Revision → List ℕ
numbers [] = []
numbers (x ∷ log) = x.revision ∷ numbers log

-- 1, 2, and so on up to a number.
unfoldable pub upto : ℕ → List ℕ
upto zero = []
upto (suc n) = upto n ++ suc n ∷ []

unfoldable pub revision_of : Option Decision → ℕ
revision_of none = 0
revision_of (some d) = d.current_revision

pub history-append :
    (id : String) (log : List Revision) (x : Revision)
    → history id (log ++ x ∷ [])
      ≡ (if str_eq x.decision_id id then history id log ++ x ∷ [] else history id log)
unfolding history
history-append id [] x = elim (Bool-cases (str_eq x.decision_id id)) [
  | inl e ↦ rw e refl
  | inr e ↦ rw e refl
]
history-append id (y ∷ log) x = elim (Bool-cases (str_eq x.decision_id id)) [
  | inl e ↦
      let h = rw e at (history-append id log x) in rw (e, h) (pulled (str_eq y.decision_id id))
  | inr e ↦ let h = rw e at (history-append id log x) in rw (e, h) refl
]
  where
    pulled :
        (b : Bool)
        → (if b then y ∷ (history id log ++ x ∷ []) else history id log ++ x ∷ [])
          ≡ (if b then y ∷ history id log else history id log) ++ x ∷ []
    pulled true = refl
    pulled false = refl

pub last_snapshot-append :
    (log : List Revision) (x : Revision) → last_snapshot (log ++ x ∷ []) ≡ some x.snapshot
unfolding last_snapshot
last_snapshot-append [] x = refl
last_snapshot-append (y ∷ []) x = refl
last_snapshot-append (y ∷ z ∷ log) x = last_snapshot-append (z ∷ log) x

pub numbers-append :
    (log : List Revision) (x : Revision) → numbers (log ++ x ∷ []) ≡ numbers log ++ x.revision ∷ []
unfolding numbers
numbers-append [] x = refl
numbers-append (y ∷ log) x = ap (◌∷◌ y.revision) (numbers-append log x)

-- The CHECK of the table, with the revisions that a decision can have in a status.
abbrev pub Shape : Status → Decision → Type 0
Shape proposed d =
    (d.accepted_outcome ≡ none) × (d.accepted_rationale ≡ none) × (d.current_revision ≡ 1)
Shape approved d =
    (is_some d.accepted_outcome ≡ true)
    × (is_some d.accepted_rationale ≡ true)
    × (2 ≤ d.current_revision)
    × (d.current_revision ≤ 3)
Shape rejected d =
    (d.accepted_outcome ≡ none) × (is_some d.accepted_rationale ≡ true) × (d.current_revision ≡ 2)

-- What a decision rests on: evidence of its release, ready and trusted where a direction was accepted.
abbrev pub Rests : Decision → EvidenceSet → Type 0
Rests d e =
    (e.release_id ≡ d.release_id)
    × ((is_directional d.accepted_outcome && (not e.result.ready || not e.result.trusted)) ≡ false)

abbrev pub IsNamed : String × Decision → Type 0
IsNamed (id, d) = d.id ≡ id

-- Its evidence is stored.
abbrev pub IsBacked : Map EvidenceSet → String × Decision → Type 0
IsBacked evidence (id, d) = is_some (get evidence d.evidence_id) ≡ true

pub record IsReviewed (t : Tables) : Type 0 where
  pub ledger : IsLedger t.releases
  pub named : All IsNamed t.decisions
  pub backed : All (IsBacked t.evidence) t.decisions
  pub keyed : (id : String) (d : Decision) → get t.decisions id ≡ some d → d.id ≡ id
  pub keyed_evidence : (id : String) (e : EvidenceSet) → get t.evidence id ≡ some e → e.id ≡ id
  pub numbered :
      (id : String) → numbers (history id t.revisions) ≡ upto (revision_of (get t.decisions id))
  pub logged : (id : String) → get t.decisions id ≡ last_snapshot (history id t.revisions)
  pub shaped : (id : String) (d : Decision) → get t.decisions id ≡ some d → Shape d.status d
  pub supported :
      (id : String) (d : Decision)
      → get t.decisions id ≡ some d
      → (e : EvidenceSet) × (find_evidence d.project_id d.evidence_id t ≡ some e) × Rests d e

pub set-All :
    {V : Type 0} (P : String × V → Type 0) (m : Map V) (k : String) (v : V)
    → P (k, v)
    → All P m
    → All P (set m k v)
unfolding set
set-All P [] k v p h = (p, tt)
set-All P ((j, w) ∷ m) k v p h =
    if_elim (All P) (str_eq j k)
      (λ same. (subst (λ (i : String). P (i, v)) (sym ((eq_iff j k).0 same)) p, h.1))
      (λ _. (h.0, set-All P m k v p h.1))

pub All-map :
    {A : Type 0} (P Q : A → Type 0) (xs : List A) → ((a : A) → P a → Q a) → All P xs → All Q xs
All-map P Q [] f h = tt
All-map P Q (x ∷ xs) f h = (f x h.0, All-map P Q xs f h.1)

-- A predicate on the rows holds after a write where it held before, and holds of the row.
pub set-rows :
    {V : Type 0} (P : String → V → Type 0) (m : List (String × V)) (k : String) (v : V)
    → P k v
    → ((id : String) (w : V) → get m id ≡ some w → P id w)
    → (id : String) (w : V) → get (set m k v) id ≡ some w
    → P id w
set-rows P m k v p h id w e = elim (Bool-cases (str_eq k id)) [
  | inl f ↦
      let e' = rw (get-set m k id v, f) at e in
      subst (λ (x : _). P id x) (some-eq e') (subst (λ (i : String). P i v) ((eq_iff k id).0 f) p)
  | inr f ↦ let e' = rw (get-set m k id v, f) at e in h id w e'
]

counted :
    (d : Decision) {xs : List ℕ} {n : ℕ}
    → xs ≡ upto n
    → d.current_revision ≡ suc n
    → xs ++ d.current_revision ∷ [] ≡ upto (revision_of (some d))
unfolding upto revision_of
counted d h e = rw (h, e) refl

module _ (d : Decision) (action : Action) (actor : String) (previous : Option Decision)
    (rationale : String) (t : Tables) where
  pub write-numbered :
      d.current_revision ≡ suc (revision_of (get t.decisions d.id))
      → ((id : String) → numbers (history id t.revisions) ≡ upto (revision_of (get t.decisions id)))
      → (id : String)
      → numbers (history id (write_decision d action actor previous rationale t).revisions)
        ≡ upto (revision_of (get (write_decision d action actor previous rationale t).decisions id))
  unfolding write_decision
  write-numbered next h id = elim (Bool-cases (str_eq d.id id)) [
    | inl e ↦
        let same = (eq_iff d.id id).0 e in
        rw (history-append id t.revisions _, get-set t.decisions d.id id d, e)
          (numbers-append _ _
            ∙ counted d (h id)
                (next ∙ ap (λ (i : String). suc (revision_of (get t.decisions i))) same))
    | inr e ↦ rw (history-append id t.revisions _, get-set t.decisions d.id id d, e) (h id)
  ]

  pub write-logged :
      ((id : String) → get t.decisions id ≡ last_snapshot (history id t.revisions))
      → (id : String)
      → get (write_decision d action actor previous rationale t).decisions id
        ≡ last_snapshot (history id (write_decision d action actor previous rationale t).revisions)
  unfolding write_decision
  write-logged h id = elim (Bool-cases (str_eq d.id id)) [
    | inl e ↦
        rw (history-append id t.revisions _, get-set t.decisions d.id id d, e)
          (sym (last_snapshot-append _ _))
    | inr e ↦ rw (history-append id t.revisions _, get-set t.decisions d.id id d, e) (h id)
  ]
