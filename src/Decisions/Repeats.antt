-- ===== src/Decisions/Repeats.antt =====
-- src/services/evaluation.ts: what a key and an id find after the writes of the calls.
use poolstatis.Common.{
  ◌≡◌, refl, sym, ◌∙◌, ap, subst, inl, inr, true, false, none, some, String, [], ◌∷◌, Map, All, get,
  set, str_eq, eq_iff, eq_refl, get-set, Bool-cases,
}
use poolstatis.Decisions.Tables.{
  EvidenceSet, Decision, find_evidence_key, has_evidence_key, decision_of,
}
use poolstatis.Decisions.Invariant.{IsNamed}
use poolstatis.Releases.Changes.{some-eq}

pub find_evidence_key-set :
    (project release key id : String) (m : Map EvidenceSet) (n e : EvidenceSet)
    → get m id ≡ none
    → find_evidence_key project release key m ≡ some e
    → find_evidence_key project release key (set m id n) ≡ some e
unfolding find_evidence_key get set
find_evidence_key-set project release key id [] n e absent h = absurd cc
find_evidence_key-set project release key id ((j, w) ∷ m) n e absent h =
    elim (Bool-cases (str_eq j id)) [
      | inl same ↦ let absent' = rw same at absent in absurd cc
      | inr other ↦
          let absent' = rw other at absent in
          elim (Bool-cases (has_evidence_key project release key w)) [
            | inl e ↦ let h' = rw e at h in rw (other, e) h'
            | inr e ↦
                let h' = rw e at h in
                rw (other, e) (find_evidence_key-set project release key id m n _ absent' h')
          ]
    ]

-- A key that was free is found at the row that is put in.
pub find_evidence_key-new :
    (project release key id : String) (m : Map EvidenceSet) (n : EvidenceSet)
    → get m id ≡ none
    → find_evidence_key project release key m ≡ none
    → has_evidence_key project release key n ≡ true
    → find_evidence_key project release key (set m id n) ≡ some n
unfolding find_evidence_key get set
find_evidence_key-new project release key id [] n absent h k = rw k refl
find_evidence_key-new project release key id ((j, w) ∷ m) n absent h k =
    elim (Bool-cases (str_eq j id)) [
      | inl same ↦ let absent' = rw same at absent in absurd cc
      | inr other ↦
          let absent' = rw other at absent in
          elim (Bool-cases (has_evidence_key project release key w)) [
            | inl e ↦ let h' = rw e at h in absurd cc
            | inr e ↦
                let h' = rw e at h in
                rw (other, e) (find_evidence_key-new project release key id m n absent' h' k)
          ]
    ]

pub decision_of-append :
    (evidence id : String) (m : Map Decision) (n d : Decision)
    → get m id ≡ none
    → decision_of evidence m ≡ some d
    → decision_of evidence (set m id n) ≡ some d
unfolding decision_of get set
decision_of-append evidence id [] n d absent h = absurd cc
decision_of-append evidence id ((j, w) ∷ m) n d absent h = elim (Bool-cases (str_eq j id)) [
  | inl same ↦ let absent' = rw same at absent in absurd cc
  | inr other ↦
      let absent' = rw other at absent in
      elim (Bool-cases (str_eq w.evidence_id evidence)) [
        | inl e ↦ let h' = rw e at h in rw (other, e) h'
        | inr e ↦
            let h' = rw e at h in rw (other, e) (decision_of-append evidence id m n d absent' h')
      ]
]

pub decision_of-new :
    (id : String) (m : Map Decision) (n : Decision)
    → get m id ≡ none
    → decision_of n.evidence_id m ≡ none
    → decision_of n.evidence_id (set m id n) ≡ some n
unfolding decision_of get set
decision_of-new id [] n absent h = rw (eq_refl n.evidence_id) refl
decision_of-new id ((j, w) ∷ m) n absent h = elim (Bool-cases (str_eq j id)) [
  | inl same ↦ let absent' = rw same at absent in absurd cc
  | inr other ↦
      let absent' = rw other at absent in
      elim (Bool-cases (str_eq w.evidence_id n.evidence_id)) [
        | inl e ↦ let h' = rw e at h in absurd cc
        | inr e ↦ let h' = rw e at h in rw (other, e) (decision_of-new id m n absent' h')
      ]
]

-- The decision of evidence, with its row.
abbrev pub Holds : String → Map Decision → Decision → Type 0
Holds evidence m d = (decision_of evidence m ≡ some d) × (get m d.id ≡ some d)

decision_of-evidence :
    (evidence : String) (m : Map Decision) (d : Decision)
    → decision_of evidence m ≡ some d
    → str_eq d.evidence_id evidence ≡ true
unfolding decision_of
decision_of-evidence evidence [] d h = absurd cc
decision_of-evidence evidence ((j, w) ∷ m) d h = elim (Bool-cases (str_eq w.evidence_id evidence)) [
  | inl e ↦ subst (λ (x : Decision). str_eq x.evidence_id evidence ≡ true) (some-eq (rw e at h)) e
  | inr e ↦ let h' = rw e at h in decision_of-evidence evidence m d h'
]

decision_of-other :
    (evidence id : String) (m : Map Decision) (p n d : Decision)
    → get m id ≡ some p
    → n.evidence_id ≡ p.evidence_id
    → All IsNamed m
    → str_eq id d.id ≡ false
    → decision_of evidence m ≡ some d
    → decision_of evidence (set m id n) ≡ some d
unfolding decision_of get set
decision_of-other evidence id [] p n d there same named other h = absurd cc
decision_of-other evidence id ((j, w) ∷ m) p n d there same named other h =
    elim (Bool-cases (str_eq j id)) [
      | inl here ↦
          let w_is_p = some-eq (rw here at there) in
          let held = same ∙ ap (λ (x : Decision). x.evidence_id) (sym w_is_p) in
          elim (Bool-cases (str_eq w.evidence_id evidence)) [
            | inl e ↦
                let w_is_d = some-eq (rw e at h) in
                let name : id ≡ d.id =
                  sym ((eq_iff j id).0 here) ∙ (sym named.0 ∙ ap (λ (x : Decision). x.id) w_is_d) in
                let true_ = (eq_iff id d.id).1 name in absurd cc
            | inr e ↦ let h' = rw e at h in rw (here, held, e) h'
          ]
      | inr away ↦
          let there' = rw away at there in
          elim (Bool-cases (str_eq w.evidence_id evidence)) [
            | inl e ↦ let h' = rw e at h in rw (away, e) h'
            | inr e ↦
                let h' = rw e at h in
                rw (away, e) (decision_of-other evidence id m p n d there' same named.1 other h')
          ]
    ]

decision_of_same :
    (evidence id : String) (m : Map Decision) (n d : Decision)
    → get m id ≡ some d
    → n.evidence_id ≡ d.evidence_id
    → d.id ≡ id
    → All IsNamed m
    → decision_of evidence m ≡ some d
    → decision_of evidence (set m id n) ≡ some n
unfolding decision_of get set
decision_of_same evidence id [] n d there same name named h = absurd cc
decision_of_same evidence id ((j, w) ∷ m) n d there same name named h =
    elim (Bool-cases (str_eq j id)) [
      | inl here ↦
          let w_is_d = some-eq (rw here at there) in
          let held = same ∙ ap (λ (x : Decision). x.evidence_id) (sym w_is_d) in
          elim (Bool-cases (str_eq w.evidence_id evidence)) [
            | inl e ↦ rw (here, held, e) refl
            | inr e ↦
                let h' = rw e at h in
                let found = decision_of-evidence evidence m d h' in
                let e' = subst (λ (x : Decision). str_eq x.evidence_id evidence ≡ false) w_is_d e in
                absurd cc
          ]
      | inr away ↦
          let there' = rw away at there in
          elim (Bool-cases (str_eq w.evidence_id evidence)) [
            | inl e ↦
                let w_is_d = some-eq (rw e at h) in
                let at : j ≡ id = sym named.0 ∙ (ap (λ (x : Decision). x.id) w_is_d ∙ name) in
                let true_ = (eq_iff j id).1 at in absurd cc
            | inr e ↦
                let h' = rw e at h in
                rw (away, e) (decision_of_same evidence id m n d there' same name named.1 h')
          ]
    ]

pub revise-Holds :
    (evidence : String) (m : Map Decision) (p n d : Decision)
    → get m p.id ≡ some p
    → (n.evidence_id ≡ p.evidence_id) × (n.id ≡ p.id)
    → All IsNamed m
    → Holds evidence m d
    → (q : Decision) × (q.id ≡ d.id) × Holds evidence (set m p.id n) q
revise-Holds evidence m p n d there (same, name) named (h, row) =
    elim (Bool-cases (str_eq p.id d.id)) [
      | inl e ↦
          let id = (eq_iff p.id d.id).0 e in
          let p_is_d = some-eq (sym there ∙ (ap (λ (i : String). get m i) id ∙ row)) in
          (
            n,
            name ∙ id,
            (
              decision_of_same evidence p.id m n d (there ∙ ap some p_is_d)
                  (same ∙ ap (λ (x : Decision). x.evidence_id) p_is_d) (sym id) named h,
              rw (get-set m p.id n.id n, (eq_iff p.id n.id).1 (sym name)) refl,
            ),
          )
      | inr e ↦ (
        d,
        refl,
        (
          decision_of-other evidence p.id m p n d there same named e h,
          rw (get-set m p.id d.id n, e) row,
        ),
      )
    ]

pub appended :
    (m : Map Decision) (id : String) (n d : Decision)
    → get m id ≡ none
    → get m d.id ≡ some d
    → get (set m id n) d.id ≡ some d
appended m id n d absent row = elim (Bool-cases (str_eq id d.id)) [
  | inl e ↦
      let absent' = subst (λ (i : String). get m i ≡ none) ((eq_iff id d.id).0 e) absent in
      absurd cc
  | inr e ↦ rw (get-set m id d.id n, e) row
]
