-- ===== src/Metering/Rows.antt =====
-- src/stores/postgresEventStore.ts: the row of a batch that a request finds.
use poolstatis.Common.{
  ℕ, ◌≡◌, refl, sym, ap, subst, ◌∙◌, inl, inr, Bool, true, false, ◌&&◌, none, some, List, [], ◌∷◌,
  ◌++◌, str_eq, eq_iff, Bool-cases,
}
use poolstatis.Metering.Table.{Dedupe, ingest, experience, completed, Batch}
use poolstatis.Metering.Batches.{same_dedupe, Request, is_batch, find_batch, complete_batch}
use poolstatis.Releases.Changes.{some-eq}

same_dedupe_iff : (a b : Dedupe) → same_dedupe a b ≡ true → a ≡ b
unfolding same_dedupe
same_dedupe_iff ingest ingest h = refl
same_dedupe_iff experience experience h = refl
same_dedupe_iff ingest experience h = absurd cc
same_dedupe_iff experience ingest h = absurd cc

both : (a b : Bool) → (a && b) ≡ true → (a ≡ true) × (b ≡ true)
both true b h = (refl, h)
both false b h = absurd cc

is_batch-keys :
    (r : Request) (b : Batch)
    → is_batch r b ≡ true
    → (b.dedupe ≡ r.dedupe)
      × (b.project_id ≡ r.project_id)
      × (b.env ≡ r.env)
      × (b.batch_id ≡ r.batch_id)
unfolding is_batch
is_batch-keys r b h =
    let (d, rest) = both (same_dedupe b.dedupe r.dedupe) _ h in
    let (p, rest') = both (str_eq b.project_id r.project_id) _ rest in
    let (e, i) = both (str_eq b.env r.env) _ rest' in
    (same_dedupe_iff _ _ d, (eq_iff _ _).0 p, (eq_iff _ _).0 e, (eq_iff _ _).0 i)

-- Two requests that meet one row meet the same rows.
same_rows :
    (q r : Request) (b c : Batch)
    → is_batch q b ≡ true
    → is_batch r b ≡ true
    → is_batch q c ≡ is_batch r c
unfolding is_batch
same_rows q r b c h k =
    let (d, p, e, i) = is_batch-keys q b h in
    let (d', p', e', i') = is_batch-keys r b k in
    rw (sym d ∙ d', sym p ∙ p', sym e ∙ e', sym i ∙ i') refl

pub find_batch-is_batch :
    (r : Request) (bs : List Batch) (b : Batch) → find_batch r bs ≡ some b → is_batch r b ≡ true
unfolding find_batch
find_batch-is_batch r [] b h = absurd cc
find_batch-is_batch r (c ∷ bs) b h = elim (Bool-cases (is_batch r c)) [
  | inl e ↦ subst (λ (x : Batch). is_batch r x ≡ true) (some-eq (rw e at h)) e
  | inr e ↦ let h' = rw e at h in find_batch-is_batch r bs b h'
]

pub find_batch-same :
    (q r : Request) (bs : List Batch) (b : Batch)
    → is_batch q b ≡ true
    → is_batch r b ≡ true
    → find_batch q bs ≡ find_batch r bs
unfolding find_batch
find_batch-same q r [] b h k = refl
find_batch-same q r (c ∷ bs) b h k = elim (Bool-cases (is_batch r c)) [
  | inl e ↦ rw (same_rows q r b c h k, e) refl
  | inr e ↦ rw (same_rows q r b c h k, e) (find_batch-same q r bs b h k)
]

pub find_batch-append :
    (r : Request) (bs : List Batch) (b n : Batch)
    → find_batch r bs ≡ some b
    → find_batch r (bs ++ n ∷ []) ≡ some b
unfolding find_batch
find_batch-append r [] b n h = absurd cc
find_batch-append r (c ∷ bs) b n h = elim (Bool-cases (is_batch r c)) [
  | inl e ↦ let h' = rw e at h in rw e h'
  | inr e ↦ let h' = rw e at h in rw e (find_batch-append r bs b n h')
]

pub find_batch-new :
    (r : Request) (bs : List Batch) (n : Batch)
    → find_batch r bs ≡ none
    → is_batch r n ≡ true
    → find_batch r (bs ++ n ∷ []) ≡ some n
unfolding find_batch
find_batch-new r [] n h k = rw k refl
find_batch-new r (c ∷ bs) n h k = elim (Bool-cases (is_batch r c)) [
  | inl e ↦ let h' = rw e at h in absurd cc
  | inr e ↦ let h' = rw e at h in rw e (find_batch-new r bs n h' k)
]

completed_row :
    (r : Request) (now : ℕ) (c : Batch)
    → is_batch r c ≡ true
    → is_batch r (record c { status = completed; received_at = now }) ≡ true
unfolding is_batch
completed_row r now c h = h

completed_off :
    (r : Request) (now : ℕ) (c : Batch)
    → is_batch r c ≡ false
    → is_batch r (record c { status = completed; received_at = now }) ≡ false
unfolding is_batch
completed_off r now c h = h

pub find-complete_self :
    (r : Request) (now : ℕ) (bs : List Batch) (b : Batch)
    → find_batch r bs ≡ some b
    → find_batch r (complete_batch r now bs)
      ≡ some (record b { status = completed; received_at = now })
unfolding find_batch complete_batch
find-complete_self r now [] b h = absurd cc
find-complete_self r now (c ∷ bs) b h = elim (Bool-cases (is_batch r c)) [
  | inl e ↦
      let same = some-eq (rw e at h) in
      rw e (
        rw (completed_row r now c e)
          (ap (λ (x : Batch). some (record x { status = completed; received_at = now })) same))
  | inr e ↦ let h' = rw e at h in rw (e, e) (find-complete_self r now bs b h')
]

-- A request for another batch leaves the row alone.
pub find-complete_other :
    (q r : Request) (now : ℕ) (bs : List Batch) (c : Batch)
    → find_batch q bs ≡ some c
    → is_batch r c ≡ false
    → find_batch r (complete_batch q now bs) ≡ find_batch r bs
unfolding find_batch complete_batch
find-complete_other q r now [] c h k = absurd cc
find-complete_other q r now (d ∷ bs) c h k = elim (Bool-cases (is_batch q d)) [
  | inl e ↦
      let same = some-eq (rw e at h) in
      let k' = subst (λ (x : Batch). is_batch r x ≡ false) (sym same) k in
      rw e (rw (completed_off r now d k') refl)
  | inr e ↦
      let h' = rw e at h in
      elim (Bool-cases (is_batch r d)) [
        | inl f ↦ rw (e, f) refl
        | inr f ↦ rw (e, f) (find-complete_other q r now bs c h' k)
      ]
]
