-- ===== src/Flags/Intervals.antt =====
-- src/services/flags.ts: the interval of buckets that a variant has.
use poolstatis.Common.{
  ℕ, ◌+◌, ◌≤◌, ◌<◌, ◌≡◌, inl, inr, some, String, List, [], ◌∷◌, ◌++◌, ltb, Bool-cases, arith,
}
use poolstatis.Flags.Variants.{Variant, total, choose, select_variant, bucket_of}

-- The loop from a boundary on.
choose-at :
    (bucket boundary : ℕ) (before : List Variant) (v : Variant) (after : List Variant)
    → boundary + total before ≤ bucket
    → bucket < boundary + total before + v.rollout
    → choose bucket boundary (before ++ v ∷ after) ≡ some v
unfolding choose total
choose-at bucket boundary [] v after h k = ground arith
choose-at bucket boundary (w ∷ before) v after h k =
    elim (Bool-cases (ltb bucket (boundary + w.rollout))) [
      | inl e ↦ absurd (ground arith)
      | inr e ↦
          rw e (choose-at bucket (boundary + w.rollout) before v after (omega arith) (omega arith))
    ]

-- A visitor gets a variant when the bucket of the visitor is at least the shares of the variants before it
-- and below those with its own, whatever variants come later: more for a variant never takes it from
-- those who have it, while the variants before it stay as they are.
pub select_variant-at :
    (hash : String → ℕ) (salt distinct_id : String) (before : List Variant) (v : Variant)
    (after : List Variant)
    → total before ≤ bucket_of hash salt distinct_id
    → bucket_of hash salt distinct_id < total before + v.rollout
    → select_variant hash salt (before ++ v ∷ after) distinct_id ≡ some v
unfolding select_variant
select_variant-at hash salt distinct_id before v after h k =
    choose-at (bucket_of hash salt distinct_id) 0 before v after (omega arith) (omega arith)
