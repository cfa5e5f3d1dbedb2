-- ===== src/BufferedStore/Share.antt =====
-- src/stores/bufferedEventStore.ts: the batch that is taken, and the shares of its callers.
use poolstatis.Common.{
  ℕ, ◌+◌, ◌-◌, ◌≤◌, ◌≡◌, refl, ap, inl, inr, List, [], ◌∷◌, ◌++◌, length, min, arith, ltb,
  Bool-cases,
}
use poolstatis.BufferedStore.State.{Append, Outcome, inserted, failed, take_batch}
use poolstatis.BufferedStore.Steps.{total, share}

-- The sum of the shares.
abbrev pub granted : List (ℕ × Outcome) → ℕ
granted [] = 0
granted ((_, inserted n) ∷ rest) = n + granted rest
granted ((_, failed) ∷ rest) = granted rest

module _ {E : Type 0} where
  share_from :
      (offset result : ℕ) (batch : List (Append E))
      → granted (share offset result batch) ≡ min (total batch) (result - offset)
  unfolding share total
  share_from offset result [] = omega arith
  share_from offset result (item ∷ rest) =
      omega (arith, share_from (offset + length item.events) result rest)

  -- The shares of a batch add up to what the delegate inserted, up to the size of the batch.
  pub granted-share :
      (result : ℕ) (batch : List (Append E))
      → granted (share 0 result batch) ≡ min (total batch) result
  granted-share result batch = omega (arith, share_from 0 result batch)

  -- What is taken and what is left are the pending appends, in their order.
  pub take_batch-append :
      (limit taken : ℕ) (xs : List (Append E))
      → (take_batch limit taken xs).0 ++ (take_batch limit taken xs).2 ≡ xs
  unfolding take_batch
  take_batch-append limit taken [] = refl
  take_batch-append limit taken (x ∷ xs) = elim (Bool-cases (ltb limit (taken + length x.events))) [
    | inl e ↦ rw e
    | inr e ↦ rw e (ap (λ ys. x ∷ ys) (take_batch-append limit (taken + length x.events) xs))
  ]

  -- The count that goes with the batch is the number of its events, and it is within the limit.
  pub take_batch-total :
      (limit taken : ℕ) (xs : List (Append E))
      → (take_batch limit taken xs).1 ≡ taken + total (take_batch limit taken xs).0
  unfolding take_batch total
  take_batch-total limit taken [] = omega arith
  take_batch-total limit taken (x ∷ xs) =
      ground (arith, take_batch-total limit (taken + length x.events) xs)

  pub take_batch-le :
      (limit taken : ℕ) (xs : List (Append E))
      → taken ≤ limit
      → (take_batch limit taken xs).1 ≤ limit
  unfolding take_batch
  take_batch-le limit taken [] h = h
  take_batch-le limit taken (x ∷ xs) h =
      ground (arith, take_batch-le limit (taken + length x.events) xs)

  pub total-append : (xs ys : List (Append E)) → total (xs ++ ys) ≡ total xs + total ys
  unfolding total
  total-append [] ys = omega arith
  total-append (x ∷ xs) ys = omega (arith, total-append xs ys)
