-- ===== src/Decisions/Order.antt =====
-- src/services/decisions.ts: the order and the content of the queue.
use poolstatis.Common.{
  ℕ, ◌≡◌, refl, Bool, true, false, ◌||◌, String, List, [], ◌∷◌, map, All, if◌then◌else◌,
  sort_by-Perm, sort_by-IsOrdered, lex_le, IsOrdered, Perm,
}
use mathlib.Core.List.Perm
use poolstatis.Decisions.Evidence.{Outcome, keep, fix, rollback, inconclusive}
use poolstatis.Decisions.Tables.{Status, proposed, approved, rejected, Tables}
use poolstatis.Decisions.Selected.{Selects, select-Selects}
use poolstatis.Decisions.Queue.{
  Joined, Filter, Risk, high, medium, low, QueueItem, select, queue_risk, risk_order, is_rollback,
  is_doubtful, status_order, ready_order, order_key, item_of, list_decisions,
}

-- The order of an item, by what it shows.
unfoldable pub risk_number : Risk → ℕ
risk_number high = 0
risk_number medium = 1
risk_number low = 2

unfoldable pub status_number : Status → ℕ
status_number proposed = 0
status_number approved = 1
status_number rejected = 1

unfoldable pub ready_number : Bool → ℕ
ready_number true = 0
ready_number false = 1

unfoldable pub shown_key : (String → ℕ) → QueueItem → List ℕ
unfolding status_number ready_number risk_number
shown_key uuid i =
    status_number i.decision.status
    ∷ ready_number i.is_ready
    ∷ risk_number i.risk
    ∷ i.decision.created_at
    ∷ uuid i.decision.id
    ∷ []

-- The label of the risk agrees with the order that the statement gives it.
label-agrees :
    (o : Outcome) (regression : Bool)
    → risk_number
        (if is_rollback o || regression then high else if is_doubtful o then medium else low)
      ≡ risk_order o regression
unfolding risk_number risk_order is_rollback is_doubtful
label-agrees keep true = refl
label-agrees keep false = refl
label-agrees fix true = refl
label-agrees fix false = refl
label-agrees rollback true = refl
label-agrees rollback false = refl
label-agrees inconclusive true = refl
label-agrees inconclusive false = refl

status_agrees : (s : Status) → status_number s ≡ status_order s
unfolding status_number status_order
status_agrees proposed = refl
status_agrees approved = refl
status_agrees rejected = refl

ready_agrees : (b : Bool) → ready_number b ≡ ready_order b
unfolding ready_number ready_order
ready_agrees true = refl
ready_agrees false = refl

shown_key-item : (uuid : String → ℕ) (j : Joined) → shown_key uuid (item_of j) ≡ order_key uuid j
unfolding shown_key item_of order_key queue_risk
shown_key-item uuid j =
    rw
      (
        label-agrees j.decision.proposed_outcome j.evidence.result.guardrail_regression,
        status_agrees j.decision.status,
        ready_agrees j.evidence.result.ready,
      )
      refl

map-below :
    (uuid : String → ℕ) (j : Joined) (l : List Joined)
    → All (λ k. lex_le (order_key uuid j) (order_key uuid k) ≡ true) l
    → All (λ i. lex_le (shown_key uuid (item_of j)) (shown_key uuid i) ≡ true) (map item_of l)
map-below uuid j [] h = tt
map-below uuid j (k ∷ l) h =
    (rw (shown_key-item uuid j, shown_key-item uuid k) h.0, map-below uuid j l h.1)

map-IsOrdered :
    (uuid : String → ℕ) (l : List Joined)
    → IsOrdered (order_key uuid) l
    → IsOrdered (shown_key uuid) (map item_of l)
map-IsOrdered uuid [] h = tt
map-IsOrdered uuid (j ∷ l) h = (map-below uuid j l h.0, map-IsOrdered uuid l h.1)

-- The queue holds the item of each decision of the project whose release and evidence are there and which the
-- filter wants, as often as it is in the table, and no others. They are in the order of what they show:
-- proposed decisions first, then those on ready evidence, then by falling risk, by age and by id.
pub list_decisions-IsOrdered :
    (uuid : String → ℕ) (project : String) (f : Filter) (t : Tables)
    → IsOrdered (shown_key uuid) (list_decisions uuid project f t)
      × ((rows : List Joined) × (Selects project f t t.decisions rows)
          × Perm (list_decisions uuid project f t) (map item_of rows))
unfolding list_decisions
list_decisions-IsOrdered uuid project f t =
    let rows = select project f t t.decisions in
    (
      map-IsOrdered uuid _ (sort_by-IsOrdered (order_key uuid) rows),
      (
        rows,
        select-Selects project f t t.decisions,
        Perm.map item_of (sort_by-Perm (order_key uuid) rows),
      ),
    )
