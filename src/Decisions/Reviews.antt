-- ===== src/Decisions/Reviews.antt =====
-- src/services/decisions.ts: the review of a decision as a machine of three states, which the calls follow.
use poolstatis.Common.{◌≡◌, refl, Bool, true, false, not, ◌&&◌, ◌||◌, Option, none, some, String}
use poolstatis.Decisions.Evidence.{Outcome, inconclusive, keep, fix, rollback}
use poolstatis.Decisions.Tables.{EvidenceSet, Status, proposed, approved, rejected, Decision}
use poolstatis.Decisions.Calls.{
  is_directional, Command, approve, reject, edit, refusal, command_outcome, command_status, revised,
}

pub data Review : Type 0 where
  pending refused : Review
  accepted : Option Outcome → Review

unfoldable pub shown : Status → Option Outcome → Review
shown proposed o = pending
shown rejected o = refused
shown approved o = accepted o

-- What the row of a decision shows of its review.
unfoldable pub review_of : Decision → Review
unfolding shown
review_of d = shown d.status d.accepted_outcome

-- Evidence that is ready and trusted permits any outcome, other evidence an inconclusive one alone.
unfoldable pub conclusive : EvidenceSet → Bool
conclusive e = e.result.ready && e.result.trusted

unfoldable pub permitted : Bool → Outcome → Bool
permitted good inconclusive = true
permitted good _ = good

-- The steps of a reviewer.
pub data Judges (good : Bool) : Review → Review → Type 0 where
  accepts : (o : Outcome) → permitted good o ≡ true → Judges good pending (accepted (some o))
  refuses : Judges good pending refused
  amends : (o : Outcome) → permitted good o ≡ true → Judges good refused (accepted (some o))

pub data Reviewed (good : Bool) : Review → Review → Type 0 where
  here : {r : Review} → Reviewed good r r
  next : {r q p : Review} → Judges good r q → Reviewed good q p → Reviewed good r p

-- The same by the rows: revisions that the guards let through.
pub data Moves (e : EvidenceSet) : Decision → Decision → Type 0 where
  stays : {d : Decision} → Moves e d d
  moves :
      {d q : Decision} (command : Command) (rationale : String)
      → refusal command d.status ≡ none
      → (is_directional (command_outcome command d) && (not e.result.ready || not e.result.trusted))
        ≡ false
      → Moves e (revised command rationale d) q
      → Moves e d q

positive : (a b : Bool) → (not a || not b) ≡ false → (a && b) ≡ true
positive true true h = refl
positive true false h = absurd cc
positive false b h = absurd cc

permitted-guard :
    (e : EvidenceSet) (o : Outcome)
    → (is_directional (some o) && (not e.result.ready || not e.result.trusted)) ≡ false
    → permitted (conclusive e) o ≡ true
unfolding permitted conclusive is_directional
permitted-guard e inconclusive h = refl
permitted-guard e keep h = positive e.result.ready e.result.trusted h
permitted-guard e fix h = positive e.result.ready e.result.trusted h
permitted-guard e rollback h = positive e.result.ready e.result.trusted h

revised-Judges :
    (e : EvidenceSet) (command : Command) (rationale : String) (d : Decision) (status : Status)
    → refusal command status ≡ none
    → (is_directional (command_outcome command d) && (not e.result.ready || not e.result.trusted))
      ≡ false
    → Judges
        (conclusive e)
        (shown status d.accepted_outcome)
        (review_of (revised command rationale d))
unfolding shown review_of revised command_status command_outcome refusal
revised-Judges e approve rationale d proposed h k = accepts _ (permitted-guard e _ k)
revised-Judges e approve rationale d approved h k = absurd cc
revised-Judges e approve rationale d rejected h k = absurd cc
revised-Judges e reject rationale d proposed h k = refuses
revised-Judges e reject rationale d approved h k = absurd cc
revised-Judges e reject rationale d rejected h k = absurd cc
revised-Judges e (edit o) rationale d proposed h k = accepts _ (permitted-guard e _ k)
revised-Judges e (edit o) rationale d approved h k = absurd cc
revised-Judges e (edit o) rationale d rejected h k = amends _ (permitted-guard e _ k)

row-Judges :
    (e : EvidenceSet) (command : Command) (rationale : String) (d : Decision)
    → refusal command d.status ≡ none
    → (is_directional (command_outcome command d) && (not e.result.ready || not e.result.trusted))
      ≡ false
    → Judges (conclusive e) (review_of d) (review_of (revised command rationale d))
unfolding review_of
row-Judges e command rationale d h k = revised-Judges e command rationale d d.status h k

pub Moves-Reviewed :
    {e : EvidenceSet} {d q : Decision}
    → Moves e d q
    → Reviewed (conclusive e) (review_of d) (review_of q)
Moves-Reviewed stays = here
Moves-Reviewed {e} {d} (moves command rationale h k rest) =
    let first = row-Judges e command rationale d h k in next first (Moves-Reviewed rest)

pub Moves-trans : {e : EvidenceSet} {d q p : Decision} → Moves e d q → Moves e q p → Moves e d p
Moves-trans stays h = h
Moves-trans (moves command rationale a b rest) h = moves command rationale a b (Moves-trans rest h)
