-- ===== src/Schedules/Seeded.antt =====
-- src/services/insightFeedWorker.ts: the occurrence that `seedDue` takes for the time it planned.
use poolstatis.Common.{
  ℕ, suc, ◌+◌, ◌-◌, ◌*◌, ◌/◌, ◌≤◌, ◌<◌, ◌≡◌, refl, sym, subst, ap, ◌∙◌, inl, inr, true, false,
  Option, none, some, String, arith,
}
use poolstatis.Schedules.Occurrence.{
  LocalMinute, Cadence, Resolution, exact, dst_shifted, Occurrence, Result, failed, found,
  Formatter, is_due, jumps, judge, occurrence, search, rounds, next_occurrence, seeded_occurrence,
}
use poolstatis.Schedules.Found.{search-IsSound, IsSound}
use poolstatis.Schedules.Plan.{next-cases}

-- No answer at or before a minute.
abbrev pub IsAfter : ℕ → Result → Type 0
IsAfter m (failed e) = Unit
IsAfter m (found o) = m < o.scheduled_at

-- What a new look from just before an answer gives.
abbrev pub IsRefound : Occurrence → Result → Type 0
IsRefound o r = elim o.resolution [ exact ↦ r ≡ found o | dst_shifted ↦ IsAfter o.scheduled_at r ]

IsAfter-later :
    (c : Cadence) (target : ℕ) (local : Formatter) (m : ℕ) (r : Result)
    → IsSound c target local (m + 1) r
    → IsAfter m r
IsAfter-later c target local m (failed e) h = tt
IsAfter-later c target local m (found o) (late, rest) = omega (arith, late)

-- A search that starts at a minute with none before it: one that is due is taken, one that is not is passed.
again-exact :
    (n : ℕ) (c : Cadence) (target : ℕ) (local : Formatter) (m : ℕ) (l : LocalMinute)
    → local m ≡ some l
    → is_due c target l ≡ true
    → search (suc n) c target local m none ≡ found (occurrence m l exact)
unfolding search judge
again-exact n c target local m l e d = rw (e, search, d) refl

again-shifted :
    (n : ℕ) (c : Cadence) (target : ℕ) (local : Formatter) (m : ℕ) (l : LocalMinute)
    → local m ≡ some l
    → is_due c target l ≡ false
    → IsAfter m (search (suc n) c target local m none)
unfolding search judge jumps
again-shifted n c target local m l e d =
    rw (e, search, d)
      (IsAfter-later c target local m _ (search-IsSound n c target local (m + 1) (some l)))

-- The same, for an answer that says what it should.
search-IsRefound :
    (n : ℕ) (c : Cadence) (target : ℕ) (local : Formatter) (start m : ℕ) (key : String)
    (r : Resolution)
    → IsSound c target local start
        (found (record { scheduled_at = m; local_run_key = key; resolution = r }))
    → IsRefound
        (record { scheduled_at = m; local_run_key = key; resolution = r })
        (search (suc n) c target local m none)
unfolding occurrence
search-IsRefound n c target local start m key exact (late, (l, e, same, d)) =
    again-exact n c target local m l e d
    ∙ ap (λ x. found (record { scheduled_at = m; local_run_key = x; resolution = exact }))
        (sym same)
search-IsRefound n c target local start m key dst_shifted (late, (l, e, same, d)) =
    again-shifted n c target local m l e d

minute_before : (m : ℕ) → 1 ≤ m → (m * 60000 - 60000) / 60000 + 1 ≡ m
minute_before m h = omega (arith, h)

-- A schedule's planned time, looked up again from a minute before it as its run is inserted: an exact occurrence
-- is found again, with its key; one that is shifted by a change of the clock never is, and any answer is at a
-- later minute.
pub seeded-next_occurrence :
    (zones : String → Option Formatter) (c : Cadence) (after : ℕ) (o : Occurrence)
    → next_occurrence zones c after ≡ found o
    → IsRefound o (seeded_occurrence zones c o.scheduled_at)
unfolding seeded_occurrence rounds
seeded-next_occurrence zones c after o e = elim (next-cases zones c) [
  | inl (error, fails) ↦ let clash = fails after in cc
  | inr (target, (local, searches)) ↦
      let sound =
        subst (IsSound c target local (after / 60000 + 1)) (sym (searches after) ∙ e)
          (search-IsSound rounds c target local (after / 60000 + 1) none) in
      subst (IsRefound o)
        (sym (
          searches (o.scheduled_at * 60000 - 60000)
          ∙ ap (λ x. search rounds c target local x none)
              (minute_before o.scheduled_at (omega arith))))
        (search-IsRefound (8 * 24 * 60) c target local (after / 60000 + 1) o.scheduled_at
          o.local_run_key o.resolution sound)
]
