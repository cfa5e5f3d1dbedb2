-- ===== src/Schedules/Found.antt =====
-- src/services/timezoneSchedule.ts: what the search finds, and when.
use poolstatis.Common.{
  ℕ, zero, suc, ◌+◌, ◌≤◌, ◌<◌, ◌≡◌, refl, inl, inr, ◌⊎◌, true, false, Option, some, arith,
  Bool-cases, Option-cases,
}
use poolstatis.Schedules.Occurrence.{
  LocalMinute, Cadence, Resolution, exact, dst_shifted, Occurrence, Result, failed, found,
  Formatter, is_due, jumps, due, shifted, passes, judge, occurrence, search,
}

-- What an occurrence says: its minute is not before the start; it is due if it is exact, and past the target
-- if it is shifted.
abbrev pub Says : Cadence → ℕ → Formatter → ℕ → Occurrence → Type 0
Says c target local start o =
    (start ≤ o.scheduled_at)
    × ((l : LocalMinute) × (local o.scheduled_at ≡ some l)
        × (o.local_run_key ≡ l.date)
        × (elim o.resolution [
          | exact ↦ is_due c target l ≡ true
          | dst_shifted ↦ is_due c target l ≡ false
        ]))

abbrev pub IsSound : Cadence → ℕ → Formatter → ℕ → Result → Type 0
IsSound c target local start (failed e) = Unit
IsSound c target local start (found o) = Says c target local start o

later-IsSound :
    (c : Cadence) (target : ℕ) (local : Formatter) (start : ℕ) (r : Result)
    → IsSound c target local (start + 1) r
    → IsSound c target local start r
later-IsSound c target local start (failed e) h = tt
later-IsSound c target local start (found o) (late, rest) = (omega (arith, late), rest)

pub judge-cases :
    (c : Cadence) (target : ℕ) (p : Option LocalMinute) (l : LocalMinute)
    → ((judge c target p l ≡ due) × (is_due c target l ≡ true))
      ⊎ (((judge c target p l ≡ shifted)
            × ((is_due c target l ≡ false) × (jumps c target p l ≡ true)))
          ⊎ ((judge c target p l ≡ passes)
              × ((is_due c target l ≡ false) × (jumps c target p l ≡ false))))
unfolding judge
judge-cases c target p l = elim (Bool-cases (is_due c target l)) [
  | inl e ↦ inl (rw e refl, e)
  | inr e ↦ elim (Bool-cases (jumps c target p l)) [
    | inl f ↦ inr (inl (rw (e, f) refl, (e, f)))
    | inr f ↦ inr (inr (rw (e, f) refl, (e, f)))
  ]
]

pub search-IsSound :
    (n : ℕ) (c : Cadence) (target : ℕ) (local : Formatter) (at : ℕ) (p : Option LocalMinute)
    → IsSound c target local at (search n c target local at p)
unfolding search
search-IsSound zero c target local at p = tt
search-IsSound (suc n) c target local at p = elim (Option-cases (local at)) [
  | inl e ↦ rw (e, search) tt
  | inr (l, e) ↦ elim (judge-cases c target p l) [
    | inl (v, d) ↦ rw (e, search, v) (unfold occurrence in (omega arith, (l, e, refl, d)))
    | inr (inl (v, (d, j))) ↦
        rw (e, search, v) (unfold occurrence in (omega arith, (l, e, refl, d)))
    | inr (inr (v, (d, j))) ↦
        rw (e, search, v)
          (later-IsSound c target local at _ (search-IsSound n c target local (at + 1) (some l)))
  ]
]

-- Every minute of the search before the one it finds was not due.
abbrev pub IsFirst : Cadence → ℕ → Formatter → ℕ → Result → Type 0
IsFirst c target local start (failed e) = Unit
IsFirst c target local start (found o) =
    (i : ℕ) (l : LocalMinute)
    → start ≤ i
    → i < o.scheduled_at
    → local i ≡ some l
    → is_due c target l ≡ false

pub same_or_later : (a b : ℕ) → a ≤ b → (a ≡ b) ⊎ (a + 1 ≤ b)
same_or_later a b h = omega (arith, h)

no_gap : (a b : ℕ) → a ≤ b → b < a → ⊥
no_gap a b h k = omega (arith, h, k)

-- A search that passes its first minute finds a first one if the rest does.
IsFirst-earlier :
    (c : Cadence) (target : ℕ) (local : Formatter) (at : ℕ) (l : LocalMinute) (r : Result)
    → local at ≡ some l
    → is_due c target l ≡ false
    → IsFirst c target local (at + 1) r
    → IsFirst c target local at r
IsFirst-earlier c target local at l (failed e) shown undue h = tt
IsFirst-earlier c target local at l (found o) shown undue h =
    λ i k from to e. elim (same_or_later at i from) [ inl same ↦ cc | inr after ↦ h i k after to e ]

IsFirst-occurrence :
    (c : Cadence) (target : ℕ) (local : Formatter) (at : ℕ) (l : LocalMinute) (r : Resolution)
    → IsFirst c target local at (found (occurrence at l r))
unfolding occurrence
IsFirst-occurrence c target local at l r = λ i k from to e. elim (no_gap at i from to) [ ]

pub search-IsFirst :
    (n : ℕ) (c : Cadence) (target : ℕ) (local : Formatter) (at : ℕ) (p : Option LocalMinute)
    → IsFirst c target local at (search n c target local at p)
unfolding search
search-IsFirst zero c target local at p = tt
search-IsFirst (suc n) c target local at p = elim (Option-cases (local at)) [
  | inl e ↦ rw (e, search) tt
  | inr (l, e) ↦ elim (judge-cases c target p l) [
    | inl (v, d) ↦ rw (e, search, v) (IsFirst-occurrence c target local at l exact)
    | inr (inl (v, (d, j))) ↦ rw (e, search, v) (IsFirst-occurrence c target local at l dst_shifted)
    | inr (inr (v, (d, j))) ↦
        rw (e, search, v)
          (IsFirst-earlier c target local at l _ e d
            (search-IsFirst n c target local (at + 1) (some l)))
  ]
]
