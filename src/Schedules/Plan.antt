-- ===== src/Schedules/Plan.antt =====
-- src/services/timezoneSchedule.ts: how `nextZonedOccurrence` comes to its search, and what it answers in any
-- time zone.
use poolstatis.Common.{
  ℕ, ◌+◌, ◌*◌, ◌/◌, ◌<◌, ◌≡◌, refl, inl, inr, ◌⊎◌, false, Option, none, some, String, ltb, lt→ltb,
  Bool-cases, Option-cases,
}
use poolstatis.Schedules.Occurrence.{
  Cadence, Formatter, Error, bad_local_time, bad_weekday, bad_timezone, failed, search, rounds,
  bad_cadence, search_from, next_at, next_occurrence,
}
use poolstatis.Schedules.Found.{IsSound, IsFirst, search-IsSound, search-IsFirst}

pub next-search :
    (zones : String → Option Formatter) (c : Cadence) (hour minute : ℕ) (local : Formatter)
    → c.local_time ≡ some (hour, minute)
    → hour * 60 + minute < 1440
    → bad_cadence c ≡ false
    → zones c.timezone ≡ some local
    → (after : ℕ)
    → next_occurrence zones c after
      ≡ search rounds c (hour * 60 + minute) local (after / 60000 + 1) none
unfolding next_occurrence next_at search_from
next-search zones c hour minute local read time day zone after =
    rw (read, lt→ltb (hour * 60 + minute) 1440 time, day, zone) refl

-- For a time of day, a day and a zone that are accepted: an answer that is found is at a minute after the given
-- time, its key is the date that the zone shows then, an exact one is due, a shifted one is not, and no minute
-- between the given time and the answer was due.
pub next_occurrence_lem :
    (zones : String → Option Formatter) (c : Cadence) (hour minute : ℕ) (local : Formatter)
    → c.local_time ≡ some (hour, minute)
    → hour * 60 + minute < 1440
    → bad_cadence c ≡ false
    → zones c.timezone ≡ some local
    → (after : ℕ)
    → IsSound c (hour * 60 + minute) local (after / 60000 + 1) (next_occurrence zones c after)
      × IsFirst c (hour * 60 + minute) local (after / 60000 + 1) (next_occurrence zones c after)
next_occurrence_lem zones c hour minute local read time day zone after =
    rw (next-search zones c hour minute local read time day zone after) (
      search-IsSound rounds c (hour * 60 + minute) local (after / 60000 + 1) none,
      search-IsFirst rounds c (hour * 60 + minute) local (after / 60000 + 1) none,
    )

abbrev Fails : (String → Option Formatter) → Cadence → Type 0
Fails zones c = (e : Error) × ((after : ℕ) → next_occurrence zones c after ≡ failed e)

abbrev Searches : (String → Option Formatter) → Cadence → Type 0
Searches zones c =
    (target : ℕ) × ((local : Formatter) × ((after : ℕ)
        → next_occurrence zones c after ≡ search rounds c target local (after / 60000 + 1) none))

-- The same error at any time, or a search.
pub next-cases :
    (zones : String → Option Formatter) (c : Cadence) → Fails zones c ⊎ Searches zones c
unfolding next_occurrence next_at search_from
next-cases zones c = elim (Option-cases c.local_time) [
  | inl e ↦ inl (bad_local_time, λ after. rw e refl)
  | inr ((h, m), e) ↦ elim (Bool-cases (ltb (h * 60 + m) 1440)) [
    | inr t ↦ inl (bad_local_time, λ after. rw (e, t) refl)
    | inl t ↦ elim (Bool-cases (bad_cadence c)) [
      | inl d ↦ inl (bad_weekday, λ after. rw (e, t, d) refl)
      | inr d ↦ elim (Option-cases (zones c.timezone)) [
        | inl z ↦ inl (bad_timezone, λ after. rw (e, t, d, z) refl)
        | inr (local, z) ↦ inr (h * 60 + m, (local, λ after. rw (e, t, d, z) refl))
      ]
    ]
  ]
]
