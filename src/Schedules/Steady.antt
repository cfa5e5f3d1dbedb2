-- ===== src/Schedules/Steady.antt =====
-- src/services/timezoneSchedule.ts: `nextZonedOccurrence` in a zone whose clock never changes.
use poolstatis.Common.{
  ℕ, zero, suc, ◌+◌, ◌-◌, ◌*◌, ◌/◌, ◌%◌, ◌≤◌, ◌<◌, ◌≡◌, refl, sym, subst, ◌∙◌, inl, inr, Bool, true,
  false, not, ◌&&◌, Option, none, some, String, ◌==◌, ltb, leb, arith, Option-cases,
}
use poolstatis.Schedules.Occurrence.{
  Frequency, daily, weekly, LocalMinute, Cadence, exact, Result, failed, found, Formatter,
  is_weekday, is_eligible, wall_minute, is_due, jumps, occurrence, search, rounds, valid_weekday,
  bad_cadence, next_occurrence,
}
use poolstatis.Schedules.Found.{judge-cases, same_or_later}
use poolstatis.Schedules.Plan.{next-search}

-- What the formatter of such a zone shows, as minutes go on from a Thursday.
abbrev pub Shows : ℕ → ℕ → Option LocalMinute → Type 0
Shows offset i none = ⊥
Shows offset i (some l) =
    (wall_minute l ≡ (i + offset) % 1440) × (l.weekday ≡ ((i + offset) / 1440 + 4) % 7)

-- The minute before, if the search has seen one.
abbrev Follows : ℕ → ℕ → Option LocalMinute → Type 0
Follows offset at none = Unit
Follows offset at (some p) = (i : ℕ) × (at ≡ i + 1) × (wall_minute p ≡ (i + offset) % 1440)

-- An exact occurrence at a minute or before it.
abbrev pub IsFoundBy : ℕ → Result → Type 0
IsFoundBy m (failed e) = ⊥
IsFoundBy m (found o) = (o.scheduled_at ≤ m) × (o.resolution ≡ exact)

unjumped :
    (e f g : Bool) (w v target : ℕ)
    → (w < target → v ≤ target)
    → (e && (f && (ltb w target && ltb target v))) ≡ false
unjumped e f g w v target h = ground arith

jumps_steady :
    (c : Cadence) (target offset at : ℕ) (p : Option LocalMinute) (l : LocalMinute)
    → Follows offset at p
    → wall_minute l ≡ (at + offset) % 1440
    → jumps c target p l ≡ false
unfolding jumps
jumps_steady c target offset at none l h w = refl
jumps_steady c target offset at (some p) l (i, next, v) w =
    unjumped _ _ true (wall_minute p) (wall_minute l) target (λ k. omega (arith, k, next, v, w))

search-IsFoundBy :
    (n : ℕ) (c : Cadence) (target : ℕ) (local : Formatter) (offset at : ℕ) (p : Option LocalMinute)
    (m : ℕ) (l : LocalMinute)
    → ((i : ℕ) → Shows offset i (local i))
    → Follows offset at p
    → at ≤ m
    → m < at + n
    → local m ≡ some l
    → is_due c target l ≡ true
    → IsFoundBy m (search n c target local at p)
unfolding search occurrence
search-IsFoundBy zero c target local offset at p m l shows follows from to e d =
    omega (arith, from, to)
search-IsFoundBy (suc n) c target local offset at p m l shows follows from to e d =
    elim (Option-cases (local at)) [
      | inl f ↦ elim (subst (Shows offset at) f (shows at)) [ ]
      | inr (k, f) ↦
          let (wall, day) = subst (Shows offset at) f (shows at) in
          elim (judge-cases c target p k) [
            | inl (v, u) ↦ rw (f, search, v) (from, refl)
            | inr (inl (v, (u, j))) ↦
                let never = jumps_steady c target offset at p k follows wall in cc
            | inr (inr (v, (u, j))) ↦ elim (same_or_later at m from) [
              | inl same ↦ cc
              | inr after ↦
                  rw (f, search, v)
                    (search-IsFoundBy n c target local offset (at + 1) (some k) m l shows
                      (at, refl, wall) after (omega (arith, to)) e d)
            ]
          ]
    ]

-- The minutes of one round of a schedule.
abbrev pub span : Frequency → ℕ
span daily = 1440
span weekly = 10080

-- Minutes that a zone shows at the time of day, and on the day, that a schedule asks for.
daily_minute : ℕ → ℕ → ℕ → ℕ
daily_minute target offset start = start + (target + 1440 - (start + offset) % 1440) % 1440

weekly_minute : ℕ → ℕ → ℕ → ℕ → ℕ
weekly_minute day target offset start =
    start + (day * 1440 + target + 10080 - (start + offset + 5760) % 10080) % 10080

daily_minute_lem :
    (target offset start : ℕ)
    → target < 1440
    → (start ≤ daily_minute target offset start)
      × ((daily_minute target offset start < start + 1440)
          × ((daily_minute target offset start + offset) % 1440 ≡ target))
unfolding daily_minute
daily_minute_lem target offset start h = omega (arith, h)

weekly_minute_lem :
    (day target offset start : ℕ)
    → target < 1440
    → day ≤ 6
    → (start ≤ weekly_minute day target offset start)
      × ((weekly_minute day target offset start < start + 10080)
          × (((weekly_minute day target offset start + offset) % 1440 ≡ target)
              × (((weekly_minute day target offset start + offset) / 1440 + 4) % 7 ≡ day)))
unfolding weekly_minute
weekly_minute_lem day target offset start h k = omega (arith, h, k)

same→== : (a b : ℕ) → a ≡ b → (a == b) ≡ true
same→== a b h = ground arith

both_same : (a b c d : ℕ) → a ≡ b → c ≡ d → (a == b && c == d) ≡ true
both_same a b c d h k = ground arith

not_leb→le : (a b : ℕ) → not (leb a b) ≡ false → a ≤ b
not_leb→le a b h = ground arith

span-rounds : (f : Frequency) (start m : ℕ) → m < start + span f → m < start + rounds
unfolding rounds
span-rounds daily start m h = omega (arith, h)
span-rounds weekly start m h = omega (arith, h)

IsFoundBy-later : (a b : ℕ) (r : Result) → a ≤ b → IsFoundBy a r → IsFoundBy b r
IsFoundBy-later a b (failed e) h k = k
IsFoundBy-later a b (found o) h (k, same) = (omega (arith, h, k), same)

-- A minute within the span at which a steady zone shows what an accepted schedule asks for.
unfoldable Arrives : String → Frequency → Option (ℕ × ℕ) → Option ℕ → ℕ → Formatter → ℕ → Type 0
Arrives zone f time day target local start =
    (m : ℕ) × ((l : LocalMinute) × ((start ≤ m)
        × ((m < start + span f)
            × ((local m ≡ some l)
                × (is_due
                      (record { timezone = zone; frequency = f; local_time = time; weekday = day })
                      target l
                    ≡ true)))))

arrives :
    (zone : String) (f : Frequency) (time : Option (ℕ × ℕ)) (day : Option ℕ) (target : ℕ)
    (local : Formatter) (offset start : ℕ)
    → ((i : ℕ) → Shows offset i (local i))
    → target < 1440
    → bad_cadence (record { timezone = zone; frequency = f; local_time = time; weekday = day })
      ≡ false
    → Arrives zone f time day target local start
unfolding Arrives bad_cadence valid_weekday is_due is_eligible is_weekday
arrives zone daily time day target local offset start shows h ok =
    let m = daily_minute target offset start in
    let (from, (to, at)) = daily_minute_lem target offset start h in
    elim (Option-cases (local m)) [
      | inl e ↦ elim (subst (Shows offset m) e (shows m)) [ ]
      | inr (l, e) ↦
          let (wall, w) = subst (Shows offset m) e (shows m) in
          (m, (l, (from, (to, (e, same→== _ _ (wall ∙ at))))))
    ]
arrives zone weekly time none target local offset start shows h ok = cc
arrives zone weekly time (some d) target local offset start shows h ok =
    let m = weekly_minute d target offset start in
    let (from, (to, (at, on))) = weekly_minute_lem d target offset start h (not_leb→le d 6 ok) in
    elim (Option-cases (local m)) [
      | inl e ↦ elim (subst (Shows offset m) e (shows m)) [ ]
      | inr (l, e) ↦
          let (wall, w) = subst (Shows offset m) e (shows m) in
          (m, (l, (from, (to, (e, both_same _ _ _ _ (w ∙ on) (wall ∙ at))))))
    ]

-- In a zone whose clock shows the minutes of the day and the days of the week in their order, with no change, a
-- time of day, a day and a zone that are accepted have an exact occurrence within a day, or within a week if
-- they are weekly: the search never gives up.
pub next_occurrence_total :
    (zones : String → Option Formatter) (c : Cadence) (hour minute : ℕ) (local : Formatter)
    (offset : ℕ)
    → c.local_time ≡ some (hour, minute)
    → hour * 60 + minute < 1440
    → bad_cadence c ≡ false
    → zones c.timezone ≡ some local
    → ((i : ℕ) → Shows offset i (local i))
    → (after : ℕ) → IsFoundBy (after / 60000 + span c.frequency) (next_occurrence zones c after)
unfolding Arrives rounds
next_occurrence_total zones c hour minute local offset read time day zone shows after =
    let start = after / 60000 + 1 in
    let target = hour * 60 + minute in
    let (m, (l, (from, (to, (e, d))))) =
      arrives c.timezone c.frequency c.local_time c.weekday target local offset start shows time
        day in
    subst (IsFoundBy (after / 60000 + span c.frequency))
      (sym (next-search zones c hour minute local read time day zone after))
      (IsFoundBy-later _ _ (search rounds c target local start none) (omega (arith, to)) (
        search-IsFoundBy rounds c target local offset start none m l shows tt from
          (span-rounds c.frequency _ _ to) e d))
