-- ===== src/Schedules/Examples.antt =====
-- src/services/timezoneSchedule.ts: runs in a zone with no change of the clock, and in one that skips an hour.
use poolstatis.Common.{
  ℕ, ◌+◌, ◌/◌, ◌%◌, ◌≡◌, refl, Option, none, some, String, ltb, if◌then◌else◌, arith,
}
use poolstatis.Schedules.Occurrence.{
  daily, weekly, LocalMinute, Cadence, exact, dst_shifted, Occurrence, found, Formatter,
  is_eligible, wall_minute, is_due, jumps, judge, occurrence, search, rounds, valid_weekday,
  bad_cadence, search_from, next_at, next_occurrence, seeded_occurrence,
}
use poolstatis.Schedules.Found.{IsSound, IsFirst}
use poolstatis.Schedules.Plan.{next_occurrence_lem}
use poolstatis.Schedules.Seeded.{IsAfter, seeded-next_occurrence}
use poolstatis.Schedules.Steady.{Shows, IsFoundBy, next_occurrence_total}

abbrev shown : ℕ → LocalMinute
shown i = record {
  date = if ltb i 1440 then "1970-01-01" else "1970-01-02";
  hour = i / 60 % 24;
  minute = i % 60;
  weekday = (i / 1440 + 4) % 7;
}

abbrev utc : Formatter
utc i = some (shown i)

-- After the first two hours, the clock goes on from 03:00.
abbrev skipping : Formatter
skipping i = if ltb i 120 then some (shown i) else some (shown (i + 60))

abbrev zones : String → Option Formatter
zones name = some utc

abbrev summer : String → Option Formatter
summer name = some skipping

abbrev nightly : Cadence
nightly = record {
  timezone = "Europe/Berlin";
  frequency = daily;
  local_time = some (2, 30);
  weekday = none;
}

abbrev fridays : Cadence
fridays = record {
  timezone = "UTC";
  frequency = weekly;
  local_time = some (0, 5);
  weekday = some 5;
}

abbrev shifted : Occurrence
shifted = record { scheduled_at = 120; local_run_key = "1970-01-01"; resolution = dst_shifted }

utc-Shows : (i : ℕ) → Shows 0 i (utc i)
unfolding wall_minute
utc-Shows i = (omega arith, omega arith)

nightly_is_shifted : next_occurrence summer nightly 6900000 ≡ found shifted
unfolding next_occurrence next_at search_from search rounds judge is_due jumps is_eligible
    wall_minute occurrence bad_cadence
nightly_is_shifted = refl

next_occurrence_lem_example :
    IsSound nightly 150 skipping 116 (next_occurrence summer nightly 6900000)
    × IsFirst nightly 150 skipping 116 (next_occurrence summer nightly 6900000)
unfolding bad_cadence
next_occurrence_lem_example =
    next_occurrence_lem summer nightly 2 30 skipping refl (omega arith) refl refl 6900000

next_occurrence_total_example : IsFoundBy 10080 (next_occurrence zones fridays 0)
unfolding bad_cadence valid_weekday
next_occurrence_total_example =
    next_occurrence_total zones fridays 0 5 utc 0 refl (omega arith) refl refl utc-Shows 0

seeded-next_occurrence_example : IsAfter 120 (seeded_occurrence summer nightly 120)
seeded-next_occurrence_example =
    seeded-next_occurrence summer nightly 6900000 shifted nightly_is_shifted

-- The run of the shifted occurrence takes the key of the next day, which the next day's run then has too.
abbrev next_day : Occurrence
next_day = record { scheduled_at = 1530; local_run_key = "1970-01-02"; resolution = exact }

nightly_takes_next_key : seeded_occurrence summer nightly 120 ≡ found next_day
unfolding seeded_occurrence next_occurrence next_at search_from search rounds judge is_due jumps
    is_eligible wall_minute occurrence bad_cadence
nightly_takes_next_key = refl

nightly_has_same_key : next_occurrence summer nightly 7200000 ≡ found next_day
unfolding next_occurrence next_at search_from search rounds judge is_due jumps is_eligible
    wall_minute occurrence bad_cadence
nightly_has_same_key = refl
