-- ===== src/Schedules/Occurrence.antt =====
-- src/services/timezoneSchedule.ts: `nextZonedOccurrence`; src/services/insightFeedWorker.ts: its calls for a
-- schedule that is due.
use poolstatis.Common.{
  ℕ, zero, suc, ◌+◌, ◌-◌, ◌*◌, ◌/◌, Bool, true, false, not, ◌&&◌, Option, none, some, String,
  str_eq, ◌==◌, ltb, leb, if◌then◌else◌,
}

pub data Frequency : Type 0 where
  daily weekly : Frequency

-- `LocalMinute`
pub record LocalMinute : Type 0 where
  pub date : String
  pub hour : ℕ
  pub minute : ℕ
  pub weekday : ℕ

-- `ZonedCadence`. The local time is the two numbers that the regular expression reads, if it matches.
pub record Cadence : Type 0 where
  pub timezone : String
  pub frequency : Frequency
  pub local_time : Option (ℕ × ℕ)
  pub weekday : Option ℕ

pub data Resolution : Type 0 where
  exact dst_shifted : Resolution

-- `ZonedOccurrence`: a time is the number of its minute.
pub record Occurrence : Type 0 where
  pub scheduled_at : ℕ
  pub local_run_key : String
  pub resolution : Resolution

pub data Error : Type 0 where
  bad_local_time bad_weekday bad_timezone incomplete_minute unresolved : Error

pub data Result : Type 0 where
  failed : Error → Result
  found : Occurrence → Result

-- The formatter of a time zone, if it is one: what it shows of a minute, if all parts are there.
abbrev pub Formatter : Type 0
Formatter = ℕ → Option LocalMinute

unfoldable pub is_weekday : ℕ → Option ℕ → Bool
is_weekday day none = false
is_weekday day (some d) = day == d

unfoldable pub is_eligible : Cadence → LocalMinute → Bool
unfolding is_weekday
is_eligible c l = elim c.frequency [ daily ↦ true | weekly ↦ is_weekday l.weekday c.weekday ]

unfoldable pub wall_minute : LocalMinute → ℕ
wall_minute l = l.hour * 60 + l.minute

unfoldable pub is_due : Cadence → ℕ → LocalMinute → Bool
unfolding is_eligible wall_minute
is_due c target l = is_eligible c l && wall_minute l == target

-- The clock jumps over the target on one date.
unfoldable pub jumps : Cadence → ℕ → Option LocalMinute → LocalMinute → Bool
unfolding is_eligible wall_minute
jumps c target none l = false
jumps c target (some p) l =
    is_eligible c l
    && ((str_eq p.date l.date && p.weekday == l.weekday)
        && (ltb (wall_minute p) target && ltb target (wall_minute l)))

pub data Verdict : Type 0 where
  due shifted passes : Verdict

unfoldable pub judge : Cadence → ℕ → Option LocalMinute → LocalMinute → Verdict
unfolding is_due jumps
judge c target previous l =
    if is_due c target l then due else if jumps c target previous l then shifted else passes

unfoldable pub occurrence : ℕ → LocalMinute → Resolution → Occurrence
occurrence at l resolution = record {
  scheduled_at = at;
  local_run_key = l.date;
  resolution = resolution;
}

-- The loop, with the rounds that are left.
unfoldable pub search : ℕ → Cadence → ℕ → Formatter → ℕ → Option LocalMinute → Result
unfolding judge occurrence
search zero c target local at previous = failed unresolved
search (suc rounds) c target local at previous = elim (local at) [
  | none ↦ failed incomplete_minute
  | some l ↦ elim (judge c target previous l) [
    | due ↦ found (occurrence at l exact)
    | shifted ↦ found (occurrence at l dst_shifted)
    | passes ↦ search rounds c target local (at + 1) (some l)
  ]
]

-- `8 * 24 * 60`, inclusive.
unfoldable pub rounds : ℕ
rounds = 8 * 24 * 60 + 1

unfoldable pub valid_weekday : Option ℕ → Bool
valid_weekday none = false
valid_weekday (some d) = leb d 6

unfoldable pub bad_cadence : Cadence → Bool
unfolding valid_weekday
bad_cadence c = elim c.frequency [ daily ↦ false | weekly ↦ not (valid_weekday c.weekday) ]

unfoldable pub search_from : Cadence → ℕ → Option Formatter → ℕ → Result
unfolding search rounds
search_from c target none after = failed bad_timezone
search_from c target (some local) after = search rounds c target local (after / 60000 + 1) none

unfoldable pub next_at : (String → Option Formatter) → Cadence → ℕ → ℕ → Result
unfolding bad_cadence search_from
next_at zones c target after =
    if not (ltb target 1440)
    then failed bad_local_time
    else if bad_cadence c
    then failed bad_weekday
    else search_from c target (zones c.timezone) after

-- `nextZonedOccurrence`, after a time in milliseconds.
unfoldable pub next_occurrence : (String → Option Formatter) → Cadence → ℕ → Result
unfolding next_at
next_occurrence zones c after = elim c.local_time [
  | none ↦ failed bad_local_time
  | some (hour, minute) ↦ next_at zones c (hour * 60 + minute) after
]

-- The occurrence that `seedDue` takes a schedule for that was planned at a minute.
unfoldable pub seeded_occurrence : (String → Option Formatter) → Cadence → ℕ → Result
unfolding next_occurrence
seeded_occurrence zones c scheduled = next_occurrence zones c (scheduled * 60000 - 60000)
