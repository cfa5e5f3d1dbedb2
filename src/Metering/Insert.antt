-- ===== src/Metering/Insert.antt =====
-- src/stores/postgresEventStore.ts: `insertMetered` and `append`.
use poolstatis.Common.{
  ℕ, ◌+◌, Bool, true, false, not, ◌&&◌, ◌||◌, Option, none, some, String, List, [], ◌∷◌, ◌++◌, get,
  str_eq, ◌==◌, ltb, leb, if◌then◌else◌, length, any, sort_by,
}
use poolstatis.Metering.Table.{
  Event, is_billable, billable, Tables, Warning, mixed_batch, scope_missing, project_missing,
  limit_reached, Answer, threw, done, committed, used, add_usage, hard_limit_of, thresholds_of,
  record_warnings,
}

-- `Number.MAX_SAFE_INTEGER`
unfoldable pub max_meter_quantity : ℕ
max_meter_quantity = 9007199254740991

pub record Scope : Type 0 where
  pub org_id : String
  pub period : ℕ

pub record Inserted : Type 0 where
  pub count : ℕ
  pub warned : List Warning

unfoldable pub exceeds : Option ℕ → ℕ → Bool
exceeds none n = false
exceeds (some limit) n = ltb limit n

-- `used < threshold && threshold <= nextQuantity`
unfoldable pub crossed : ℕ → ℕ → ℕ → Bool
crossed before after threshold = ltb before threshold && leb threshold after

unfoldable pub crossings : Scope → ℕ → ℕ → List ℕ → List Warning
unfolding crossed
crossings s before after [] = []
crossings s before after (threshold ∷ rest) =
    let more = crossings s before after rest in
    if crossed before after threshold
    then record { org_id = s.org_id; period = s.period; threshold = threshold; quantity = after }
      ∷ more
    else more

unfoldable pub insert_events : List Event → Tables → Tables
insert_events events t = record t { events = t.events ++ events }

unfoldable pub write_usage : Scope → Event → List Event → String → Tables → Tables
unfolding billable insert_events
write_usage s first events source t = record (insert_events events t) {
  ledger =
      t.ledger
      ++ record {
        org_id = s.org_id;
        project_id = first.project_id;
        env = first.env;
        period = s.period;
        quantity = length (billable events);
        source_batch = source;
      }
        ∷ [];
  counters = add_usage s.org_id s.period (length (billable events)) t.counters;
}

unfoldable pub meter : Scope → Event → List Event → String → Tables → Answer Inserted
unfolding billable exceeds write_usage crossings max_meter_quantity
meter s first events source t =
    let before = used s.org_id s.period t.counters in
    let after = before + length (billable events) in
    let entitlement = get t.entitlements s.org_id in
    if ltb max_meter_quantity after || exceeds (hard_limit_of entitlement) after
    then threw limit_reached
    else done (write_usage s first events source t) (record {
      count = length events;
      warned = crossings s before after (thresholds_of entitlement);
    })

unfoldable pub meter_scoped : Option Scope → Event → List Event → String → Tables → Answer Inserted
unfolding meter
meter_scoped none first events source t = threw scope_missing
meter_scoped (some s) first events source t = meter s first events source t

unfoldable pub is_elsewhere : Event → Event → Bool
is_elsewhere first e = not (str_eq e.project_id first.project_id) || not (str_eq e.env first.env)

-- `insertMetered`
unfoldable pub insert_metered : List Event → String → Option Scope → Tables → Answer Inserted
unfolding is_elsewhere billable insert_events meter_scoped
insert_metered [] source scope t = done t (record { count = 0; warned = [] })
insert_metered (first ∷ events) source scope t =
    if any (is_elsewhere first) (first ∷ events)
    then threw mixed_batch
    else if length (billable (first ∷ events)) == 0
    then done (insert_events (first ∷ events) t)
        (record { count = length (first ∷ events); warned = [] })
    else meter_scoped scope first (first ∷ events) source t

-- `MeteredGroup`
pub record Group : Type 0 where
  pub project_id : String
  pub env : String
  pub events : List Event
  pub org_id : Option String

-- The events of one call by project and environment, in the order in which these come.
unfoldable pub add_to_groups : Event → List Group → List Group
add_to_groups e [] =
    record { project_id = e.project_id; env = e.env; events = e ∷ []; org_id = none } ∷ []
add_to_groups e (g ∷ gs) =
    let rest = add_to_groups e gs in
    if str_eq g.project_id e.project_id && str_eq g.env e.env
    then record g { events = g.events ++ e ∷ [] } ∷ gs
    else g ∷ rest

unfoldable pub group_from : List Group → List Event → List Group
unfolding add_to_groups
group_from gs [] = gs
group_from gs (e ∷ events) = group_from (add_to_groups e gs) events

unfoldable pub has_billable_events : List Event → Bool
unfolding is_billable
has_billable_events events = any is_billable events

unfoldable pub cons_group : Group → Option (List Group) → Option (List Group)
cons_group g none = none
cons_group g (some gs) = some (g ∷ gs)

-- `resolveMeteredGroups`: the organization of a project, for the groups with billable events.
unfoldable pub resolve_group : (String → Option String) → Group → Option Group
unfolding has_billable_events
resolve_group org_of g =
    if has_billable_events g.events
    then elim (org_of g.project_id) [
      | none ↦ none
      | some org ↦ some (record g { org_id = some org })
    ]
    else some g

unfoldable pub resolve_groups : (String → Option String) → List Group → Option (List Group)
unfolding resolve_group cons_group
resolve_groups org_of [] = some []
resolve_groups org_of (g ∷ gs) = elim (resolve_group org_of g) [
  | none ↦ none
  | some h ↦ cons_group h (resolve_groups org_of gs)
]

unfoldable pub scope_of : ℕ → Option String → Option Scope
scope_of period none = none
scope_of period (some org) = some (record { org_id = org; period = period })

-- `inserted += ...; warnings.push(...)`
unfoldable pub plus : Inserted → Inserted → Inserted
plus a b = record { count = a.count + b.count; warned = a.warned ++ b.warned }

-- The groups, each with the key of its ledger row, in one transaction.
unfoldable pub insert_groups : ℕ → List (Group × String) → Inserted → Tables → Answer Inserted
unfolding insert_metered scope_of plus
insert_groups period [] sum t = done t sum
insert_groups period ((g, source) ∷ gs) sum t =
    elim (insert_metered g.events source (scope_of period g.org_id) t) [
      | threw e ↦ threw e
      | done u a ↦ insert_groups period gs (plus sum a) u
    ]

unfoldable pub or_empty : Option String → String
or_empty none = ""
or_empty (some x) = x

-- `compareMeteredGroups`, with the place of a text in the order of `localeCompare`.
unfoldable pub group_order : (String → ℕ) → Group → List ℕ
unfolding or_empty
group_order place g = place (or_empty g.org_id) ∷ place g.project_id ∷ place g.env ∷ []

-- `direct:${randomUUID()}` of each group.
unfoldable pub with_sources : (ℕ → String) → ℕ → List Group → List (Group × String)
with_sources source n [] = []
with_sources source n (g ∷ gs) = (g, source n) ∷ with_sources source (n + 1) gs

-- What surrounds a call: the organizations of the projects, the month, the order and the keys.
pub record Surroundings : Type 0 where
  pub org_of : String → Option String
  pub period : ℕ
  pub place : String → ℕ
  pub source : ℕ → String

unfoldable pub append_groups : Surroundings → Option (List Group) → Tables → Answer Inserted
unfolding group_order with_sources insert_groups
append_groups s none t = threw project_missing
append_groups s (some gs) t =
    insert_groups s.period (with_sources s.source 0 (sort_by (group_order s.place) gs))
      (record { count = 0; warned = [] }) t

-- `append`, up to COMMIT.
unfoldable pub append : Surroundings → List Event → Tables → Answer Inserted
unfolding append_groups resolve_groups group_from
append s [] t = done t (record { count = 0; warned = [] })
append s (e ∷ events) t = append_groups s (resolve_groups s.org_of (group_from [] (e ∷ events))) t

-- `recordUsageWarnings` after COMMIT, whose error is dropped.
unfoldable pub remember : Bool → Tables → Answer Inserted → Tables
unfolding record_warnings committed
remember stored t (threw e) = t
remember false t (done u a) = u
remember true t (done u a) = record u { warnings = record_warnings u.warnings a.warned }
