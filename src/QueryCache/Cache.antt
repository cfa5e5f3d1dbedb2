-- ===== src/QueryCache/Cache.antt =====
-- src/services/queryCache.ts: `QueryCache`. A promise, and the entry that holds it, is the number of its load.
-- Times are whole milliseconds, and an infinite one is `none`.
use Prim.Native.String.{◌++◌}
use poolstatis.Common.{
  ℕ, ◌+◌, Bool, true, Option, none, some, String, List, [], ◌∷◌, Map, get, set, delete, size, ltb,
  leb, ◌==◌, str_eq, if◌then◌else◌,
}

pub record Options : Type 0 where
  pub ttl_ms : ℕ
  pub max_entries : ℕ

pub record Entry : Type 0 where
  pub load : ℕ
  pub project_id : String
  pub expires_at : Option ℕ

-- The map, and how many loads were started.
pub record Cache : Type 0 where
  pub entries : Map Entry
  pub loads : ℕ

abbrev pub new : Cache
new = record { entries = []; loads = 0 }

abbrev pub cache_key : String → String → String
cache_key project key = project ++ ":" ++ key

unfoldable pub is_fresh : Option ℕ → ℕ → Bool
is_fresh none now = true
is_fresh (some at) now = ltb now at

-- `evictForInsert`: the first key is the oldest, and a map has each key once.
unfoldable pub evict : ℕ → Map Entry → Map Entry
evict max_entries [] = []
evict max_entries (e ∷ entries) =
    let rest = evict max_entries entries in
    if leb max_entries (size (e ∷ entries)) then rest else e ∷ entries

-- The part of `getOrLoad` that starts a load.
unfoldable pub start_load : Options → String → String → Map Entry → ℕ → ℕ × Cache
unfolding evict
start_load o project cached entries loads = (
  loads,
  record {
    entries =
        set (evict o.max_entries entries) cached
          (record { load = loads; project_id = project; expires_at = none });
    loads = loads + 1;
  },
)

unfoldable pub reuse : Options → String → String → ℕ → Cache → Entry → ℕ × Cache
unfolding is_fresh start_load
reuse o project cached now c e =
    if is_fresh e.expires_at now
    then (e.load, c)
    else start_load o project cached (delete c.entries cached) c.loads

-- `getOrLoad`, up to the promise that it returns.
unfoldable pub get_or_load : Options → String → String → ℕ → Cache → ℕ × Cache
unfolding reuse
get_or_load o project key now c = elim (get c.entries (cache_key project key)) [
  | none ↦ start_load o project (cache_key project key) c.entries c.loads
  | some e ↦ reuse o project (cache_key project key) now c e
]

-- The callbacks of a load, which hold its key and its entry.
unfoldable pub load_succeeds : Options → ℕ → String → ℕ → Cache → Cache
load_succeeds o load cached now c = elim (get c.entries cached) [
  | none ↦ c
  | some e ↦
      if e.load == load
      then record c {
        entries = set c.entries cached (record e { expires_at = some (now + o.ttl_ms) });
      }
      else c
]

unfoldable pub load_fails : ℕ → String → Cache → Cache
load_fails load cached c = elim (get c.entries cached) [
  | none ↦ c
  | some e ↦ if e.load == load then record c { entries = delete c.entries cached } else c
]

unfoldable pub drop_project : String → Map Entry → Map Entry
drop_project project [] = []
drop_project project ((k, e) ∷ entries) =
    let rest = drop_project project entries in
    if str_eq e.project_id project then rest else (k, e) ∷ rest

unfoldable pub invalidate_project : String → Cache → Cache
unfolding drop_project
invalidate_project project c = record c { entries = drop_project project c.entries }

-- What happens to a cache, in the order of the event loop.
pub data Event : Type 0 where
  call : String → String → ℕ → Event
  succeeds : ℕ → String → ℕ → Event
  fails : ℕ → String → Event
  invalidates : String → Event

unfoldable pub step : Options → Event → Cache → Cache
step o (call project key now) c = (get_or_load o project key now c).1
step o (succeeds load cached now) c = load_succeeds o load cached now c
step o (fails load cached) c = load_fails load cached c
step o (invalidates project) c = invalidate_project project c

unfoldable pub run : Options → List Event → Cache → Cache
run o [] c = c
run o (e ∷ es) c = run o es (step o e c)
