-- ===== src/QueryCache/Size.antt =====
-- src/services/queryCache.ts: the size of the cache, and the sharing of a load.
use poolstatis.Common.{
  ℕ, ◌+◌, ◌≤◌, ◌<◌, ◌≡◌, inl, inr, none, some, String, List, [], ◌∷◌, Map, get, size, size-set_le,
  size-set_self, size-delete_le, leb, ◌==◌, Option-cases, if_elim, arith,
}
use poolstatis.QueryCache.Cache.{
  Options, Entry, Cache, cache_key, is_fresh, evict, start_load, reuse, get_or_load, load_succeeds,
  load_fails, drop_project, invalidate_project, Event, call, succeeds, fails, invalidates, step,
  run,
}

-- The eviction makes room for one entry.
size-evict_lt : (n : ℕ) (m : Map Entry) → 0 < n → size (evict n m) < n
unfolding evict
size-evict_lt n [] h = h
size-evict_lt n (e ∷ m) h =
    if_elim (λ (r : Map Entry). size r < n) (leb n (size (e ∷ m))) (λ _. size-evict_lt n m h)
      (λ f. ground (arith, f))

abbrev Fits : Options → Cache → Type 0
Fits o c = size c.entries ≤ o.max_entries

start_load-Fits :
    (o : Options) (project cached : String) (entries : Map Entry) (loads : ℕ)
    → 0 < o.max_entries
    → Fits o (start_load o project cached entries loads).1
unfolding start_load
start_load-Fits o project cached entries loads h = omega (
  arith,
  size-evict_lt o.max_entries entries h,
  size-set_le (evict o.max_entries entries) cached
      (record { load = loads; project_id = project; expires_at = none }),
)

get_or_load-Fits :
    (o : Options) (project key : String) (now : ℕ) (c : Cache)
    → 0 < o.max_entries
    → Fits o c
    → Fits o (get_or_load o project key now c).1
unfolding get_or_load reuse
get_or_load-Fits o project key now c m h =
    elim (Option-cases (get c.entries (cache_key project key))) [
      | inl f ↦
          rw (f, get_or_load)
            (start_load-Fits o project (cache_key project key) c.entries c.loads m)
      | inr (e, f) ↦
          rw (f, get_or_load)
            (if_elim (λ (r : ℕ × Cache). Fits o r.1) (is_fresh e.expires_at now) (λ _. h)
              (λ _. start_load-Fits o project (cache_key project key) _ c.loads m))
    ]

load_succeeds-Fits :
    (o : Options) (load : ℕ) (cached : String) (now : ℕ) (c : Cache)
    → Fits o c
    → Fits o (load_succeeds o load cached now c)
unfolding load_succeeds
load_succeeds-Fits o load cached now c h = elim (Option-cases (get c.entries cached)) [
  | inl f ↦ rw (f, load_succeeds) h
  | inr (e, f) ↦
      rw (f, load_succeeds)
        (if_elim (Fits o) (e.load == load)
          (λ _. omega (
            arith,
            size-set_self c.entries cached (record e { expires_at = some (now + o.ttl_ms) }) f,
          ))
          (λ _. h))
]

load_fails-Fits :
    (o : Options) (load : ℕ) (cached : String) (c : Cache)
    → Fits o c
    → Fits o (load_fails load cached c)
unfolding load_fails
load_fails-Fits o load cached c h = elim (Option-cases (get c.entries cached)) [
  | inl f ↦ rw (f, load_fails) h
  | inr (e, f) ↦
      rw (f, load_fails)
        (if_elim (Fits o) (e.load == load) (λ _. omega (arith, size-delete_le c.entries cached))
          (λ _. h))
]

size-drop_project_le : (p : String) (m : Map Entry) → size (drop_project p m) ≤ size m
unfolding drop_project
size-drop_project_le p [] = omega arith
size-drop_project_le p ((k, e) ∷ m) = ground (arith, size-drop_project_le p m)

-- From a cache that fits, after any events, the cache has at most the configured number of entries, which
-- must be positive.
pub size-run_le :
    (o : Options) (es : List Event) (c : Cache)
    → 0 < o.max_entries
    → size c.entries ≤ o.max_entries
    → size (run o es c).entries ≤ o.max_entries
unfolding run step invalidate_project
size-run_le o [] c m h = h
size-run_le o (call project key now ∷ es) c m h =
    size-run_le o es _ m (get_or_load-Fits o project key now c m h)
size-run_le o (succeeds load cached now ∷ es) c m h =
    size-run_le o es _ m (load_succeeds-Fits o load cached now c h)
size-run_le o (fails load cached ∷ es) c m h =
    size-run_le o es _ m (load_fails-Fits o load cached c h)
size-run_le o (invalidates p ∷ es) c m h =
    size-run_le o es _ m (omega (arith, size-drop_project_le p c.entries))

-- A call leaves the entry of the load that it returns.
abbrev Leaves : String → String → ℕ × Cache → Type 0
Leaves project key r =
    (e : Entry) × (get r.1.entries (cache_key project key) ≡ some e) × (e.load ≡ r.0)
