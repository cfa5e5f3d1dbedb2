-- ===== src/QueryCache/Examples.antt =====
-- Two projects that share a cache of two entries.
use poolstatis.Common.{◌≤◌, ◌≡◌, refl, List, [], ◌∷◌, get, set, delete, size, arith}
use poolstatis.QueryCache.Cache.{
  Options, new, is_fresh, evict, start_load, reuse, get_or_load, load_succeeds, invalidate_project,
  Event, call, succeeds, step, run,
}
use poolstatis.QueryCache.Fresh.{ArePlain, get_or_load-fresh}
use poolstatis.QueryCache.Keys.{IsPlain}
use poolstatis.QueryCache.Size.{size-run_le}

abbrev options : Options
options = record { ttl_ms = 5000; max_entries = 2 }

abbrev events : List Event
events =
    call "p" "funnel" 1000
    ∷ succeeds 0 "p:funnel" 1200
    ∷ call "q" "trend" 1300
    ∷ call "p" "funnel" 6100
    ∷ []

-- The first load is shared for its time to live.
events_loads : (run options events new).loads ≡ 2
unfolding run step get_or_load start_load evict get set delete reuse is_fresh load_succeeds
events_loads = refl

-- It is loaded again when that is over.
reloaded : (get_or_load options "p" "funnel" 6200 (run options events new)).0 ≡ 2
unfolding run step get_or_load start_load evict get set delete reuse is_fresh load_succeeds
reloaded = refl

p-IsPlain : IsPlain "p"
p-IsPlain = (λ e. omega arith, tt)

q-IsPlain : IsPlain "q"
q-IsPlain = (λ e. omega arith, tt)

events-ArePlain : ArePlain events
events-ArePlain = (p-IsPlain, (tt, (q-IsPlain, (p-IsPlain, tt))))

get_or_load-fresh_example :
    (run options events new).loads
    ≤ (get_or_load options "p" "funnel" 6300
        (run options events (invalidate_project "p" (run options events new)))).0
get_or_load-fresh_example =
    get_or_load-fresh options events events "p" "funnel" 6300 events-ArePlain events-ArePlain
      p-IsPlain

size-run_le_example : size (run options events new).entries ≤ 2
size-run_le_example = size-run_le options events new (omega arith) (omega arith)
