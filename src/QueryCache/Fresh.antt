-- ===== src/QueryCache/Fresh.antt =====
-- src/services/queryCache.ts: what the entries of a cache are, after any events.
use poolstatis.Common.{
  ℕ, ◌≤◌, ◌≡◌, refl, sym, subst, inl, inr, some, String, List, [], ◌∷◌, Map, get, set, delete, size,
  leb, ◌==◌, str_eq, eq_iff, Bool-cases, Option-cases, if_elim, arith,
}
use poolstatis.QueryCache.Cache.{
  Options, Entry, Cache, new, cache_key, is_fresh, evict, start_load, reuse, get_or_load,
  load_succeeds, load_fails, drop_project, invalidate_project, Event, call, succeeds, fails,
  invalidates, step, run,
}
use poolstatis.QueryCache.Keys.{IsPlain, cache_key-project}

some-eq : {A : Type 0} {a b : A} → some a ≡ some b → a ≡ b
some-eq h = cc

abbrev pub All : (String → Entry → Type 0) → Map Entry → Type 0
All P [] = Unit
All P ((k, e) ∷ m) = P k e × All P m

module _ (P : String → Entry → Type 0) where
  All-get : (m : Map Entry) (k : String) {e : Entry} → All P m → get m k ≡ some e → P k e
  unfolding get
  All-get [] k h i = absurd cc
  All-get ((j, d) ∷ m) k {e} (p, h) i = elim (Bool-cases (str_eq j k)) [
    | inl f ↦
        let i' = rw f at i in
        subst (λ (x : String). P x e) ((eq_iff j k).0 f) (subst (P j) (some-eq i') p)
    | inr f ↦ let i' = rw f at i in All-get m k h i'
  ]

  All-set : (m : Map Entry) (k : String) (e : Entry) → All P m → P k e → All P (set m k e)
  unfolding set
  All-set [] k e h p = (p, tt)
  All-set ((j, d) ∷ m) k e (q, h) p = elim (Bool-cases (str_eq j k)) [
    | inl f ↦ rw f ((subst (λ (x : String). P x e) (sym ((eq_iff j k).0 f)) p), h)
    | inr f ↦ rw f (q, All-set m k e h p)
  ]

  All-delete : (m : Map Entry) (k : String) → All P m → All P (delete m k)
  unfolding delete
  All-delete [] k h = tt
  All-delete ((j, d) ∷ m) k (q, h) = elim (Bool-cases (str_eq j k)) [
    | inl f ↦ rw f (All-delete m k h)
    | inr f ↦ rw f (q, All-delete m k h)
  ]

  All-evict : (n : ℕ) (m : Map Entry) → All P m → All P (evict n m)
  unfolding evict
  All-evict n [] h = tt
  All-evict n ((j, d) ∷ m) (q, h) =
      if_elim (All P) (leb n (size ((j, d) ∷ m))) (λ _. All-evict n m h) (λ _. (q, h))

  All-drop_project : (p : String) (m : Map Entry) → All P m → All P (drop_project p m)
  unfolding drop_project
  All-drop_project p [] h = tt
  All-drop_project p ((k, e) ∷ m) (q, h) = elim (Bool-cases (str_eq e.project_id p)) [
    | inl f ↦ rw f (All-drop_project p m h)
    | inr f ↦ rw f (q, All-drop_project p m h)
  ]

-- An entry stands under a key of its project, and for one project was loaded as the load `n` or later.
abbrev pub IsOwned : ℕ → String → String → Entry → Type 0
IsOwned n p k e =
    IsPlain e.project_id
    × (((key : String) × (k ≡ cache_key e.project_id key)) × (e.project_id ≡ p → n ≤ e.load))

abbrev pub Since : ℕ → String → Cache → Type 0
Since n p c = All (IsOwned n p) c.entries × (n ≤ c.loads)

abbrev pub IsPlainEvent : Event → Type 0
IsPlainEvent (call project key now) = IsPlain project
IsPlainEvent _ = Unit

abbrev pub ArePlain : List Event → Type 0
ArePlain [] = Unit
ArePlain (e ∷ es) = IsPlainEvent e × ArePlain es

start_load-Since :
    (o : Options) (n : ℕ) (p project key : String) (entries : Map Entry) (loads : ℕ)
    → IsPlain project
    → All (IsOwned n p) entries
    → n ≤ loads
    → Since n p (start_load o project (cache_key project key) entries loads).1
unfolding start_load
start_load-Since o n p project key entries loads plain h m = (
  All-set (IsOwned n p) (evict o.max_entries entries) (cache_key project key) _
      (All-evict (IsOwned n p) o.max_entries entries h) (plain, ((key, refl), λ _. m)),
  omega arith,
)

reuse-Since :
    (o : Options) (n : ℕ) (p project key : String) (now : ℕ) (c : Cache) (e : Entry)
    → IsPlain project
    → Since n p c
    → Since n p (reuse o project (cache_key project key) now c e).1
unfolding reuse
reuse-Since o n p project key now c e plain (h, m) =
    if_elim (λ (r : ℕ × Cache). Since n p r.1) (is_fresh e.expires_at now) (λ _. (h, m))
      (λ _.
        start_load-Since o n p project key _ c.loads plain
          (All-delete (IsOwned n p) c.entries (cache_key project key) h) m)

get_or_load-Since :
    (o : Options) (n : ℕ) (p project key : String) (now : ℕ) (c : Cache)
    → IsPlain project
    → Since n p c
    → Since n p (get_or_load o project key now c).1
unfolding get_or_load
get_or_load-Since o n p project key now c plain (h, m) =
    elim (Option-cases (get c.entries (cache_key project key))) [
      | inl f ↦ rw (f, get_or_load) (start_load-Since o n p project key c.entries c.loads plain h m)
      | inr (e, f) ↦ rw (f, get_or_load) (reuse-Since o n p project key now c e plain (h, m))
    ]

load_succeeds-Since :
    (o : Options) (n : ℕ) (p : String) (load : ℕ) (cached : String) (now : ℕ) (c : Cache)
    → Since n p c
    → Since n p (load_succeeds o load cached now c)
unfolding load_succeeds
load_succeeds-Since o n p load cached now c (h, m) = elim (Option-cases (get c.entries cached)) [
  | inl f ↦ rw (f, load_succeeds) (h, m)
  | inr (e, f) ↦
      rw (f, load_succeeds)
        (if_elim (Since n p) (e.load == load)
          (λ _. (
            All-set (IsOwned n p) c.entries cached _ h (All-get (IsOwned n p) c.entries cached h f),
            m,
          ))
          (λ _. (h, m)))
]

load_fails-Since :
    (n : ℕ) (p : String) (load : ℕ) (cached : String) (c : Cache)
    → Since n p c
    → Since n p (load_fails load cached c)
unfolding load_fails
load_fails-Since n p load cached c (h, m) = elim (Option-cases (get c.entries cached)) [
  | inl f ↦ rw (f, load_fails) (h, m)
  | inr (e, f) ↦
      rw (f, load_fails)
        (if_elim (Since n p) (e.load == load)
          (λ _. (All-delete (IsOwned n p) c.entries cached h, m)) (λ _. (h, m)))
]

run-Since :
    (o : Options) (n : ℕ) (p : String) (es : List Event) (c : Cache)
    → ArePlain es
    → Since n p c
    → Since n p (run o es c)
unfolding run step invalidate_project
run-Since o n p [] c plain h = h
run-Since o n p (call project key now ∷ es) c (plain, rest) h =
    run-Since o n p es _ rest (get_or_load-Since o n p project key now c plain h)
run-Since o n p (succeeds load cached now ∷ es) c (_, rest) h =
    run-Since o n p es _ rest (load_succeeds-Since o n p load cached now c h)
run-Since o n p (fails load cached ∷ es) c (_, rest) h =
    run-Since o n p es _ rest (load_fails-Since n p load cached c h)
run-Since o n p (invalidates project ∷ es) c (_, rest) (h, m) =
    run-Since o n p es _ rest (All-drop_project (IsOwned n p) project c.entries h, m)

-- After an invalidation every entry of the project is gone.
drop_project-IsOwned :
    (n : ℕ) (p : String) (m : Map Entry)
    → All (IsOwned 0 p) m
    → All (IsOwned n p) (drop_project p m)
unfolding drop_project
drop_project-IsOwned n p [] h = tt
drop_project-IsOwned n p ((k, e) ∷ m) ((plain, (key, _)), h) =
    elim (Bool-cases (str_eq e.project_id p)) [
      | inl f ↦ rw f (drop_project-IsOwned n p m h)
      | inr f ↦ rw f (
        (plain, (key, λ same. let yes = (eq_iff e.project_id p).1 same in absurd cc)),
        drop_project-IsOwned n p m h,
      )
    ]

get_or_load-load :
    (o : Options) (n : ℕ) (p key : String) (now : ℕ) (c : Cache)
    → IsPlain p
    → Since n p c
    → n ≤ (get_or_load o p key now c).0
unfolding get_or_load reuse start_load
get_or_load-load o n p key now c plain (h, m) =
    elim (Option-cases (get c.entries (cache_key p key))) [
      | inl f ↦ rw (f, get_or_load) m
      | inr (e, f) ↦
          let (own, ((j, k), late)) = All-get (IsOwned n p) c.entries (cache_key p key) h f in
          rw (f, get_or_load)
            (if_elim (λ (r : ℕ × Cache). n ≤ r.0) (is_fresh e.expires_at now)
              (λ _. late (cache_key-project e.project_id p j key own plain (sym k))) (λ _. m))
    ]

-- A call after an invalidation of its project, with whatever events in between, returns a load that was
-- started after the invalidation. The ids of the projects must be free of colons.
pub get_or_load-fresh :
    (o : Options) (before after : List Event) (p key : String) (now : ℕ)
    → ArePlain before
    → ArePlain after
    → IsPlain p
    → (run o before new).loads
      ≤ (get_or_load o p key now (run o after (invalidate_project p (run o before new)))).0
unfolding invalidate_project
get_or_load-fresh o before after p key now h k plain =
    let c = run o before new in
    let (owned, _) = run-Since o 0 p before new h (tt, omega arith) in
    get_or_load-load o c.loads p key now (run o after (invalidate_project p c)) plain (
      run-Since o c.loads p after (invalidate_project p c) k
        (drop_project-IsOwned c.loads p c.entries owned, omega arith))
