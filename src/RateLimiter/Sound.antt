-- ===== src/RateLimiter/Sound.antt =====
-- src/services/rateLimiter.ts: one call of `consume` keeps every store sound.
use poolstatis.Common.{
  ℕ, ◌+◌, ◌≤◌, ◌<◌, ◌≡◌, refl, Bool, true, false, String, get, str_eq, arith, ltb, ◌==◌, if_elim,
  if◌then◌else◌,
}
use poolstatis.RateLimiter.Bucket.{BucketLimit}
use poolstatis.RateLimiter.Store.{Scope, key, project, BucketStore}
use poolstatis.RateLimiter.Consume.{
  LaneName, ingest, api, Options, Request, Reply, exceeded, bad_cost, Lane, Limiter, key_of,
  project_of, limits_of, lane_of, with_lane, consume,
}
use poolstatis.RateLimiter.Shrink.{worth}
use poolstatis.RateLimiter.Admission.{IsFine}
use poolstatis.RateLimiter.Settlement.{Charges, paid, charge-Charges}

-- The four stores, by lane and scope.
abbrev pub limit_of : Options → LaneName → Scope → BucketLimit
limit_of o n key = (limits_of o n).key
limit_of o n project = (limits_of o n).project

abbrev pub store_of : Limiter → LaneName → Scope → BucketStore
store_of l n key = (lane_of l n).key
store_of l n project = (lane_of l n).project

abbrev pub id_of : Request → Scope → String
id_of r key = key_of r
id_of r project = project_of r

-- Every store is valid and within the configured sizes.
pub record IsSound (o : Options) (l : Limiter) : Type 0 where
  pub fine :
      (n : LaneName) (scope : Scope) → IsFine o.capacity (limit_of o n scope) (store_of l n scope)

abbrev pub tokens_of : Options → Limiter → LaneName → Scope → String → ℕ → ℕ
tokens_of o l n scope id now = worth (limit_of o n scope) now (get (store_of l n scope).all id)

abbrev same_lane : LaneName → LaneName → Bool
same_lane ingest ingest = true
same_lane api api = true
same_lane _ _ = false

-- What a call has taken from the bucket of an id.
abbrev pub charged : Request → Reply → LaneName → Scope → String → ℕ
charged r reply n scope id =
    if same_lane r.lane n then (if str_eq (id_of r scope) id then paid reply r.cost else 0) else 0

-- A call keeps every store sound, and takes what it grants out of the buckets of its key and project.
pub record Consumes (o : Options) (r : Request) (now : ℕ) (l : Limiter) (out : Limiter × Reply)
    : Type 0 where
  pub sound : IsSound o out.0
  pub debt :
      (n : LaneName) (scope : Scope) (id : String)
      → tokens_of o out.0 n scope id now + charged r out.1 n scope id ≤ tokens_of o l n scope id now

untouched :
    (o : Options) (r : Request) (now : ℕ) (l : Limiter) (reply : Reply)
    → paid reply r.cost ≡ 0
    → IsSound o l
    → Consumes o r now l (l, reply)
untouched o r now l reply free h = record { sound = h; debt = λ n scope id. ground arith }

module _ (o : Options) (r : Request) (now : ℕ) (l : Limiter) (lane : Lane) (reply : Reply)
    (h : IsSound o l) where
  lane-IsFine :
      (m : LaneName)
      → Charges o.capacity (limits_of o m) r now (lane_of l m) (lane, reply)
      → (n : LaneName) (scope : Scope)
      → IsFine o.capacity (limit_of o n scope) (store_of (with_lane l m lane) n scope)
  lane-IsFine ingest c ingest key = c.keys.fine
  lane-IsFine ingest c ingest project = c.projects.fine
  lane-IsFine ingest c api scope = h.fine api scope
  lane-IsFine api c api key = c.keys.fine
  lane-IsFine api c api project = c.projects.fine
  lane-IsFine api c ingest scope = h.fine ingest scope

  lane-debt :
      (m : LaneName)
      → Charges o.capacity (limits_of o m) r now (lane_of l m) (lane, reply)
      → (n : LaneName) (scope : Scope) (id : String)
      → tokens_of o (with_lane l m lane) n scope id now
          + (if same_lane m n
              then (if str_eq (id_of r scope) id then paid reply r.cost else 0)
              else 0)
        ≤ tokens_of o l n scope id now
  lane-debt ingest c ingest key id = c.keys.debt id
  lane-debt ingest c ingest project id = c.projects.debt id
  lane-debt ingest c api key id = omega arith
  lane-debt ingest c api project id = omega arith
  lane-debt api c api key id = c.keys.debt id
  lane-debt api c api project id = c.projects.debt id
  lane-debt api c ingest key id = omega arith
  lane-debt api c ingest project id = omega arith

  charged_lane :
      Charges o.capacity (limits_of o r.lane) r now (lane_of l r.lane) (lane, reply)
      → Consumes o r now l (with_lane l r.lane lane, reply)
  charged_lane c = record {
    sound = record { fine = lane-IsFine r.lane c };
    debt = lane-debt r.lane c;
  }

pub consume-Consumes :
    (o : Options) (r : Request) (now : ℕ) (l : Limiter)
    → 0 < o.capacity.max_entries
    → 0 < o.capacity.max_entries_per_tenant
    → IsSound o l
    → Consumes o r now l (consume o r now l)
unfolding consume
consume-Consumes o r now l p q h =
    let limits = limits_of o r.lane in
    let charged_case = charged_lane o r now l _ _ h (
      charge-Charges o.capacity limits r now (lane_of l r.lane) p q (h.fine r.lane key)
        (h.fine r.lane project)) in
    let project_case =
      if_elim (Consumes o r now l) (ltb limits.project.burst r.cost)
        (λ _.
          untouched o r now l (exceeded (record { scope = project; retry_after_ms = 0 })) refl h)
        (λ _. charged_case) in
    let key_case =
      if_elim (Consumes o r now l) (ltb limits.key.burst r.cost)
        (λ _. untouched o r now l (exceeded (record { scope = key; retry_after_ms = 0 })) refl h)
        (λ _. project_case) in
    if_elim (Consumes o r now l) (r.cost == 0) (λ _. untouched o r now l bad_cost refl h)
      (λ _. key_case)
