-- ===== src/Monitor/Settled.antt =====
-- src/services/releaseMonitor.ts: a release that a pass has claimed is not due when the pass ends.
use poolstatis.Common.{
  ℕ, zero, suc, ◌+◌, ◌-◌, ◌*◌, ◌^◌, ◌<◌, ◌≡◌, ◌⊎◌, refl, sym, subst, ◌∙◌, inl, inr, Bool, true,
  false, ◌&&◌, not, none, some, String, List, Map, get, get-set, any, ltb, leb, str_eq, eq_iff,
  eq_refl, Bool-cases, Option-cases, if_elim, arith,
}
use poolstatis.Monitor.Attempts.{finish_rows-begin}
use poolstatis.Monitor.Passes.{Environment, Evaluation, ready, blocked, thrown, judge, decide}
use poolstatis.Monitor.Tables.{
  Options, AttemptStatus, Row, Attempt, Tables, is_over, is_due, is_past, due_time, coalesce,
  update_row, begin, Update, finish, scheduled, retry_delay, ends,
}

-- Whether the row under an id is due.
unfoldable pub due_at : Options → ℕ → Tables → String → Bool
unfolding is_due
due_at o now t id = elim (get t.releases id) [ none ↦ false | some r ↦ is_due o now t.attempts r ]

-- An update leaves nothing to do at once: the attempt is over, or the next one is later.
abbrev pub Settles : Options → ℕ → ℕ → Update → Type 0
Settles o now count u =
    ((u.scheduled_at ≡ none) × (is_over o u.status count ≡ true))
    ⊎ ((s : ℕ) × ((u.scheduled_at ≡ some s) × (leb s now ≡ false)))

power_pos : (k : ℕ) → 0 < 2 ^ k
power_pos zero = omega arith
power_pos (suc k) = omega (arith, power_pos k)

product_pos : (a b : ℕ) → 0 < a → 0 < b → 0 < a * b
product_pos a b p q = grind arith

-- A positive base and a positive cap make a positive delay.
pub retry_delay_pos :
    (o : Options) (count : ℕ) → 0 < o.base_retry_ms → 0 < o.max_retry_ms → 0 < retry_delay o count
unfolding retry_delay
retry_delay_pos o count p q =
    ground (arith, product_pos o.base_retry_ms (2 ^ (count - 1)) p (power_pos (count - 1)))

later : (a b : ℕ) → 0 < b → leb (a + b) a ≡ false
later a b h = ground arith

not-leb : (a b : ℕ) → ltb a b ≡ true → leb b a ≡ false
not-leb a b h = ground arith

judge-Settles :
    (o : Options) (now count : ℕ) (v : Evaluation)
    → 0 < o.base_retry_ms
    → 0 < o.max_retry_ms
    → Settles o now count (judge o now count v).0
unfolding judge is_over
judge-Settles o now count (ready evidence decision) p q = inl (refl, refl)
judge-Settles o now count (blocked code evidence decision) p q =
    elim (Bool-cases (leb o.max_attempts count)) [
      | inl e ↦ rw e (inl (refl, e))
      | inr e ↦
          rw e (inr (now + retry_delay o count, (refl, later now _ (retry_delay_pos o count p q))))
    ]
judge-Settles o now count (thrown code) p q = elim (Bool-cases (leb o.max_attempts count)) [
  | inl e ↦ rw e (inl (refl, refl))
  | inr e ↦
      rw e (inr (now + retry_delay o count, (refl, later now _ (retry_delay_pos o count p q))))
]

pub decide-Settles :
    (e : Environment) (o : Options) (now observation_to count : ℕ) (r : Row)
    → 0 < o.base_retry_ms
    → 0 < o.max_retry_ms
    → Settles o now count (decide e o now observation_to count r).0
unfolding decide
decide-Settles e o now observation_to count r p q =
    if_elim (λ (x : Update × AttemptStatus). Settles o now count x.0) (ltb now observation_to)
      (λ h. inr (observation_to, (refl, not-leb now observation_to h)))
      (λ _. judge-Settles o now count (e.evaluate r now) p q)

-- The row under the id of a claimed release has the project of the claim.
abbrev pub Known : Map Row → String → String → Type 0
Known rows id project =
    (r : Row) × ((get rows id ≡ some r) × ((r.id ≡ id) × (r.project_id ≡ project)))

get-update_row :
    (project id : String) (f : Row → Row) (rows : Map Row) (r : Row)
    → get rows id ≡ some r
    → r.project_id ≡ project
    → get (update_row project id f rows) id ≡ some (f r)
unfolding update_row
get-update_row project id f rows r h k =
    let e = (eq_iff r.project_id project).1 k in
    rw (h, update_row) (rw e (rw (get-set rows id id (f r), eq_refl id) refl))

pub update_row-other :
    (project id x : String) (f : Row → Row) (rows : Map Row)
    → str_eq id x ≡ false
    → get (update_row project id f rows) x ≡ get rows x
unfolding update_row
update_row-other project id x f rows h = elim (Option-cases (get rows id)) [
  | inl e ↦ rw (e, update_row) refl
  | inr (r, e) ↦
      rw (e, update_row)
        (if_elim (λ (m : Map Row). get m x ≡ get rows x) (str_eq r.project_id project)
          (λ _. rw (get-set rows id x (f r), h) refl) (λ _. refl))
]

update_row-own :
    (project x p : String) (f : Row → Row) (rows : Map Row)
    → ((r : Row) → (f r).id ≡ r.id)
    → ((r : Row) → (f r).project_id ≡ r.project_id)
    → Known rows x p
    → Known (update_row project x f rows) x p
unfolding update_row
update_row-own project x p f rows fi fp (r, (h, (i, k))) =
    elim (Bool-cases (str_eq r.project_id project)) [
      | inl e ↦
          (f r, (get-update_row project x f rows r h ((eq_iff _ _).0 e), (fi r ∙ i, fp r ∙ k)))
      | inr e ↦ (r, (rw (h, update_row) (rw e h), (i, k)))
    ]

pub update_row-Known :
    (project id : String) (f : Row → Row) (rows : Map Row) (x p : String)
    → ((r : Row) → (f r).id ≡ r.id)
    → ((r : Row) → (f r).project_id ≡ r.project_id)
    → Known rows x p
    → Known (update_row project id f rows) x p
update_row-Known project id f rows x p fi fp (r, (h, (i, k))) = elim (Bool-cases (str_eq id x)) [
  | inl e ↦
      subst (λ (y : String). Known (update_row project y f rows) x p) (sym ((eq_iff _ _).0 e))
        (update_row-own project x p f rows fi fp (r, (h, (i, k))))
  | inr e ↦ (r, (update_row-other project id x f rows e ∙ h, (i, k)))
]

but_not : (c d : Bool) → (c ≡ false) ⊎ (d ≡ true) → (c && not d) ≡ false
but_not false d h = refl
but_not true true h = refl
but_not true false (inl e) = absurd cc
but_not true false (inr e) = absurd cc

all_but : (a b x : Bool) → x ≡ false → (a && (b && x)) ≡ false
all_but true true x h = h
all_but true false x h = refl
all_but false b x h = refl

ends-at :
    (o : Options) (rows : List Attempt) (p i : String) (q : Row)
    → q.id ≡ i
    → q.project_id ≡ p
    → any (ends o p i) rows ≡ true
    → any (ends o q.project_id q.id) rows ≡ true
ends-at o rows p i q e f h = rw (e, f) h

not_due :
    (o : Options) (now : ℕ) (attempts : List Attempt) (r : Row)
    → (is_past (due_time r) now ≡ false) ⊎ (any (ends o r.project_id r.id) attempts ≡ true)
    → is_due o now attempts r ≡ false
unfolding is_due
not_due o now attempts r h = all_but _ _ _ (but_not (is_past (due_time r) now) _ h)

scheduled-past :
    (count : ℕ) (u : Update) (q : Row) (now s : ℕ)
    → u.scheduled_at ≡ some s
    → leb s now ≡ false
    → is_past (due_time (scheduled count u q)) now ≡ false
unfolding is_past due_time scheduled coalesce
scheduled-past count u q now s h k = elim (Option-cases q.deployed_at) [
  | inl e ↦ rw (e, due_time) refl
  | inr (d, e) ↦ rw (e, due_time, h, k) refl
]

-- The attempt of a claimed release leaves it not due.
pub finish-not_due :
    (o : Options) (now : ℕ) (key : String) (u : Update) (r q : Row) (t : Tables)
    → Settles o now (begin r.project_id r.id key now t.attempts).0 u
    → get t.releases r.id ≡ some q
    → q.id ≡ r.id
    → q.project_id ≡ r.project_id
    → due_at o now
        (finish r.project_id r.id key
          (begin r.project_id r.id key now t.attempts).0
          u
          now
          (record t { attempts = (begin r.project_id r.id key now t.attempts).1 }))
        r.id
      ≡ false
unfolding due_at finish
finish-not_due o now key u r q t s h i p =
    let count = (begin r.project_id r.id key now t.attempts).0 in
    let g = get-update_row r.project_id r.id (scheduled count u) t.releases q h p in
    rw (g, due_at)
      (not_due o now _ (scheduled count u q) (elim s [
        | inl (none_next, over) ↦ inr (
            ends-at o _ r.project_id r.id q i p
              (finish_rows-begin o r.project_id r.id key u now t.attempts over))
        | inr (at, (next, above)) ↦ inl (scheduled-past count u q now at next above)
      ]))
