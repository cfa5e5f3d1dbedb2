-- ===== src/Monitor/Attempts.antt =====
-- src/services/releaseMonitor.ts: the rows of the attempts after `beginAttempt` and `finishAttempt`.
use poolstatis.Common.{
  ℕ, ◌≡◌, refl, inl, inr, Bool, true, false, ◌&&◌, String, List, [], ◌∷◌, any, str_eq, eq_iff,
  eq_refl, if◌then◌else◌, Bool-cases,
}
use poolstatis.Monitor.Tables.{
  Options, Attempt, is_over, ends, is_attempt, again, first_attempt, begin, Update, finished,
  finish_rows,
}

both : (a b : Bool) → (a && b) ≡ true → (a ≡ true) × (b ≡ true)
both true b h = (refl, h)
both false b h = absurd cc

-- An attempt of one release does not end another one.
ends-other :
    (o : Options) (p x id : String) (a : Attempt)
    → a.release_id ≡ id
    → str_eq id x ≡ false
    → ends o p x a ≡ false
unfolding ends
ends-other o p x id a e h = elim (Bool-cases (str_eq a.project_id p)) [
  | inl f ↦ rw (f, e, h) refl
  | inr f ↦ rw f refl
]

is_attempt-release :
    (project id key : String) (a : Attempt) → is_attempt project id key a ≡ true → a.release_id ≡ id
unfolding is_attempt
is_attempt-release project id key a h =
    (eq_iff _ _).0 (both (str_eq a.release_id id) _ (both (str_eq a.project_id project) _ h).1).0

pub begin-other :
    (o : Options) (p x project id key : String) (now : ℕ) (rows : List Attempt)
    → str_eq id x ≡ false
    → any (ends o p x) (begin project id key now rows).1 ≡ any (ends o p x) rows
unfolding begin
begin-other o p x project id key now [] h =
    rw (ends-other o p x id (first_attempt project id key now) refl h) refl
begin-other o p x project id key now (a ∷ rows) h =
    elim (Bool-cases (is_attempt project id key a)) [
      | inl e ↦
          let own = is_attempt-release project id key a e in
          rw (e, ends-other o p x id (again now a) own h, ends-other o p x id a own h) refl
      | inr e ↦ rw (e, begin-other o p x project id key now rows h) refl
    ]

pub finish_rows-other :
    (o : Options) (p x project id key : String) (u : Update) (now : ℕ) (rows : List Attempt)
    → str_eq id x ≡ false
    → any (ends o p x) (finish_rows project id key u now rows) ≡ any (ends o p x) rows
unfolding finish_rows finished
finish_rows-other o p x project id key u now [] h = refl
finish_rows-other o p x project id key u now (a ∷ rows) h =
    elim (Bool-cases (is_attempt project id key a)) [
      | inl e ↦
          let own = is_attempt-release project id key a e in
          rw (e, ends-other o p x id (finished u now a) own h, ends-other o p x id a own h) refl
      | inr e ↦ rw (e, finish_rows-other o p x project id key u now rows h) refl
    ]

-- The attempt that was begun has the key, and stands where the next update finds it.
first-is_attempt :
    (project id key : String) (now : ℕ)
    → is_attempt project id key (first_attempt project id key now) ≡ true
unfolding is_attempt
first-is_attempt project id key now = rw (eq_refl project, eq_refl id, eq_refl key) refl

if_same : (b x : Bool) → (if b then x else x) ≡ x
if_same true x = refl
if_same false x = refl

again-is_attempt :
    (project id key : String) (now : ℕ) (a : Attempt)
    → is_attempt project id key a ≡ true
    → is_attempt project id key (again now a) ≡ true
unfolding is_attempt
again-is_attempt project id key now a h = h

finished-ends :
    (o : Options) (project id key : String) (u : Update) (now : ℕ) (a : Attempt)
    (rows : List Attempt)
    → is_attempt project id key a ≡ true
    → is_over o u.status a.attempt_count ≡ true
    → any (ends o project id) (finished u now a ∷ rows) ≡ true
unfolding ends is_attempt finished
finished-ends o project id key u now a rows h k =
    let (p, rest) = both (str_eq a.project_id project) _ h in
    let (i, _) = both (str_eq a.release_id id) _ rest in rw (p, i, k) refl

-- An attempt that is finished for good ends its release.
pub finish_rows-begin :
    (o : Options) (project id key : String) (u : Update) (now : ℕ) (rows : List Attempt)
    → is_over o u.status (begin project id key now rows).0 ≡ true
    → any (ends o project id) (finish_rows project id key u now (begin project id key now rows).1)
      ≡ true
unfolding begin finish_rows
finish_rows-begin o project id key u now [] h =
    let own = first-is_attempt project id key now in
    rw own (finished-ends o project id key u now (first_attempt project id key now) [] own h)
finish_rows-begin o project id key u now (a ∷ rows) h =
    elim (Bool-cases (is_attempt project id key a)) [
      | inl e ↦
          let h' = rw e at h in
          let own = again-is_attempt project id key now a e in
          rw (e, own) (finished-ends o project id key u now (again now a) rows own h')
      | inr e ↦
          let h' = rw e at h in
          rw (e, e, finish_rows-begin o project id key u now rows h')
            (if_same (ends o project id a) true)
    ]
