-- ===== src/Releases/Ledger.antt =====
-- src/services/releases.ts: what holds of the two tables after any calls.
use poolstatis.Common.{
  ℕ, ◌+◌, ◌≡◌, refl, ap, ◌∙◌, inl, inr, Bool, true, false, Option, none, some, String, List, [],
  ◌∷◌, ◌++◌, Map, get, set, str_eq, if◌then◌else◌, arith, Bool-cases,
}
use poolstatis.Releases.Register.{registration, is_registration}
use poolstatis.Releases.Table.{Status, Release, Revision, has_key, find_key}
use poolstatis.Releases.Transition.{allowed_transition}

-- A row and what later moves make of it: the status goes along allowed transitions, the time of the
-- deployment may change, and nothing else does.
pub data Reaches : Release → Release → Type 0 where
  here : {r : Release} → Reaches r r
  move :
      {r s : Release} (to : Status) (at : Option String)
      → allowed_transition r.status to ≡ true
      → Reaches (record r { status = to; deployed_at = at }) s
      → Reaches r s

pub Reaches-snoc :
    {r s : Release} (to : Status) (at : Option String)
    → Reaches r s
    → allowed_transition s.status to ≡ true
    → Reaches r (record s { status = to; deployed_at = at })
Reaches-snoc to at here h = move to at h here
Reaches-snoc to at (move to' at' h' rest) h = move to' at' h' (Reaches-snoc to at rest h)

pub Reaches-trans : {r s q : Release} → Reaches r s → Reaches s q → Reaches r q
Reaches-trans here k = k
Reaches-trans (move to at h rest) k = move to at h (Reaches-trans rest k)

unfoldable pub newer : Option Release → Option Release → Option Release
newer none older = older
newer (some r) older = some r

-- The state of a release as its log tells it.
unfoldable pub last_snapshot : String → List Revision → Option Release
unfolding newer
last_snapshot id [] = none
last_snapshot id (v ∷ log) =
    newer (last_snapshot id log) (if str_eq v.release_id id then some v.snapshot else none)

newer-if :
    (b : Bool) (s : Release) (o older : Option Release)
    → newer (if b then some s else o) older ≡ (if b then some s else newer o older)
unfolding newer
newer-if true s o older = refl
newer-if false s o older = refl

newer-none :
    (b : Bool) (s : Release)
    → newer none (if b then some s else none) ≡ (if b then some s else none)
unfolding newer
newer-none b s = refl

pub last_snapshot-snoc :
    (id : String) (log : List Revision) (v : Revision)
    → last_snapshot id (log ++ v ∷ [])
      ≡ (if str_eq v.release_id id then some v.snapshot else last_snapshot id log)
unfolding last_snapshot
last_snapshot-snoc id [] v = newer-none (str_eq v.release_id id) v.snapshot
last_snapshot-snoc id (u ∷ log) v =
    ap (λ (o : Option Release). newer o (if str_eq u.release_id id then some u.snapshot else none))
      (last_snapshot-snoc id log v)
    ∙ newer-if (str_eq v.release_id id) v.snapshot (last_snapshot id log)
        (if str_eq u.release_id id then some u.snapshot else none)

pub registration-append :
    (project id : String) (log more : List Revision) {s : Release}
    → registration project id log ≡ some s
    → registration project id (log ++ more) ≡ some s
unfolding registration
registration-append project id [] more h = cc
registration-append project id (v ∷ log) more h = elim (Bool-cases (is_registration project id v)) [
  | inl e ↦ let h' = rw e at h in rw e h'
  | inr e ↦ let h' = rw e at h in rw e (registration-append project id log more h')
]

-- How many rows hold a key of a project and environment.
unfoldable pub holders : String → String → String → Map Release → ℕ
holders project env key [] = 0
holders project env key ((_, r) ∷ rows) =
    (if has_key project env key r then 1 else 0) + holders project env key rows

pub holders-none :
    (project env key : String) (rows : Map Release)
    → find_key project env key rows ≡ none
    → holders project env key rows ≡ 0
unfolding holders find_key
holders-none project env key [] h = refl
holders-none project env key ((_, r) ∷ rows) h = ground (arith, holders-none project env key rows)

-- A new row is one holder more of the keys that it has.
pub holders-new :
    (project env key : String) (rows : Map Release) (id : String) (r : Release)
    → get rows id ≡ none
    → holders project env key (set rows id r)
      ≡ (if has_key project env key r then 1 else 0) + holders project env key rows
unfolding holders get set
holders-new project env key [] id r h = refl
holders-new project env key ((j, q) ∷ rows) id r h = elim (Bool-cases (str_eq j id)) [
  | inl e ↦ let h' = rw e at h in absurd cc
  | inr e ↦ let h' = rw e at h in rw e (omega (arith, holders-new project env key rows id r h'))
]

-- A row that is overwritten with its own key has the same holders.
pub holders-set :
    (project env key : String) (rows : Map Release) (id : String) (q r : Release)
    → get rows id ≡ some q
    → has_key project env key r ≡ has_key project env key q
    → holders project env key (set rows id r) ≡ holders project env key rows
unfolding holders get set
holders-set project env key [] id q r h k = cc
holders-set project env key ((j, s) ∷ rows) id q r h k = elim (Bool-cases (str_eq j id)) [
  | inl e ↦ let h' = rw e at h in rw e (ground (arith, k, h'))
  | inr e ↦ let h' = rw e at h in rw e (omega (arith, holders-set project env key rows id q r h' k))
]
