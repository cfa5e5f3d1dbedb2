-- ===== src/Releases/Retry.antt =====
-- src/services/releases.ts: a registration that is sent again, after whatever other calls.
use poolstatis.Common.{
  ◌≡◌, refl, sym, ap, ◌∙◌, inl, inr, none, some, String, List, [], ◌∷◌, Map, get, set, str_eq,
  Bool-cases,
}
use poolstatis.Releases.Changes.{Change, kept, inserts, moves, Change-IsLedger, some-eq}
use poolstatis.Releases.Invariant.{IsLedger}
use poolstatis.Releases.Ledger.{registration-append}
use poolstatis.Releases.Lifecycle.{Call, step, run, step-Change}
use poolstatis.Releases.Register.{registration}
use poolstatis.Releases.Table.{Release, Tables, has_key, find_key, append_revision, write}

-- The row that is found under a key, with its id.
abbrev Holds : Tables → String → String → String → String → Type 0
Holds t project env key id =
    (r : Release) × (find_key project env key t.releases ≡ some r) × (r.id ≡ id)

find_key-new :
    (project env key : String) (rows : Map Release) (id : String) (q : Release) {r : Release}
    → get rows id ≡ none
    → find_key project env key rows ≡ some r
    → find_key project env key (set rows id q) ≡ some r
unfolding find_key get set
find_key-new project env key [] id q h k = absurd cc
find_key-new project env key ((j, s) ∷ rows) id q h k = elim (Bool-cases (str_eq j id)) [
  | inl e ↦ let h' = rw e at h in absurd cc
  | inr e ↦
      let h' = rw e at h in
      rw e (elim (Bool-cases (has_key project env key s)) [
        | inl f ↦ let k' = rw f at k in rw f k'
        | inr f ↦ let k' = rw f at k in rw f (find_key-new project env key rows id q h' k')
      ])
]

-- A row that is overwritten with its own key and id is found under the key as before.
find_key-set :
    (project env key : String) (rows : Map Release) (id : String) (q s : Release) {r : Release}
    → get rows id ≡ some q
    → has_key project env key s ≡ has_key project env key q
    → s.id ≡ q.id
    → find_key project env key rows ≡ some r
    → (o : Release) × (find_key project env key (set rows id s) ≡ some o) × (o.id ≡ r.id)
unfolding find_key get set
find_key-set project env key [] id q s h m i k = absurd cc
find_key-set project env key ((j, p) ∷ rows) id q s {r} h m i k = elim (Bool-cases (str_eq j id)) [
  | inl e ↦
      let h' = rw e at h in
      let same = some-eq h' in
      let m' = m ∙ ap (λ (o : Release). has_key project env key o) (sym same) in
      rw e (elim (Bool-cases (has_key project env key p)) [
        | inl f ↦
            let k' = rw f at k in
            (s, rw (m', f) refl, i ∙ ap (λ (o : Release). o.id) (sym same ∙ some-eq k'))
        | inr f ↦ let k' = rw f at k in (r, rw (m', f) k', refl)
      ])
  | inr e ↦
      let h' = rw e at h in
      rw e (elim (Bool-cases (has_key project env key p)) [
        | inl f ↦ let k' = rw f at k in (p, rw f refl, ap (λ (o : Release). o.id) (some-eq k'))
        | inr f ↦ let k' = rw f at k in rw f (find_key-set project env key rows id q s h' m i k')
      ])
]

Change-find_key :
    (project env key : String) {t t' : Tables} {r : Release}
    → Change t t'
    → find_key project env key t.releases ≡ some r
    → Holds t' project env key r.id
unfolding write has_key
Change-find_key project env key {r = r} kept h = (r, h, refl)
Change-find_key project env key {t} {r = r} (inserts q actor absent free ok) h =
    (r, find_key-new project env key t.releases q.id q absent h, refl)
Change-find_key project env key {t} (moves a q to at actor there allowed ok) h =
    find_key-set project env key t.releases q.id q (record q { status = to; deployed_at = at })
      there refl refl h

Change-registration :
    (project id : String) {t t' : Tables} {r : Release}
    → Change t t'
    → registration project id t.revisions ≡ some r
    → registration project id t'.revisions ≡ some r
unfolding write append_revision
Change-registration project id kept h = h
Change-registration project id {t} (inserts q actor absent free ok) h =
    registration-append project id t.revisions _ h
Change-registration project id {t} (moves a q to at actor there allowed ok) h =
    registration-append project id t.revisions _ h

pub run-Holds :
    (iso : String → String) (cs : List Call) (t : Tables) (project env key : String) (r : Release)
    → IsLedger t
    → find_key project env key t.releases ≡ some r
    → Holds (run iso cs t) project env key r.id
unfolding run
run-Holds iso [] t project env key r h k = (r, k, refl)
run-Holds iso (c ∷ cs) t project env key r h k =
    let change = step-Change iso c t h in
    let (q, k', e) = Change-find_key project env key change k in
    let (s, k'', e') =
      run-Holds iso cs (step iso c t) project env key q (Change-IsLedger change h) k' in
    (s, k'', e' ∙ e)

pub run-registration :
    (iso : String → String) (cs : List Call) (t : Tables) (project id : String) (r : Release)
    → IsLedger t
    → registration project id t.revisions ≡ some r
    → registration project id (run iso cs t).revisions ≡ some r
unfolding run
run-registration iso [] t project id r h k = k
run-registration iso (c ∷ cs) t project id r h k =
    let change = step-Change iso c t h in
    run-registration iso cs (step iso c t) project id r (Change-IsLedger change h)
      (Change-registration project id change k)
