-- ===== src/Releases/Repeat.antt =====
-- src/services/releases.ts: what a second registration with the same input returns.
use poolstatis.Common.{
  ◌≡◌, ◌≢◌, refl, sym, ap, subst, ◌∙◌, inl, inr, Bool, true, false, ◌||◌, not, Option, none, some,
  String, List, [], ◌∷◌, Map, get, set, str_eq, eq_iff, eq_refl, Bool-cases, Option-cases,
  if◌then◌else◌,
}
use poolstatis.Releases.Changes.{register-Change, Change-IsLedger, some-eq, is_some-none, neither}
use poolstatis.Releases.Invariant.{IsLedger, new-origin}
use poolstatis.Releases.Lifecycle.{Call, run}
use poolstatis.Releases.Register.{
  Input, same_registration, registration, or_current, repeat, new_release, insert_release,
  origin_missing, first_registration, register,
}
use poolstatis.Releases.Retry.{run-Holds, run-registration}
use poolstatis.Releases.Table.{
  Release, registered, Tables, Revision, StoredContract, World, find_contract, idempotency_conflict,
  failed, done, committed, is_some, has_key, find_key, row_check, write,
}
use poolstatis.Releases.Kept.{keeps, same_registration-new}

find_contract-key :
    (key : String) (rows : List StoredContract) {c : StoredContract}
    → find_contract key rows ≡ some c
    → c.declared.key ≡ key
unfolding find_contract
find_contract-key key [] h = absurd cc
find_contract-key key (d ∷ rows) {c} h = elim (Bool-cases (str_eq d.declared.key key)) [
  | inl e ↦
      let h' = rw e at h in
      subst (λ (x : StoredContract). x.declared.key ≡ key) (some-eq h') ((eq_iff _ _).0 e)
  | inr e ↦ let h' = rw e at h in find_contract-key key rows h'
]

find_key-added :
    (rows : Map Release) (r : Release)
    → get rows r.id ≡ none
    → find_key r.project_id r.env r.idempotency_key rows ≡ none
    → find_key r.project_id r.env r.idempotency_key (set rows r.id r) ≡ some r
unfolding find_key get set has_key
find_key-added [] r h k = rw (eq_refl r.project_id, eq_refl r.env, eq_refl r.idempotency_key) refl
find_key-added ((j, s) ∷ rows) r h k = elim (Bool-cases (str_eq j r.id)) [
  | inl e ↦ let h' = rw e at h in absurd cc
  | inr e ↦
      let h' = rw e at h in
      rw e (elim (Bool-cases (has_key r.project_id r.env r.idempotency_key s)) [
        | inl f ↦ let k' = rw f at k in absurd cc
        | inr f ↦ let k' = rw f at k in rw f (find_key-added rows r h' k')
      ])
]

-- What a first registration did.
record First (iso : String → String) (w : World) (project id : String) (i : Input)
    (actor now : String) (t t' : Tables) (r : Release) : Type 0 where
  contract : StoredContract
  found : find_contract i.contract_key (w.contracts project) ≡ some contract
  row : r ≡ new_release iso project id i contract actor now
  written : t' ≡ write r registered none actor t
  free : find_key project i.env i.idempotency_key t.releases ≡ none
  absent : get t.releases id ≡ none

done-eq : {A : Type 0} {t t' : Tables} {a b : A} → done t a ≡ done t' b → (t ≡ t') × (a ≡ b)
done-eq h = (cc, cc)

insert_release-done :
    (q : Release) (actor : String) (t t' : Tables) (r : Release)
    → insert_release q actor t ≡ done t' (r, false)
    → (r ≡ q) × (t' ≡ write q registered none actor t) × (get t.releases q.id ≡ none)
unfolding insert_release
insert_release-done q actor t t' r h =
    elim (Bool-cases (is_some (get t.releases q.id) || not (row_check q))) [
      | inl e ↦ let h' = rw e at h in absurd cc
      | inr e ↦
          let h' = rw e at h in
          let (tables, rows) = done-eq h' in
          (
            sym (ap (λ (x : Release × Bool). x.0) rows),
            sym tables,
            is_some-none _ (neither (is_some (get t.releases q.id)) (row_check q) e).0,
          )
    ]

repeat-done :
    (project : String) (i : Input) (q : Release) (t t' : Tables) (r : Release)
    → repeat project i q t ≢ done t' (r, false)
unfolding repeat
repeat-done project i q t t' r h =
    elim (Bool-cases (same_registration i (or_current q (registration project q.id t.revisions)))) [
      | inl e ↦
          let h' = rw e at h in
          let no = ap (λ (x : Release × Bool). x.1) (done-eq h').1 in absurd cc
      | inr e ↦ let h' = rw e at h in absurd cc
    ]

first_registration-First :
    (iso : String → String) (w : World) (project id : String) (i : Input) (actor now : String)
    (t t' : Tables) (r : Release) (o : Option StoredContract)
    → find_contract i.contract_key (w.contracts project) ≡ o
    → find_key project i.env i.idempotency_key t.releases ≡ none
    → first_registration iso w project id i actor now t o ≡ done t' (r, false)
    → First iso w project id i actor now t t' r
unfolding first_registration
first_registration-First iso w project id i actor now t t' r none found free h = absurd cc
first_registration-First iso w project id i actor now t t' r (some c) found free h =
    elim (Bool-cases (origin_missing w project i.originating_decision_id)) [
      | inl e ↦ let h' = rw e at h in absurd cc
      | inr e ↦
          let h' = rw e at h in
          let (row, written, absent) = insert_release-done _ actor t t' r h' in
          record {
            contract = c;
            found = found;
            row = row;
            written = written ∙ ap (λ (q : Release). write q registered none actor t) (sym row);
            free = free;
            absent = unfold new_release in absent;
          }
    ]

register-First :
    (iso : String → String) (w : World) (project id : String) (i : Input) (actor now : String)
    (t t' : Tables) (r : Release)
    → register iso w project id i actor now t ≡ done t' (r, false)
    → First iso w project id i actor now t t' r
unfolding register
register-First iso w project id i actor now t t' r h =
    elim (Option-cases (find_key project i.env i.idempotency_key t.releases)) [
      | inl e ↦
          first_registration-First iso w project id i actor now t t' r _ refl e
            (rw (e, register) at h)
      | inr (q, e) ↦ let h' = rw (e, register) at h in absurd (repeat-done project i q t t' r h')
    ]

-- What the row of a first registration looks like when the call comes again.
record Seen (iso : String → String) (project : String) (i : Input) (c : StoredContract)
    (id : String) (t : Tables) : Type 0 where
  row : Release
  held : find_key project i.env i.idempotency_key t.releases ≡ some row
  same_id : row.id ≡ id
  agrees :
      same_registration i (or_current row (registration project row.id t.revisions)) ≡ keeps iso i c

agrees-registered :
    (project : String) (i : Input) (row q : Release) (log : List Revision) (b : Bool)
    → registration project row.id log ≡ some q
    → same_registration i q ≡ b
    → same_registration i (or_current row (registration project row.id log)) ≡ b
unfolding or_current
agrees-registered project i row q log b h k = rw h k

inserted-Seen :
    (iso : String → String) (project id : String) (i : Input) (c : StoredContract)
    (actor now : String) (t : Tables) (cs : List Call)
    → IsLedger t
    → IsLedger (write (new_release iso project id i c actor now) registered none actor t)
    → c.declared.key ≡ i.contract_key
    → find_key project i.env i.idempotency_key t.releases ≡ none
    → get t.releases id ≡ none
    → Seen iso project i c id
        (run iso cs (write (new_release iso project id i c actor now) registered none actor t))
unfolding new_release write
inserted-Seen iso project id i c actor now t cs h h' key free absent =
    let q = new_release iso project id i c actor now in
    let t' = write q registered none actor t in
    let (row, held, e) =
      run-Holds iso cs t' project i.env i.idempotency_key q h'
        (find_key-added t.releases q absent free) in
    let origin = run-registration iso cs t' project id q h' (new-origin q actor t h absent) in
    record {
      row = row;
      held = held;
      same_id = e;
      agrees =
          agrees-registered project i row q _ _ (rw e origin)
            (same_registration-new iso project id i c actor now key);
    }

repeat-agrees :
    (project : String) (i : Input) (row : Release) (t : Tables) (b : Bool)
    → same_registration i (or_current row (registration project row.id t.revisions)) ≡ b
    → repeat project i row t ≡ (if b then done t (row, true) else failed idempotency_conflict)
unfolding repeat
repeat-agrees project i row t b h = rw h refl

-- The answer to an input that was registered before.
register-Seen :
    (iso : String → String) (w : World) (project id id' : String) (i : Input) (c : StoredContract)
    (actor now : String) (t : Tables) (b : Bool)
    → keeps iso i c ≡ b
    → (seen : Seen iso project i c id t)
    → register iso w project id' i actor now t
      ≡ (if b then done t (seen.row, true) else failed idempotency_conflict)
unfolding register
register-Seen iso w project id id' i c actor now t b h seen =
    let e = seen.held in rw (e, register) (repeat-agrees project i seen.row t b (seen.agrees ∙ h))

First-Seen :
    (iso : String → String) (w : World) (project id : String) (i : Input) (actor now : String)
    (t t' : Tables) (r : Release) (cs : List Call)
    → IsLedger t
    → register iso w project id i actor now t ≡ done t' (r, false)
    → (c : StoredContract) → find_contract i.contract_key (w.contracts project) ≡ some c
    → (Seen iso project i c id (run iso cs t')) × (r.id ≡ id)
unfolding new_release committed
First-Seen iso w project id i actor now t t' r cs h k c found =
    let first = register-First iso w project id i actor now t t' r k in
    let q = new_release iso project id i c actor now in
    let same = some-eq (sym first.found ∙ found) in
    let row =
      first.row ∙ ap (λ (x : StoredContract). new_release iso project id i x actor now) same in
    let written = first.written ∙ ap (λ (x : Release). write x registered none actor t) row in
    let h' =
      subst IsLedger (ap (committed t) k ∙ written)
        (Change-IsLedger (register-Change iso w project id i actor now t) h) in
    let seen =
      inserted-Seen iso project id i c actor now t cs h h'
        (find_contract-key i.contract_key (w.contracts project) found) first.free first.absent in
    (
      subst (λ (s : Tables). Seen iso project i c id (run iso cs s)) (sym written) seen,
      ap (λ (x : Release). x.id) row,
    )

-- On tables that are a ledger, a registration that inserted a row and is sent again, after whatever
-- other calls, returns the row of the same id, as the table has it by then under the key, and changes
-- nothing, if the input names each link that the contract names and its time, if it has one, is
-- spelled as the database returns it.
pub retry-returns :
    (iso : String → String) (w w' : World) (project id id' : String) (i : Input)
    (actor actor' now now' : String) (t t' : Tables) (r : Release) (c : StoredContract)
    (cs : List Call)
    → IsLedger t
    → find_contract i.contract_key (w.contracts project) ≡ some c
    → register iso w project id i actor now t ≡ done t' (r, false)
    → keeps iso i c ≡ true
    → (s : Release) × (register iso w' project id' i actor' now' (run iso cs t')
        ≡ done (run iso cs t') (s, true))
      × (s.id ≡ r.id)
      × (find_key project i.env i.idempotency_key (run iso cs t').releases ≡ some s)
retry-returns iso w w' project id id' i actor actor' now now' t t' r c cs h found k keep =
    let (seen, own) = First-Seen iso w project id i actor now t t' r cs h k c found in
    (
      seen.row,
      register-Seen iso w' project id id' i c actor' now' (run iso cs t') true keep seen,
      seen.same_id ∙ sym own,
      seen.held,
    )

-- On tables that are a ledger, a registration that inserted a row and is sent again, after whatever
-- other calls, is refused as a conflict, if the input leaves a link to the contract that the contract
-- names, or gives a time in another spelling than that of the database.
pub retry-conflicts :
    (iso : String → String) (w w' : World) (project id id' : String) (i : Input)
    (actor actor' now now' : String) (t t' : Tables) (r : Release) (c : StoredContract)
    (cs : List Call)
    → IsLedger t
    → find_contract i.contract_key (w.contracts project) ≡ some c
    → register iso w project id i actor now t ≡ done t' (r, false)
    → keeps iso i c ≡ false
    → register iso w' project id' i actor' now' (run iso cs t') ≡ failed idempotency_conflict
retry-conflicts iso w w' project id id' i actor actor' now now' t t' r c cs h found k keep =
    let (seen, _) = First-Seen iso w project id i actor now t t' r cs h k c found in
    register-Seen iso w' project id id' i c actor' now' (run iso cs t') false keep seen
