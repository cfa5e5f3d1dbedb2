-- ===== src/Metering/Counts.antt =====
-- src/stores/postgresEventStore.ts: the counters of the organizations, the ledger and the events agree.
use poolstatis.Common.{
  ℕ, ◌+◌, ◌≡◌, refl, ◌∙◌, inl, inr, Bool, false, not, ◌&&◌, String, List, [], ◌∷◌, ◌++◌, str_eq,
  eq_iff, ◌==◌, if◌then◌else◌, length, any, arith, Bool-cases, if_elim,
}
use poolstatis.Metering.Table.{
  Event, is_billable, billable, Entry, Counter, Tables, Answer, committed, is_counter, used,
  add_usage,
}
use poolstatis.Metering.Insert.{insert_events, write_usage, is_elsewhere}
use poolstatis.Metering.Entitlements.{
  Update, configure, snapshot_revision, is_below, is_unchanged, write_entitlement,
}
use poolstatis.Metering.Calls.{
  Call, appends, batches, backfills, configures, step, run, IsClosed, appends_kept, batches_kept,
  backfills_kept,
}

-- What the ledger counts for an organization in a period, and for a project.
unfoldable pub ledger_of : String → ℕ → List Entry → ℕ
ledger_of org period [] = 0
ledger_of org period (e ∷ es) =
    let rest = ledger_of org period es in
    if str_eq e.org_id org && e.period == period then e.quantity + rest else rest

unfoldable pub ledger_of_project : String → List Entry → ℕ
ledger_of_project project [] = 0
ledger_of_project project (e ∷ es) =
    let rest = ledger_of_project project es in
    if str_eq e.project_id project then e.quantity + rest else rest

-- The billable events that are stored for a project.
unfoldable pub billable_of : String → List Event → ℕ
unfolding is_billable
billable_of project [] = 0
billable_of project (e ∷ es) =
    let rest = billable_of project es in
    if is_billable e && str_eq e.project_id project then rest + 1 else rest

pub record IsCounted (t : Tables) : Type 0 where
  pub counted :
      (org : String) (period : ℕ) → used org period t.counters ≡ ledger_of org period t.ledger
  pub stored :
      (project : String) → billable_of project t.events ≡ ledger_of_project project t.ledger

pub used-add_usage :
    (org o : String) (period p n : ℕ) (cs : List Counter)
    → used o p (add_usage org period n cs)
      ≡ used o p cs + (if str_eq org o && period == p then n else 0)
unfolding used add_usage is_counter
used-add_usage org o period p n [] = ground arith
used-add_usage org o period p n (c ∷ cs) = ground (
  arith,
  eq_iff org o,
  eq_iff c.org_id org,
  eq_iff c.org_id o,
  used-add_usage org o period p n cs,
)

ledger_of-append :
    (o : String) (p : ℕ) (es : List Entry) (e : Entry)
    → ledger_of o p (es ++ e ∷ [])
      ≡ ledger_of o p es + (if str_eq e.org_id o && e.period == p then e.quantity else 0)
unfolding ledger_of
ledger_of-append o p [] e = ground arith
ledger_of-append o p (x ∷ es) e = ground (arith, ledger_of-append o p es e)

ledger_of_project-append :
    (q : String) (es : List Entry) (e : Entry)
    → ledger_of_project q (es ++ e ∷ [])
      ≡ ledger_of_project q es + (if str_eq e.project_id q then e.quantity else 0)
unfolding ledger_of_project
ledger_of_project-append q [] e = ground arith
ledger_of_project-append q (x ∷ es) e = ground (arith, ledger_of_project-append q es e)

billable_of-append :
    (q : String) (xs ys : List Event)
    → billable_of q (xs ++ ys) ≡ billable_of q xs + billable_of q ys
unfolding billable_of
billable_of-append q [] ys = omega arith
billable_of-append q (x ∷ xs) ys = ground (arith, billable_of-append q xs ys)

no_billable :
    (q : String) (events : List Event) → length (billable events) ≡ 0 → billable_of q events ≡ 0
unfolding billable billable_of
no_billable q [] h = refl
no_billable q (e ∷ es) h = elim (Bool-cases (is_billable e)) [
  | inl b ↦ let h' = rw b at h in absurd (omega arith)
  | inr b ↦ let h' = rw b at h in rw b (no_billable q es h')
]

-- The events of one batch are all of the project of its first.
one_project :
    (q : String) (first : Event) (events : List Event)
    → any (is_elsewhere first) events ≡ false
    → billable_of q events ≡ (if str_eq first.project_id q then length (billable events) else 0)
unfolding billable billable_of is_elsewhere
one_project q first [] h = ground arith
one_project q first (e ∷ es) h = elim (Bool-cases (str_eq e.project_id first.project_id)) [
  | inl same ↦ elim (Bool-cases (str_eq e.env first.env)) [
    | inl here ↦
        let h' = rw (same, here) at h in
        let rest = one_project q first es h' in
        let p = (eq_iff e.project_id first.project_id).0 same in
        elim (Bool-cases (is_billable e)) [
          | inl b ↦ elim (Bool-cases (str_eq first.project_id q)) [
            | inl c ↦ let rest' = rw c at rest in rw (p, b, c) (omega arith)
            | inr c ↦ let rest' = rw c at rest in rw (p, b, c) rest'
          ]
          | inr b ↦ rw (p, b) rest
        ]
    | inr away ↦ let h' = rw (same, away) at h in absurd cc
  ]
  | inr other ↦ let h' = rw other at h in absurd cc
]

plain-IsCounted :
    (t : Tables) (events : List Event)
    → length (billable events) ≡ 0
    → IsCounted t
    → IsCounted (insert_events events t)
unfolding insert_events
plain-IsCounted t events none_left h = record {
  counted = h.counted;
  stored = λ q.
      billable_of-append q t.events events
      ∙ omega (arith, no_billable q events none_left, h.stored q);
}

metered-IsCounted :
    (period : ℕ) (t : Tables) (org source : String) (first : Event) (events : List Event)
    → any (is_elsewhere first) events ≡ false
    → IsCounted t
    → IsCounted (write_usage (record { org_id = org; period = period }) first events source t)
unfolding write_usage insert_events
metered-IsCounted period t org source first events same h = record {
  counted = λ o p. omega (
    arith,
    used-add_usage org o period p (length (billable events)) t.counters,
    ledger_of-append o p t.ledger (record {
      org_id = org;
      project_id = first.project_id;
      env = first.env;
      period = period;
      quantity = length (billable events);
      source_batch = source;
    }),
    h.counted o p,
  );
  stored = λ q. omega (
    arith,
    billable_of-append q t.events events,
    one_project q first events same,
    ledger_of_project-append q t.ledger (record {
      org_id = org;
      project_id = first.project_id;
      env = first.env;
      period = period;
      quantity = length (billable events);
      source_batch = source;
    }),
    h.stored q,
  );
}

IsCounted-IsClosed : (period : ℕ) → IsClosed period IsCounted
IsCounted-IsClosed period = record {
  plain = plain-IsCounted;
  metered = λ t org source first events same within h.
      metered-IsCounted period t org source first events same h;
  noted = λ t hs ws h. record { counted = h.counted; stored = h.stored };
}

configure-IsCounted :
    (org : String) (period : ℕ) (u : Update) (actor : String) (t : Tables)
    → IsCounted t
    → IsCounted (committed t (configure org period u actor t))
unfolding configure write_entitlement committed
configure-IsCounted org period u actor t h =
    if_elim (λ (a : Answer Bool). IsCounted (committed t a))
      (not (snapshot_revision org t == u.expected_revision)) (λ _. h)
      (λ _.
        if_elim (λ (a : Answer Bool). IsCounted (committed t a))
          (is_below u.hard_limit (used org period t.counters)) (λ _. h)
          (λ _.
            if_elim (λ (a : Answer Bool). IsCounted (committed t a)) (is_unchanged org u t) (λ _. h)
              (λ _. record { counted = h.counted; stored = h.stored })))

step-IsCounted : (c : Call) (t : Tables) → IsCounted t → IsCounted (step c t)
unfolding step
step-IsCounted (appends s events stored) t h =
    appends_kept (IsCounted-IsClosed s.period) s events stored t refl h
step-IsCounted (batches s locked r source now stored) t h =
    batches_kept (IsCounted-IsClosed s.period)
      (λ t bs h. record { counted = h.counted; stored = h.stored }) s locked r source now stored t
      refl h
step-IsCounted (backfills s b source stored) t h =
    backfills_kept (IsCounted-IsClosed s.period) s b source stored t refl h
step-IsCounted (configures org period u actor) t h = configure-IsCounted org period u actor t h

-- After any appends, batches, backfills and changes of entitlements, the counter of every organization and
-- period is the sum of its ledger, and the ledger of a project is the number of its billable events that
-- are stored, if both held before.
pub run-IsCounted : (cs : List Call) (t : Tables) → IsCounted t → IsCounted (run cs t)
unfolding run
run-IsCounted [] t h = h
run-IsCounted (c ∷ cs) t h = run-IsCounted cs (step c t) (step-IsCounted c t h)
