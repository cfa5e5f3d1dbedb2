-- ===== src/Metering/Stale.antt =====
-- src/services/usageEntitlements.ts: changes of an entitlement under an expected revision.
use poolstatis.Common.{
  ℕ, ◌+◌, ◌≤◌, ◌<◌, ◌≡◌, refl, subst, inl, inr, Bool, true, false, not, String, List, [], ◌∷◌, ◌++◌,
  max, get-set, str_eq, eq_iff, eq_refl, ◌==◌, if◌then◌else◌, arith, Bool-cases, if_elim,
}
use poolstatis.Metering.Table.{
  Revision, Tables, Answer, threw, done, committed, used, revision_conflict,
}
use poolstatis.Metering.Insert.{insert_events, write_usage}
use poolstatis.Metering.Entitlements.{
  Update, configure, snapshot_revision, latest_revision, is_below, is_unchanged, write_entitlement,
  new_revision,
}
use poolstatis.Metering.Calls.{
  Call, appends, batches, backfills, configures, step, run, IsClosed, appends_kept, batches_kept,
  backfills_kept,
}

-- The revision that a reader of the entitlement sees is at least a number.
abbrev IsPast : String → ℕ → Tables → Type 0
IsPast org n t = n ≤ snapshot_revision org t

IsPast-IsClosed : (period : ℕ) (org : String) (n : ℕ) → IsClosed period (IsPast org n)
unfolding insert_events write_usage snapshot_revision
IsPast-IsClosed period org n = record {
  plain = λ t events none_left h. h;
  metered = λ t o source first events same within h. h;
  noted = λ t hs ws h. h;
}

max_swap : (a b c : ℕ) → max a (max b c) ≡ max (max a b) c
max_swap a b c = omega arith

latest-append :
    (org : String) (rs : List Revision) (r : Revision)
    → latest_revision org (rs ++ r ∷ []) ≡ (
        if str_eq r.org_id org
        then max (latest_revision org rs) r.revision
        else latest_revision org rs)
unfolding latest_revision
latest-append org [] r = elim (Bool-cases (str_eq r.org_id org)) [
  | inl e ↦ rw e (omega arith)
  | inr e ↦ rw e refl
]
latest-append org (x ∷ rs) r = elim (Bool-cases (str_eq r.org_id org)) [
  | inl e ↦
      let more = rw e at (latest-append org rs r) in
      elim (Bool-cases (str_eq x.org_id org)) [
        | inl f ↦ rw (e, f, more) (max_swap x.revision (latest_revision org rs) r.revision)
        | inr f ↦ rw (e, f) more
      ]
  | inr e ↦ let same = rw e at (latest-append org rs r) in rw (e, same) refl
]

write-raises :
    (org : String) (period : ℕ) (u : Update) (actor : String) (t : Tables)
    → snapshot_revision org t < snapshot_revision org (write_entitlement org period u actor t)
unfolding write_entitlement snapshot_revision new_revision
write-raises org period u actor t =
    let raised =
      rw (eq_refl org) at
        (latest-append org t.revisions (new_revision org u actor (used org period t.counters) t)) in
    rw raised (omega arith)

write-apart :
    (org o : String) (period : ℕ) (u : Update) (actor : String) (t : Tables)
    → str_eq org o ≡ false
    → snapshot_revision o (write_entitlement org period u actor t) ≡ snapshot_revision o t
unfolding write_entitlement snapshot_revision new_revision
write-apart org o period u actor t h =
    let same =
      rw h at
        (latest-append o t.revisions (new_revision org u actor (used org period t.counters) t)) in
    rw (same, get-set t.entitlements org o _, h) refl

write-IsPast :
    (org o : String) (period n : ℕ) (u : Update) (actor : String) (t : Tables)
    → IsPast o n t
    → IsPast o n (write_entitlement org period u actor t)
write-IsPast org o period n u actor t h = elim (Bool-cases (str_eq org o)) [
  | inl e ↦
      subst (λ (x : String). IsPast x n t → IsPast x n (write_entitlement org period u actor t))
        ((eq_iff org o).0 e) (λ k. omega (arith, k, write-raises org period u actor t)) h
  | inr e ↦ rw (write-apart org o period u actor t e) h
]

configure-IsPast :
    (org o : String) (period n : ℕ) (u : Update) (actor : String) (t : Tables)
    → IsPast o n t
    → IsPast o n (committed t (configure org period u actor t))
unfolding configure committed
configure-IsPast org o period n u actor t h =
    if_elim (λ (a : Answer Bool). IsPast o n (committed t a))
      (not (snapshot_revision org t == u.expected_revision)) (λ _. h)
      (λ _.
        if_elim (λ (a : Answer Bool). IsPast o n (committed t a))
          (is_below u.hard_limit (used org period t.counters)) (λ _. h)
          (λ _.
            if_elim (λ (a : Answer Bool). IsPast o n (committed t a)) (is_unchanged org u t)
              (λ _. h) (λ _. write-IsPast org o period n u actor t h)))

step-IsPast :
    (org : String) (n : ℕ) (c : Call) (t : Tables) → IsPast org n t → IsPast org n (step c t)
unfolding step
step-IsPast org n (appends s events stored) t h =
    appends_kept (IsPast-IsClosed s.period org n) s events stored t refl h
step-IsPast org n (batches s locked r source now stored) t h =
    batches_kept (IsPast-IsClosed s.period org n) (unfold snapshot_revision in λ t bs h. h) s locked
      r source now stored t refl h
step-IsPast org n (backfills s b source stored) t h =
    backfills_kept (IsPast-IsClosed s.period org n) s b source stored t refl h
step-IsPast org n (configures o period u actor) t h = configure-IsPast o org period n u actor t h

run-IsPast :
    (org : String) (n : ℕ) (cs : List Call) (t : Tables) → IsPast org n t → IsPast org n (run cs t)
unfolding run
run-IsPast org n [] t h = h
run-IsPast org n (c ∷ cs) t h = run-IsPast org n cs (step c t) (step-IsPast org n c t h)

-- What a change leaves: a revision above the one that was expected.
abbrev Raises : String → ℕ → Answer Bool → Type 0
Raises org n (threw e) = Unit
Raises org n (done u false) = Unit
Raises org n (done u true) = IsPast org (n + 1) u

configure-Raises :
    (org : String) (period : ℕ) (u : Update) (actor : String) (t : Tables)
    → Raises org u.expected_revision (configure org period u actor t)
unfolding configure
configure-Raises org period u actor t =
    if_elim (Raises org u.expected_revision) (not (snapshot_revision org t == u.expected_revision))
      (λ _. tt)
      (λ e.
        if_elim (Raises org u.expected_revision)
          (is_below u.hard_limit (used org period t.counters)) (λ _. tt)
          (λ _.
            if_elim (Raises org u.expected_revision) (is_unchanged org u t) (λ _. tt)
              (λ _.
                raised (snapshot_revision org t) u.expected_revision e
                  (write-raises org period u actor t))))
  where
    raised : (a b : ℕ) {c : ℕ} → not (a == b) ≡ false → a < c → b + 1 ≤ c
    raised a b h k = ground arith

conflict :
    (org : String) (period : ℕ) (u : Update) (actor : String) (t : Tables)
    → u.expected_revision < snapshot_revision org t
    → configure org period u actor t ≡ threw revision_conflict
unfolding configure
conflict org period u actor t h = rw (differs (snapshot_revision org t) u.expected_revision h) refl
  where
    differs : (a b : ℕ) → b < a → (a == b) ≡ false
    differs a b h = ground arith

-- After a change of an entitlement, every later change of the same organization's that expects the same revision
-- or an older one is refused as a conflict, whatever calls come in between.
pub configure-stale :
    (org actor actor' : String) (period period' : ℕ) (u u' : Update) (t v : Tables) (cs : List Call)
    → configure org period u actor t ≡ done v true
    → u'.expected_revision ≤ u.expected_revision
    → configure org period' u' actor' (run cs v) ≡ threw revision_conflict
configure-stale org actor actor' period period' u u' t v cs first older =
    let raised =
      subst (Raises org u.expected_revision) first (configure-Raises org period u actor t) in
    conflict org period' u' actor' (run cs v)
      (omega (arith, older, run-IsPast org (u.expected_revision + 1) cs v raised))
