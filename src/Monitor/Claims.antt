-- ===== src/Monitor/Claims.antt =====
-- src/services/releaseMonitor.ts: `claimDue`, and a pass as a whole.
use poolstatis.Common.{
  ℕ, ◌+◌, ◌-◌, ◌<◌, ◌≡◌, refl, sym, subst, ◌∙◌, inl, inr, Bool, true, false, ◌&&◌, not, none, some,
  String, List, [], ◌∷◌, length, Map, get, any, ltb, str_eq, eq_iff, Bool-cases, Option-cases,
  if_elim, arith, All,
}
use poolstatis.Monitor.Passes.{
  Environment, RunResult, attempt, counted, process, process_all, run_once,
}
use poolstatis.Monitor.Progress.{Claimed, process_all-settles}
use poolstatis.Monitor.Settled.{due_at, Known, update_row-Known}
use poolstatis.Monitor.Tables.{
  Options, AttemptStatus, running, waiting, failed, succeeded, Row, Attempt, Tables, is_due,
  is_past, due_time, due_no_later, ends, place, due_rows, limit, lease, claim_due,
}

-- The rows of a table with a primary key.
abbrev pub IsKeyed : Map Row → Type 0
IsKeyed [] = Unit
IsKeyed ((j, r) ∷ rows) = (r.id ≡ j) × ((get rows j ≡ none) × IsKeyed rows)

abbrev AllRows : (Row → Type 0) → Map Row → Type 0
AllRows P [] = Unit
AllRows P ((_, r) ∷ rows) = P r × AllRows P rows

AllRows-map :
    (P Q : Row → Type 0) (rows : Map Row)
    → ((r : Row) → P r → Q r)
    → AllRows P rows
    → AllRows Q rows
AllRows-map P Q [] f h = tt
AllRows-map P Q ((_, r) ∷ rows) f (p, h) = (f r p, AllRows-map P Q rows f h)

Known-cons :
    (j : String) (s : Row) (rows : Map Row) (x p : String)
    → get rows j ≡ none
    → Known rows x p
    → Known ((j, s) ∷ rows) x p
unfolding get
Known-cons j s rows x p absent (r, (h, k)) = elim (Bool-cases (str_eq j x)) [
  | inl e ↦
      let absent' = subst (λ (y : String). get rows y ≡ none) ((eq_iff j x).0 e) absent in absurd cc
  | inr e ↦ (r, (rw e h, k))
]

IsKeyed-Known : (rows : Map Row) → IsKeyed rows → AllRows (λ r. Known rows r.id r.project_id) rows
unfolding get
IsKeyed-Known [] h = tt
IsKeyed-Known ((j, r) ∷ rows) (e, (absent, h)) = (
  (r, (rw ((eq_iff j r.id).1 (sym e)) refl, (refl, refl))),
  AllRows-map _ _ rows (λ q. Known-cons j r rows q.id q.project_id absent) (IsKeyed-Known rows h),
)

place-All : (P : Row → Type 0) (r : Row) (rows : List Row) → P r → All P rows → All P (place r rows)
unfolding place
place-All P r [] p h = (p, tt)
place-All P r (q ∷ rows) p (s, h) =
    if_elim (All P) (due_no_later q r) {x = q ∷ place r rows} {y = r ∷ q ∷ rows}
      (λ _. (s, place-All P r rows p h)) (λ _. (p, (s, h)))

due_rows-All :
    (P Q : Row → Type 0) (o : Options) (now : ℕ) (attempts : List Attempt) (rows : Map Row)
    (sorted : List Row)
    → ((r : Row) → Q r → is_due o now attempts r ≡ true → P r)
    → AllRows Q rows
    → All P sorted
    → All P (due_rows o now attempts rows sorted)
unfolding due_rows
due_rows-All P Q o now attempts [] sorted f h k = k
due_rows-All P Q o now attempts ((_, r) ∷ rows) sorted f (q, h) k =
    due_rows-All P Q o now attempts rows _ f h
      (if_elim (All P) (is_due o now attempts r) (λ e. place-All P r sorted (f r q e) k) (λ _. k))

limit-All : (P : Row → Type 0) (n : ℕ) (rows : List Row) → All P rows → All P (limit n rows)
unfolding limit
limit-All P n [] h = tt
limit-All P n (r ∷ rows) (p, h) =
    if_elim (All P) (ltb 0 n) (λ _. (p, limit-All P (n - 1) rows h)) (λ _. tt)

no_third : (a b c : Bool) → (a && (b && (false && c))) ≡ true → false ≡ true
no_third true true c h = h
no_third true false c h = h
no_third false b c h = h

is_due-deployed :
    (o : Options) (now : ℕ) (attempts : List Attempt) (r : Row)
    → is_due o now attempts r ≡ true
    → (d : ℕ) × (r.deployed_at ≡ some d)
unfolding is_due is_past due_time
is_due-deployed o now attempts r h = elim (Option-cases r.deployed_at) [
  | inl e ↦
      let h' = rw (e, due_time) at h in
      let no = no_third _ _ (not (any (ends o r.project_id r.id) attempts)) h' in absurd cc
  | inr found ↦ found
]

lease-Known :
    (until : ℕ) (claimed : List Row) (rows : Map Row) (x p : String)
    → Known rows x p
    → Known (lease until claimed rows) x p
unfolding lease
lease-Known until [] rows x p h = h
lease-Known until (r ∷ claimed) rows x p h =
    lease-Known until claimed _ x p
      (update_row-Known r.project_id r.id _ rows x p (λ q. refl) (λ q. refl) h)

claim_due-Claimed :
    (o : Options) (now : ℕ) (t : Tables)
    → IsKeyed t.releases
    → All (Claimed (claim_due o now t).1.releases) (claim_due o now t).0
unfolding claim_due
claim_due-Claimed o now t h = limit-All _ o.batch_size _ (
    due_rows-All _ (λ r. Known t.releases r.id r.project_id) o now t.attempts t.releases []
      (λ r known due. (
        lease-Known (now + o.lease_ms)
            (limit o.batch_size (due_rows o now t.attempts t.releases [])) t.releases r.id
            r.project_id known,
        is_due-deployed o now t.attempts r due,
      ))
      (IsKeyed-Known t.releases h) tt)

-- When a pass ends, no release that it claimed is due at the time of the pass: its evaluation is over,
-- or the next one is later. The ids of the releases must be a key, and the base of the retry delay and
-- its cap positive.
pub run_once-settles :
    (e : Environment) (o : Options) (now : ℕ) (t : Tables)
    → IsKeyed t.releases
    → 0 < o.base_retry_ms
    → 0 < o.max_retry_ms
    → All (λ r. due_at o now (run_once e o now t).0 r.id ≡ false) (claim_due o now t).0
unfolding run_once
run_once-settles e o now t h b m =
    process_all-settles e o now (claim_due o now t).0 _ b m (claim_due-Claimed o now t h)

-- The three counters of a result.
abbrev pub handled : RunResult → ℕ
handled n = n.waiting + n.succeeded + n.failed

counted-handled :
    (c : AttemptStatus) (n : RunResult)
    → (handled (counted c n) ≡ handled n + 1) × ((counted c n).claimed ≡ n.claimed)
counted-handled running n = (omega arith, refl)
counted-handled waiting n = (omega arith, refl)
counted-handled failed n = (omega arith, refl)
counted-handled succeeded n = (omega arith, refl)

process-handled :
    (e : Environment) (o : Options) (now : ℕ) (r : Row) (s : Tables × RunResult) (d : ℕ)
    → r.deployed_at ≡ some d
    → (handled (process e o now r s).1 ≡ handled s.1 + 1)
      × ((process e o now r s).1.claimed ≡ s.1.claimed)
unfolding process
process-handled e o now r (t, n) d f = rw (f, process) (counted-handled (attempt e o now d r t).1 n)

process_all-handled :
    (e : Environment) (o : Options) (now : ℕ) (rows : List Row) (s : Tables × RunResult)
    → All (λ r. (d : ℕ) × (r.deployed_at ≡ some d)) rows
    → (handled (process_all e o now rows s).1 ≡ handled s.1 + length rows)
      × ((process_all e o now rows s).1.claimed ≡ s.1.claimed)
unfolding process_all
process_all-handled e o now [] s h = (omega arith, refl)
process_all-handled e o now (r ∷ rows) s ((d, f), h) =
    let (one, same) = process-handled e o now r s d f in
    let (more, same') = process_all-handled e o now rows (process e o now r s) h in
    (omega arith, same' ∙ same)

AllRows-any : (rows : Map Row) → AllRows (λ _. Unit {0}) rows
AllRows-any [] = tt
AllRows-any (_ ∷ rows) = (tt, AllRows-any rows)

claim_due-deployed :
    (o : Options) (now : ℕ) (t : Tables)
    → All (λ r. (d : ℕ) × (r.deployed_at ≡ some d)) (claim_due o now t).0
unfolding claim_due
claim_due-deployed o now t = limit-All _ o.batch_size _ (
    due_rows-All _ (λ _. Unit {0}) o now t.attempts t.releases []
      (λ r _ due. is_due-deployed o now t.attempts r due) (AllRows-any t.releases) tt)

-- A pass accounts for each release that it claims: those that wait, succeed and fail add up to those
-- claimed.
pub run_once-handled :
    (e : Environment) (o : Options) (now : ℕ) (t : Tables)
    → (run_once e o now t).1.claimed ≡ handled (run_once e o now t).1
unfolding run_once
run_once-handled e o now t =
    let (all, same) =
      process_all-handled e o now (claim_due o now t).0
        (
          (claim_due o now t).1,
          record { claimed = length (claim_due o now t).0; waiting = 0; succeeded = 0; failed = 0 },
        )
        (claim_due-deployed o now t) in
    omega arith
