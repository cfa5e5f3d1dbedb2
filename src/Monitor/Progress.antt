-- ===== src/Monitor/Progress.antt =====
-- src/services/releaseMonitor.ts: what a pass of the monitor does to the releases that it claims.
use poolstatis.Common.{
  ℕ, ◌<◌, ◌≡◌, refl, sym, subst, ◌∙◌, inl, inr, false, some, String, List, [], ◌∷◌, Map, get, any,
  str_eq, eq_iff, Bool-cases, Option-cases, All,
}
use poolstatis.Monitor.Attempts.{begin-other, finish_rows-other}
use poolstatis.Monitor.Passes.{Environment, RunResult, attempt, process, process_all}
use poolstatis.Monitor.Settled.{
  due_at, Known, decide-Settles, update_row-Known, update_row-other, finish-not_due,
}
use poolstatis.Monitor.Tables.{Options, Row, Tables, is_due, begin, Update, finish, scheduled, ends}

finish-Known :
    (project id key : String) (count : ℕ) (u : Update) (now : ℕ) (t : Tables) (x p : String)
    → Known t.releases x p
    → Known (finish project id key count u now t).releases x p
unfolding finish scheduled
finish-Known project id key count u now t x p h =
    update_row-Known project id (scheduled count u) t.releases x p (λ r. refl) (λ r. refl) h

due_at-same :
    (o : Options) (now : ℕ) (t t' : Tables) (x : String) (q : Row)
    → get t.releases x ≡ some q
    → get t'.releases x ≡ some q
    → any (ends o q.project_id q.id) t'.attempts ≡ any (ends o q.project_id q.id) t.attempts
    → due_at o now t' x ≡ due_at o now t x
unfolding due_at is_due
due_at-same o now t t' x q h h' e = rw (h, h', e, due_at) refl

finish-other :
    (o : Options) (now : ℕ) (project id key : String) (count : ℕ) (u : Update) (t : Tables)
    (x p : String)
    → Known t.releases x p
    → str_eq id x ≡ false
    → due_at o now
        (finish project id key count u now
          (record t { attempts = (begin project id key now t.attempts).1 }))
        x
      ≡ due_at o now t x
unfolding finish
finish-other o now project id key count u t x p (q, (h, (i, _))) k =
    let k' = subst (λ (y : String). str_eq id y ≡ false) (sym i) k in
    due_at-same o now t
      (finish project id key count u now
        (record t { attempts = (begin project id key now t.attempts).1 }))
      x q h (update_row-other project id x (scheduled count u) t.releases k ∙ h)
      (finish_rows-other o q.project_id q.id project id key u now
          (begin project id key now t.attempts).1 k'
        ∙ begin-other o q.project_id q.id project id key now t.attempts k')

-- The attempt of one release leaves another one as it was.
attempt-other :
    (e : Environment) (o : Options) (now deployed_at : ℕ) (r : Row) (t : Tables) (x p : String)
    → Known t.releases x p
    → str_eq r.id x ≡ false
    → due_at o now (attempt e o now deployed_at r t).0 x ≡ due_at o now t x
unfolding attempt
attempt-other e o now deployed_at r t x p h k = finish-other o now r.project_id r.id _ _ _ t x p h k

attempt-own :
    (e : Environment) (o : Options) (now deployed_at : ℕ) (r : Row) (t : Tables)
    → 0 < o.base_retry_ms
    → 0 < o.max_retry_ms
    → Known t.releases r.id r.project_id
    → due_at o now (attempt e o now deployed_at r t).0 r.id ≡ false
unfolding attempt
attempt-own e o now deployed_at r t p q (s, (h, (i, k))) =
    finish-not_due o now _ _ r s t (decide-Settles e o now _ _ r p q) h i k

-- A row that is not due stays so while other releases, or its own one again, are processed.
process-keeps :
    (e : Environment) (o : Options) (now : ℕ) (r : Row) (s : Tables × RunResult) (x p : String)
    → 0 < o.base_retry_ms
    → 0 < o.max_retry_ms
    → Known s.0.releases r.id r.project_id
    → Known s.0.releases x p
    → due_at o now s.0 x ≡ false
    → due_at o now (process e o now r s).0 x ≡ false
unfolding process
process-keeps e o now r (t, n) x p b m own known h = elim (Option-cases r.deployed_at) [
  | inl f ↦ rw (f, process) h
  | inr (d, f) ↦
      rw (f, process)
        (elim (Bool-cases (str_eq r.id x)) [
          | inl k ↦
              subst (λ (y : String). due_at o now (attempt e o now d r t).0 y ≡ false)
                ((eq_iff r.id x).0 k) (attempt-own e o now d r t b m own)
          | inr k ↦ attempt-other e o now d r t x p known k ∙ h
        ])
]

process-settles :
    (e : Environment) (o : Options) (now : ℕ) (r : Row) (s : Tables × RunResult)
    → 0 < o.base_retry_ms
    → 0 < o.max_retry_ms
    → Known s.0.releases r.id r.project_id
    → (d : ℕ) → r.deployed_at ≡ some d
    → due_at o now (process e o now r s).0 r.id ≡ false
unfolding process
process-settles e o now r (t, n) b m own d f = rw (f, process) (attempt-own e o now d r t b m own)

process-Known :
    (e : Environment) (o : Options) (now : ℕ) (r : Row) (s : Tables × RunResult) (x p : String)
    → Known s.0.releases x p
    → Known (process e o now r s).0.releases x p
unfolding process attempt
process-Known e o now r (t, n) x p h = elim (Option-cases r.deployed_at) [
  | inl f ↦ rw (f, process) h
  | inr (d, f) ↦ rw (f, process) (finish-Known r.project_id r.id _ _ _ now _ x p h)
]

-- Every claimed row that is processed ends up not due, and stays so.
abbrev pub Claimed : Map Row → Row → Type 0
Claimed rows r = Known rows r.id r.project_id × ((d : ℕ) × (r.deployed_at ≡ some d))

Claimed-process :
    (e : Environment) (o : Options) (now : ℕ) (r : Row) (s : Tables × RunResult) (rows : List Row)
    → All (Claimed s.0.releases) rows
    → All (Claimed (process e o now r s).0.releases) rows
Claimed-process e o now r s [] h = tt
Claimed-process e o now r s (q ∷ rows) ((known, deployed), h) = (
  (process-Known e o now r s q.id q.project_id known, deployed),
  Claimed-process e o now r s rows h,
)

process_all-keeps :
    (e : Environment) (o : Options) (now : ℕ) (rows : List Row) (s : Tables × RunResult)
    (x p : String)
    → 0 < o.base_retry_ms
    → 0 < o.max_retry_ms
    → All (Claimed s.0.releases) rows
    → Known s.0.releases x p
    → due_at o now s.0 x ≡ false
    → due_at o now (process_all e o now rows s).0 x ≡ false
unfolding process_all
process_all-keeps e o now [] s x p b m h known k = k
process_all-keeps e o now (r ∷ rows) s x p b m ((own, _), h) known k =
    process_all-keeps e o now rows (process e o now r s) x p b m
      (Claimed-process e o now r s rows h) (process-Known e o now r s x p known)
      (process-keeps e o now r s x p b m own known k)

pub process_all-settles :
    (e : Environment) (o : Options) (now : ℕ) (rows : List Row) (s : Tables × RunResult)
    → 0 < o.base_retry_ms
    → 0 < o.max_retry_ms
    → All (Claimed s.0.releases) rows
    → All (λ r. due_at o now (process_all e o now rows s).0 r.id ≡ false) rows
unfolding process_all
process_all-settles e o now [] s b m h = tt
process_all-settles e o now (r ∷ rows) s b m ((own, (d, f)), h) = (
  process_all-keeps e o now rows (process e o now r s) r.id r.project_id b m
      (Claimed-process e o now r s rows h) (process-Known e o now r s r.id r.project_id own)
      (process-settles e o now r s b m own d f),
  process_all-settles e o now rows (process e o now r s) b m (Claimed-process e o now r s rows h),
)
