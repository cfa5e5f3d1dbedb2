-- ===== src/Metering/Caps.antt =====
-- src/stores/postgresEventStore.ts and src/services/usageEntitlements.ts: the usage of a month stays within
-- the cap and within the safe integers.
use poolstatis.Common.{
  ℕ, ◌+◌, ◌≤◌, ◌<◌, ◌≡◌, refl, subst, inl, inr, Bool, true, false, not, ◌&&◌, ◌||◌, Option, none,
  some, String, List, [], ◌∷◌, get, get-set, str_eq, eq_iff, eq_refl, ◌==◌, ltb, length, arith,
  Bool-cases, if_elim,
}
use poolstatis.Metering.Table.{
  Event, billable, Counter, Tables, Answer, committed, used, add_usage, hard_limit_of,
}
use poolstatis.Metering.Insert.{max_meter_quantity, exceeds, insert_events, write_usage}
use poolstatis.Metering.Entitlements.{
  Update, configure, snapshot_revision, is_below, is_unchanged, write_entitlement,
}
use poolstatis.Metering.Calls.{
  Call, appends, batches, backfills, configures, step, run, IsClosed, appends_kept, batches_kept,
  backfills_kept,
}
use poolstatis.Metering.Counts.{used-add_usage}

-- The usage of an organization is within its cap.
abbrev pub IsWithin : Option ℕ → ℕ → Type 0
IsWithin none n = Unit
IsWithin (some limit) n = n ≤ limit

pub record IsCapped (now : ℕ) (t : Tables) : Type 0 where
  pub within :
      (org : String) → IsWithin (hard_limit_of (get t.entitlements org)) (used org now t.counters)
  pub later : (org : String) (period : ℕ) → now < period → used org period t.counters ≡ 0
  pub safe : (org : String) (period : ℕ) → used org period t.counters ≤ max_meter_quantity

IsWithin-iff : (cap : Option ℕ) (n : ℕ) → exceeds cap n ≡ false → IsWithin cap n
unfolding exceeds
IsWithin-iff none n h = tt
IsWithin-iff (some limit) n h = ground arith

zero-IsWithin : (cap : Option ℕ) (n : ℕ) → n ≡ 0 → IsWithin cap n
zero-IsWithin none n h = tt
zero-IsWithin (some limit) n h = omega arith

-- Time goes on.
pub later-IsCapped : (now next : ℕ) (t : Tables) → now ≤ next → IsCapped now t → IsCapped next t
later-IsCapped now next t h k = elim (Bool-cases (ltb now next)) [
  | inl e ↦ record {
    within = λ org. zero-IsWithin _ _ (k.later org next (ground arith));
    later = λ org period after. k.later org period (omega arith);
    safe = k.safe;
  }
  | inr e ↦ let same : now ≡ next = ground arith in subst (λ (n : ℕ). IsCapped n t) same k
]

neither : (a b : Bool) → (a || b) ≡ false → (a ≡ false) × (b ≡ false)
neither false false h = (refl, refl)
neither false true h = absurd cc
neither true b h = absurd cc

used_self :
    (org : String) (period n : ℕ) (cs : List Counter)
    → used org period (add_usage org period n cs) ≡ used org period cs + n
used_self org period n cs = ground (arith, used-add_usage org org period period n cs, eq_refl org)

used_apart :
    (org o : String) (period p n : ℕ) (cs : List Counter)
    → (str_eq org o && period == p) ≡ false
    → used o p (add_usage org period n cs) ≡ used o p cs
used_apart org o period p n cs h =
    let sum = rw h at (used-add_usage org o period p n cs) in omega (arith, sum)

-- A property of every counter holds after an addition, if it holds of the sum.
used_cases :
    (P : String → ℕ → ℕ → Type 0) (org : String) (period n : ℕ) (cs : List Counter)
    → P org period (used org period cs + n)
    → ((o : String) (p : ℕ) → P o p (used o p cs))
    → (o : String) (p : ℕ) → P o p (used o p (add_usage org period n cs))
used_cases P org period n cs new old o p = elim (Bool-cases (str_eq org o && period == p)) [
  | inr e ↦ rw (used_apart org o period p n cs e) (old o p)
  | inl e ↦
      let (same, now) = hit (str_eq org o) (period == p) e in
      subst (λ (x : String). P x p (used x p (add_usage org period n cs))) ((eq_iff org o).0 same)
        (subst (λ (y : ℕ). P org y (used org y (add_usage org period n cs))) (equal period p now)
          (rw (used_self org period n cs) new))
]
  where
    hit : (a b : Bool) → (a && b) ≡ true → (a ≡ true) × (b ≡ true)
    hit true true h = (refl, refl)
    hit true false h = absurd cc
    hit false b h = absurd cc

    equal : (a b : ℕ) → (a == b) ≡ true → a ≡ b
    equal a b h = ground arith

metered-IsCapped :
    (period : ℕ) (t : Tables) (org source : String) (first : Event) (events : List Event)
    → (ltb max_meter_quantity (used org period t.counters + length (billable events))
        || exceeds
            (hard_limit_of (get t.entitlements org))
            (used org period t.counters + length (billable events)))
      ≡ false
    → IsCapped period t
    → IsCapped period (write_usage (record { org_id = org; period = period }) first events source t)
unfolding write_usage insert_events
metered-IsCapped period t org source first events guard h =
    let n = length (billable events) in
    let (small, low) =
      neither (ltb max_meter_quantity (used org period t.counters + n))
        (exceeds (hard_limit_of (get t.entitlements org)) (used org period t.counters + n)) guard in
    record {
      within = λ o.
          used_cases (λ x p m. p ≡ period → IsWithin (hard_limit_of (get t.entitlements x)) m) org
            period n t.counters (λ _. IsWithin-iff _ _ low) (λ x p e. rw e (h.within x)) o period
            refl;
      later = λ o p.
          used_cases (λ x p m. period < p → m ≡ 0) org period n t.counters
            (λ e. absurd (omega arith)) (λ x p e. h.later x p e) o p;
      safe = λ o p.
          used_cases (λ x p m. m ≤ max_meter_quantity) org period n t.counters (ground arith) h.safe
            o p;
    }

IsCapped-IsClosed : (period : ℕ) → IsClosed period (IsCapped period)
IsCapped-IsClosed period = record {
  plain = λ t events none_left h.
      unfold insert_events in record { within = h.within; later = h.later; safe = h.safe };
  metered = λ t org source first events same within h.
      metered-IsCapped period t org source first events within h;
  noted = λ t hs ws h. record { within = h.within; later = h.later; safe = h.safe };
}

below-IsWithin : (cap : Option ℕ) (n : ℕ) → is_below cap n ≡ false → IsWithin cap n
unfolding is_below
below-IsWithin none n h = tt
below-IsWithin (some limit) n h = ground arith

write-IsCapped :
    (org : String) (period : ℕ) (u : Update) (actor : String) (t : Tables)
    → is_below u.hard_limit (used org period t.counters) ≡ false
    → IsCapped period t
    → IsCapped period (write_entitlement org period u actor t)
unfolding write_entitlement hard_limit_of
write-IsCapped org period u actor t high h = record {
  within = λ o. elim (Bool-cases (str_eq org o)) [
    | inl e ↦
        rw (get-set t.entitlements org o _, e)
          (subst (λ (x : String). IsWithin u.hard_limit (used x period t.counters))
            ((eq_iff org o).0 e) (below-IsWithin u.hard_limit _ high))
    | inr e ↦ rw (get-set t.entitlements org o _, e) (h.within o)
  ];
  later = h.later;
  safe = h.safe;
}

configure-IsCapped :
    (org : String) (period : ℕ) (u : Update) (actor : String) (t : Tables)
    → IsCapped period t
    → IsCapped period (committed t (configure org period u actor t))
unfolding configure committed
configure-IsCapped org period u actor t h =
    if_elim (λ (a : Answer Bool). IsCapped period (committed t a))
      (not (snapshot_revision org t == u.expected_revision)) (λ _. h)
      (λ _.
        if_elim (λ (a : Answer Bool). IsCapped period (committed t a))
          (is_below u.hard_limit (used org period t.counters)) (λ _. h)
          (λ high.
            if_elim (λ (a : Answer Bool). IsCapped period (committed t a)) (is_unchanged org u t)
              (λ _. h) (λ _. write-IsCapped org period u actor t high h)))

-- The month of a call.
unfoldable pub month_of : Call → ℕ
month_of (appends s events stored) = s.period
month_of (batches s locked r source now stored) = s.period
month_of (backfills s b source stored) = s.period
month_of (configures org period u actor) = period

step-IsCapped : (c : Call) (t : Tables) → IsCapped (month_of c) t → IsCapped (month_of c) (step c t)
unfolding step month_of
step-IsCapped (appends s events stored) t h =
    appends_kept (IsCapped-IsClosed s.period) s events stored t refl h
step-IsCapped (batches s locked r source now stored) t h =
    batches_kept (IsCapped-IsClosed s.period)
      (λ t bs h. record { within = h.within; later = h.later; safe = h.safe }) s locked r source now
      stored t refl h
step-IsCapped (backfills s b source stored) t h =
    backfills_kept (IsCapped-IsClosed s.period) s b source stored t refl h
step-IsCapped (configures org period u actor) t h = configure-IsCapped org period u actor t h

-- The months of the calls do not fall.
abbrev pub IsForward : ℕ → List Call → Type 0
IsForward now [] = Unit
IsForward now (c ∷ cs) = (now ≤ month_of c) × IsForward (month_of c) cs

unfoldable pub last_month : ℕ → List Call → ℕ
last_month now [] = now
last_month now (c ∷ cs) = last_month (month_of c) cs

-- After any calls whose months do not fall, every organization's usage of the last month is within its cap as it
-- is by then, no usage is counted for a later month, and every counter is a safe integer, if this held
-- at the month of the start.
pub run-IsCapped :
    (cs : List Call) (now : ℕ) (t : Tables)
    → IsForward now cs
    → IsCapped now t
    → IsCapped (last_month now cs) (run cs t)
unfolding run last_month
run-IsCapped [] now t f h = h
run-IsCapped (c ∷ cs) now t f h =
    run-IsCapped cs (month_of c) (step c t) f.1
      (step-IsCapped c t (later-IsCapped now (month_of c) t f.0 h))
