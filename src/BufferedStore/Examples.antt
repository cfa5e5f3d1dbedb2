-- ===== src/BufferedStore/Examples.antt =====
-- A run of the buffer on small batches.
use poolstatis.Common.{ℕ, ◌≡◌, refl, none, some, List, [], ◌∷◌, ◌++◌, min, Perm}
use poolstatis.BufferedStore.State.{
  Settings, Append, inserted, failed, start, take_batch, schedule_flush, request_flush,
}
use poolstatis.BufferedStore.Steps.{
  Event, call, idempotent_call, answer, idempotent_answer, append, enqueue, append_returns, pump,
  enqueue_idempotent, append_idempotent, pick, idempotent_returns, outcome_of, step, run, total,
  share,
}
use poolstatis.BufferedStore.Share.{granted, granted-share}
use poolstatis.BufferedStore.Safety.{IsSafe, start-IsSafe, run-IsSafe}
use poolstatis.BufferedStore.Answers.{promises, admits_run}
use poolstatis.BufferedStore.Queueing.{idempotent_promises, idempotent_admits_run}
use poolstatis.BufferedStore.Promises.{run-answered}

abbrev settings : Settings
settings = record { max_events = 3; max_pending_events = 6; max_concurrent = 1 }

-- Two small appends share a batch, and the third waits for the next round; the delegate inserts three
-- of four events in all.
abbrev day : List (Event ℕ)
day =
    call 1 (10 ∷ 11 ∷ [])
    ∷ call 2 (12 ∷ [])
    ∷ call 3 (13 ∷ [])
    ∷ idempotent_call 4 (14 ∷ [])
    ∷ answer (some 2)
    ∷ answer (some 1)
    ∷ idempotent_answer 0 none
    ∷ []

day_resolved :
    (run settings day start).resolved ≡ (1, inserted 2) ∷ (2, inserted 0) ∷ (3, inserted 1) ∷ []
unfolding run step append enqueue request_flush schedule_flush take_batch append_returns
    append_idempotent enqueue_idempotent pump idempotent_returns pick outcome_of
day_resolved = refl

day_idempotent_resolved : (run settings day start).idempotent_resolved ≡ (4, failed) ∷ []
unfolding run step append enqueue request_flush schedule_flush take_batch append_returns
    append_idempotent enqueue_idempotent pump idempotent_returns pick outcome_of
day_idempotent_resolved = refl

run-IsSafe_example : IsSafe settings (run settings day start)
run-IsSafe_example = run-IsSafe settings day start (start-IsSafe ℕ settings)

run-answered_example :
    (promises (start {E = ℕ}) ++ admits_run settings day start ≡ promises (run settings day start))
    × Perm
        (idempotent_promises (start {E = ℕ}) ++ idempotent_admits_run settings day start)
        (idempotent_promises (run settings day start))
run-answered_example = run-answered settings day start (start-IsSafe ℕ settings)

abbrev batch : List (Append ℕ)
batch = record { caller = 1; events = 10 ∷ 11 ∷ [] } ∷ record { caller = 2; events = 12 ∷ [] } ∷ []

granted-share_example : granted (share 0 2 batch) ≡ min (total batch) 2
granted-share_example = granted-share 2 batch
