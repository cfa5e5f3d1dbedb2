-- ===== src/BufferedStore/Promises.antt =====
-- src/stores/bufferedEventStore.ts: the promises of both kinds of call, over a run.
use poolstatis.Common.{◌≡◌, sym, ◌∙◌, List, [], ◌∷◌, ◌++◌, Perm}
use mathlib.Core.List.{append-nil, append_assoc}
use mathlib.Core.List.Perm
use poolstatis.BufferedStore.State.{Settings, Buffer}
use poolstatis.BufferedStore.Steps.{
  Event, call, idempotent_call, timer, answer, idempotent_answer, append, timer_fires,
  append_returns, step, run,
}
use poolstatis.BufferedStore.Safety.{IsSafe}
use poolstatis.BufferedStore.Answers.{promises, admits_run, run-promises}
use poolstatis.BufferedStore.Queueing.{
  same-Perm, idempotent_promises, idempotent_admits, idempotent_admits_run,
  half-idempotent_promises, append-half, timer_fires-half, append_returns-half,
  append_idempotent-idempotent_promises, idempotent_returns-Perm,
}

module _ {E : Type 0} where
  step-Perm :
      (c : Settings) (e : Event E) (s : Buffer E)
      → Perm (idempotent_promises s ++ idempotent_admits c e s) (idempotent_promises (step c e s))
  unfolding step idempotent_admits
  step-Perm c (call caller events) s = same-Perm (
      append-nil _
      ∙ sym
          (half-idempotent_promises (append c caller events s).0 s (append-half c caller events s)))
  step-Perm c (idempotent_call caller events) s =
      same-Perm (append_idempotent-idempotent_promises c caller events s)
  step-Perm c timer s =
      same-Perm
        (append-nil _ ∙ sym (half-idempotent_promises (timer_fires c s) s (timer_fires-half c s)))
  step-Perm c (answer result) s = same-Perm (
      append-nil _
      ∙ sym
          (half-idempotent_promises (append_returns c result s) s (append_returns-half c result s)))
  step-Perm c (idempotent_answer i result) s =
      Perm.trans (same-Perm (append-nil _)) (idempotent_returns-Perm c i result s)

  run-Perm :
      (c : Settings) (es : List (Event E)) (s : Buffer E)
      → Perm
          (idempotent_promises s ++ idempotent_admits_run c es s)
          (idempotent_promises (run c es s))
  unfolding run idempotent_admits_run
  run-Perm c [] s = same-Perm (append-nil _)
  run-Perm c (e ∷ es) s =
      Perm.trans
        (same-Perm (sym (append_assoc (idempotent_promises s) (idempotent_admits c e s) _)))
        (Perm.trans (Perm.append_right (idempotent_admits_run c es (step c e s)) (step-Perm c e s))
          (run-Perm c es (step c e s)))

  -- Over any events, from a safe buffer: the promises of `append`, those that are settled in the order in
  -- which they are and then those that wait, are at the end those of the start followed by the calls that
  -- were admitted, in the order of the calls; and the promises of `appendIdempotent`, settled or not, are
  -- those of the start and of the calls that were admitted, each as often. So no promise of an admitted
  -- call is lost, none is settled twice, and appends are answered in the order of their calls.
  pub run-answered :
      (c : Settings) (es : List (Event E)) (s : Buffer E)
      → IsSafe c s
      → (promises s ++ admits_run c es s ≡ promises (run c es s))
        × Perm
            (idempotent_promises s ++ idempotent_admits_run c es s)
            (idempotent_promises (run c es s))
  run-answered c es s h = (run-promises c es s h, run-Perm c es s)
