-- ===== src/Worker/Drained.antt =====
-- The shutdown of worker/src/index.ts: the process exits when nothing is in flight any more.
use cloudops_sentinel.Base.{
  Bool-cases, inl, inr, ℕ, zero, suc, String, ◌≡◌, refl, sym, subst, Bool, true, false, not, ◌&&◌,
  Option, none, some, List, [], ◌∷◌, Memᴰ, arith, if◌then◌else◌, any, All, All-mem, All-mono,
}
use cloudops_sentinel.Store.{Collection}
use cloudops_sentinel.Types.Job.{DiagnosticJob}
use cloudops_sentinel.Queue.{JobQueueConfig, recover_abandoned}
use cloudops_sentinel.Worker.{
  WorkerState, WorkerEvent, recovers, fills, claims, rejects, beats, succeeds, throws, signals,
  loop_ends, exits, work_of, fill, nth, is_among, try_exit, step, run, started,
}
use cloudops_sentinel.Worker.Filled.{fill_stopped}
use cloudops_sentinel.Worker.Waiting.{
  snapshot-AllAmong, none_left, IsWaiting, IsOrderly, Shrinks-IsOrderly, jobs-Shrinks, work-Shrinks,
  fill_keeps,
}

module _ (c : Collection DiagnosticJob) (config : JobQueueConfig) (worker_id : String)
    (concurrency : ℕ) where
  -- The inner loop starts work only where no shutdown has begun.
  fill-IsOrderly :
      (s : WorkerState)
      → s.exited ≡ false
      → IsOrderly s
      → IsOrderly (fill concurrency concurrency s)
  fill-IsOrderly s here o = elim (Bool-cases s.running) [
    | inl on ↦
        let (k0, k1, k2) = fill_keeps c config worker_id concurrency concurrency s in
        record {
          waits = subst (All (IsWaiting (fill concurrency concurrency s))) (sym k1) (
              All-mono (IsWaiting s) (IsWaiting (fill concurrency concurrency s)) s.awaited
                (λ ids w. absurd (cc (w.0, on))) o.waits);
          gone = λ e. absurd (cc (e, k2, here));
        }
    | inr off ↦ subst IsOrderly (sym (fill_stopped concurrency concurrency s off)) o
  ]

  nth_mem : {A : Type 0} (n : ℕ) (xs : List A) {x : A} → nth n xs ≡ some x → Memᴰ x xs
  nth_mem n [] h = cc
  nth_mem zero (y ∷ ys) h = Memᴰ.head (ground arith)
  nth_mem (suc n) (y ∷ ys) h = Memᴰ.tail (nth_mem n ys h)

  exit-IsOrderly :
      (ids : List ℕ) (s : WorkerState)
      → Memᴰ ids s.awaited
      → s.exited ≡ false
      → IsOrderly s
      → IsOrderly (try_exit c config worker_id concurrency (some ids) s)
  unfolding try_exit
  exit-IsOrderly ids s m here o =
      by_test (any (λ x. is_among ids x.0) s.inflight) s.looping refl refl
    where
      by_test :
          (left looping : Bool)
          → any (λ x. is_among ids x.0) s.inflight ≡ left
          → s.looping ≡ looping
          → IsOrderly (if not left && not looping then record s { exited = true } else s)
      by_test true looping e f = o
      by_test false true e f = o
      by_test false false e f = record {
        waits = o.waits;
        gone = λ h. (none_left ids s.inflight (All-mem (IsWaiting s) s.awaited o.waits m).1 e, f);
      }

  try_exit-IsOrderly :
      (n : ℕ) (s : WorkerState) (w : Option (List ℕ))
      → nth n s.awaited ≡ w
      → s.exited ≡ false
      → IsOrderly s
      → IsOrderly (try_exit c config worker_id concurrency w s)
  unfolding try_exit
  try_exit-IsOrderly n s none h here o = o
  try_exit-IsOrderly n s (some ids) h here o = exit-IsOrderly ids s (nth_mem n s.awaited h) here o

  either-IsOrderly :
      (b : Bool) (s t : WorkerState)
      → (b ≡ true → IsOrderly s)
      → (b ≡ false → IsOrderly t)
      → IsOrderly (if b then s else t)
  either-IsOrderly true s t h k = h refl
  either-IsOrderly false s t h k = k refl

  step-IsOrderly :
      (s : WorkerState) (e : WorkerEvent)
      → s.exited ≡ false
      → IsOrderly s
      → IsOrderly (step c config worker_id concurrency s e)
  unfolding step
  step-IsOrderly s fills here o =
      either-IsOrderly s.looping (fill concurrency concurrency s) s (λ on. fill-IsOrderly s here o)
        (λ off. o)
  step-IsOrderly s (recovers now) here o =
      either-IsOrderly s.looping (record s { jobs = (recover_abandoned now s.jobs).0 }) s
        (λ on.
          Shrinks-IsOrderly s _
            (jobs-Shrinks c config worker_id concurrency (recover_abandoned now s.jobs).0 s) here o)
        (λ off. o)
  step-IsOrderly s (claims id now) here o =
      Shrinks-IsOrderly s _
        (work-Shrinks c config worker_id concurrency (claims id now) (work_of id s.inflight) s) here
        o
  step-IsOrderly s (rejects id) here o =
      Shrinks-IsOrderly s _
        (work-Shrinks c config worker_id concurrency (rejects id) (work_of id s.inflight) s) here o
  step-IsOrderly s (beats id now) here o =
      Shrinks-IsOrderly s _
        (work-Shrinks c config worker_id concurrency (beats id now) (work_of id s.inflight) s) here
        o
  step-IsOrderly s (succeeds id summary now) here o =
      Shrinks-IsOrderly s _
        (work-Shrinks c config worker_id concurrency (succeeds id summary now)
          (work_of id s.inflight) s)
        here o
  step-IsOrderly s (throws id e now random) here o =
      Shrinks-IsOrderly s _
        (work-Shrinks c config worker_id concurrency (throws id e now random)
          (work_of id s.inflight) s)
        here o
  step-IsOrderly s signals here o = record {
    waits = (
      (refl, snapshot-AllAmong s.inflight),
      All-mono (IsWaiting s) _ s.awaited (λ ids w. (refl, w.1)) o.waits,
    );
    gone = λ e. absurd (cc (e, here));
  }
  step-IsOrderly s loop_ends here o =
      either-IsOrderly s.running s (record s { looping = false }) (λ on. o)
        λ off. record { waits = o.waits; gone = λ e. absurd (cc (e, here)) }
  step-IsOrderly s (exits n) here o = try_exit-IsOrderly n s (nth n s.awaited) refl here o

  pub run-IsOrderly :
      (s : WorkerState) (es : List WorkerEvent)
      → IsOrderly s
      → IsOrderly (run c config worker_id concurrency s es)
  unfolding run
  run-IsOrderly s [] o = o
  run-IsOrderly s (e ∷ es) o =
      run-IsOrderly (if s.exited then s else step c config worker_id concurrency s e) es (
        either-IsOrderly s.exited s (step c config worker_id concurrency s e) (λ gone. o)
          (λ here. step-IsOrderly s e here o))

  -- Whatever happens after the start, in any order and with any number of signals: once a signal
  -- came, the worker is stopped and each of its shutdowns waits for all that is in flight, so that
  -- the process exits only when the loop has ended and no call of the processor is in flight.
  pub shutdown_drains :
      (jobs : List DiagnosticJob) (es : List WorkerEvent)
      → let s = run c config worker_id concurrency (started jobs) es in
        All (IsWaiting s) s.awaited × (s.exited ≡ true → (s.inflight ≡ []) × (s.looping ≡ false))
  shutdown_drains jobs es =
      let o =
        run-IsOrderly (started jobs) es (record { waits = tt; gone = λ e. absurd (cc (e)) }) in
      (o.waits, o.gone)
