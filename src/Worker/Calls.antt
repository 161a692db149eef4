-- ===== src/Worker/Calls.antt =====
-- The calls of the queue that the events of worker/src/index.ts are, and whose they are.
use cloudops_sentinel.Base.{
  ℕ, String, ◌≡◌, refl, Bool, true, false, Option, none, some, List, [], ◌∷◌, ◌++◌, if◌then◌else◌,
  All, All-append,
}
use cloudops_sentinel.Store.{Collection}
use cloudops_sentinel.Types.Job.{DiagnosticJob}
use cloudops_sentinel.Queue.{JobQueueConfig}
use cloudops_sentinel.Queue.History.{QueueEvent}
use cloudops_sentinel.Processor.{failure_of}
use cloudops_sentinel.Worker.{
  WorkerState, WorkerEvent, Work, starting, processing, recovers, fills, claims, rejects, beats,
  succeeds, throws, signals, loop_ends, exits, work_of, step,
}

module _ (c : Collection DiagnosticJob) (config : JobQueueConfig) (worker_id : String)
    (concurrency : ℕ) where
  -- The calls of the queue that an event is, for the work that it is about.
  abbrev pub work_calls : WorkerEvent → Option Work → List QueueEvent
  work_calls (claims id now) (some starting) = QueueEvent.claims worker_id now ∷ []
  work_calls (beats id now) (some (processing job_id)) =
      QueueEvent.heartbeats job_id worker_id now ∷ []
  work_calls (succeeds id summary now) (some (processing job_id)) =
      QueueEvent.completes job_id summary now ∷ []
  work_calls (throws id e now random) (some (processing job_id)) =
      QueueEvent.fails job_id (failure_of e now) now random ∷ []
  work_calls _ _ = []

  abbrev pub queue_calls : WorkerState → WorkerEvent → List QueueEvent
  queue_calls s (recovers now) = if s.looping then QueueEvent.recovers now ∷ [] else []
  queue_calls s (claims id now) = work_calls (claims id now) (work_of id s.inflight)
  queue_calls s (beats id now) = work_calls (beats id now) (work_of id s.inflight)
  queue_calls s (succeeds id summary now) =
      work_calls (succeeds id summary now) (work_of id s.inflight)
  queue_calls s (throws id e now random) =
      work_calls (throws id e now random) (work_of id s.inflight)
  queue_calls s _ = []

  abbrev pub history_of : WorkerState → List WorkerEvent → List QueueEvent
  history_of s [] = []
  history_of s (e ∷ es) =
      (if s.exited then [] else queue_calls s e)
      ++ history_of (if s.exited then s else step c config worker_id concurrency s e) es

  -- A claim or a heartbeat of this worker.
  abbrev pub IsOwn : QueueEvent → Type 0
  IsOwn (QueueEvent.claims w now) = w ≡ worker_id
  IsOwn (QueueEvent.heartbeats job_id w now) = w ≡ worker_id
  IsOwn _ = Unit

  recovers-IsOwn : (b : Bool) (now : ℕ) → All IsOwn (if b then QueueEvent.recovers now ∷ [] else [])
  recovers-IsOwn true now = (tt, tt)
  recovers-IsOwn false now = tt

  work-IsOwn : (e : WorkerEvent) (w : Option Work) → All IsOwn (work_calls e w)
  work-IsOwn (claims id now) (some starting) = (refl, tt)
  work-IsOwn (claims id now) (some (processing _)) = tt
  work-IsOwn (claims id now) none = tt
  work-IsOwn (rejects id) w = tt
  work-IsOwn (beats id now) (some (processing job_id)) = (refl, tt)
  work-IsOwn (beats id now) (some starting) = tt
  work-IsOwn (beats id now) none = tt
  work-IsOwn (succeeds id summary now) (some (processing job_id)) = (tt, tt)
  work-IsOwn (succeeds id summary now) (some starting) = tt
  work-IsOwn (succeeds id summary now) none = tt
  work-IsOwn (throws id e now random) (some (processing job_id)) = (tt, tt)
  work-IsOwn (throws id e now random) (some starting) = tt
  work-IsOwn (throws id e now random) none = tt
  work-IsOwn (recovers now) w = tt
  work-IsOwn fills w = tt
  work-IsOwn signals w = tt
  work-IsOwn loop_ends w = tt
  work-IsOwn (exits n) w = tt

  calls-IsOwn : (s : WorkerState) (e : WorkerEvent) → All IsOwn (queue_calls s e)
  calls-IsOwn s (recovers now) = recovers-IsOwn s.looping now
  calls-IsOwn s fills = tt
  calls-IsOwn s (claims id now) = work-IsOwn (claims id now) (work_of id s.inflight)
  calls-IsOwn s (rejects id) = tt
  calls-IsOwn s (beats id now) = work-IsOwn (beats id now) (work_of id s.inflight)
  calls-IsOwn s (succeeds id summary now) =
      work-IsOwn (succeeds id summary now) (work_of id s.inflight)
  calls-IsOwn s (throws id e now random) =
      work-IsOwn (throws id e now random) (work_of id s.inflight)
  calls-IsOwn s signals = tt
  calls-IsOwn s loop_ends = tt
  calls-IsOwn s (exits n) = tt

  IsOwn-unless_exited :
      (b : Bool) (calls : List QueueEvent) → All IsOwn calls → All IsOwn (if b then [] else calls)
  IsOwn-unless_exited true calls h = tt
  IsOwn-unless_exited false calls h = h

  pub history-IsOwn : (s : WorkerState) (es : List WorkerEvent) → All IsOwn (history_of s es)
  history-IsOwn s [] = tt
  history-IsOwn s (e ∷ es) =
      All-append IsOwn (if s.exited then [] else queue_calls s e)
        (history_of (if s.exited then s else step c config worker_id concurrency s e) es)
        (IsOwn-unless_exited s.exited (queue_calls s e) (calls-IsOwn s e))
        (history-IsOwn (if s.exited then s else step c config worker_id concurrency s e) es)
