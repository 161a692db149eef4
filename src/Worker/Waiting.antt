-- ===== src/Worker/Waiting.antt =====
-- What a shutdown of worker/src/index.ts waits for, and what the steps of a call in flight leave of it.
use cloudops_sentinel.Base.{
  ℕ, zero, suc, String, ◌≡◌, refl, sym, subst, ◌∙◌, inl, inr, Bool, true, false, not, ◌&&◌, Option,
  none, some, List, [], ◌∷◌, map, arith, ltb, nat_eq, if◌then◌else◌, Bool-cases, length, any, All,
  All-mono,
}
use cloudops_sentinel.Store.{Collection}
use cloudops_sentinel.Types.Job.{DiagnosticJob}
use cloudops_sentinel.Queue.{JobQueueConfig, claim}
use cloudops_sentinel.Worker.{
  WorkerState, WorkerEvent, Work, starting, processing, recovers, fills, claims, rejects, beats,
  succeeds, throws, signals, loop_ends, exits, removed, set_work, spawn, fill, claimed_work,
  work_step, is_among,
}

-- Each call in flight is one that a shutdown waits for.
abbrev pub AllAmong : List ℕ → List (ℕ × Work) → Type 0
AllAmong ids ws = All (λ (x : ℕ × Work). is_among ids x.0 ≡ true) ws

removed-AllAmong :
    (ids : List ℕ) (id : ℕ) (ws : List (ℕ × Work)) → AllAmong ids ws → AllAmong ids (removed id ws)
removed-AllAmong ids id [] h = tt
removed-AllAmong ids id (x ∷ ws) h = elim (Bool-cases (not (nat_eq x.0 id))) [
  | inl kept ↦ rw kept (h.0, removed-AllAmong ids id ws h.1)
  | inr gone ↦ rw gone (removed-AllAmong ids id ws h.1)
]

set_work-AllAmong :
    (ids : List ℕ) (id : ℕ) (w : Work) (ws : List (ℕ × Work))
    → AllAmong ids ws
    → AllAmong ids (set_work id w ws)
set_work-AllAmong ids id w [] h = tt
set_work-AllAmong ids id w (x ∷ ws) h = (same (nat_eq x.0 id), set_work-AllAmong ids id w ws h.1)
  where
    same : (b : Bool) → is_among ids (if b then (x.0, w) else x).0 ≡ true
    same true = h.0
    same false = h.0

pub is_among_more : (ids : List ℕ) (j i : ℕ) → is_among ids i ≡ true → is_among (j ∷ ids) i ≡ true
is_among_more ids j i h = ground arith

pub snapshot-AllAmong : (ws : List (ℕ × Work)) → AllAmong (map (λ (x : ℕ × Work). x.0) ws) ws
snapshot-AllAmong [] = tt
snapshot-AllAmong (x ∷ ws) = (
  ground arith,
  All-mono _ _ ws (λ (y : ℕ × Work). is_among_more (map (λ (x : ℕ × Work). x.0) ws) x.0 y.0)
      (snapshot-AllAmong ws),
)

pub none_left :
    (ids : List ℕ) (ws : List (ℕ × Work))
    → AllAmong ids ws
    → any (λ (x : ℕ × Work). is_among ids x.0) ws ≡ false
    → ws ≡ []
none_left ids [] h e = refl
none_left ids (x ∷ ws) h e = absurd (ground arith)

-- A shutdown has stopped the loop, and waits for all that is in flight.
abbrev pub IsWaiting : WorkerState → List ℕ → Type 0
IsWaiting s ids = (s.running ≡ false) × AllAmong ids s.inflight

pub record IsOrderly (s : WorkerState) : Type 0 where
  pub waits : All (IsWaiting s) s.awaited
  pub gone : s.exited ≡ true → (s.inflight ≡ []) × (s.looping ≡ false)

-- What a step of a work may change.
pub record Shrinks (s t : WorkerState) : Type 0 where
  pub less : (ids : List ℕ) → AllAmong ids s.inflight → AllAmong ids t.inflight
  pub same_running : t.running ≡ s.running
  pub same_awaited : t.awaited ≡ s.awaited
  pub same_exited : t.exited ≡ s.exited

pub Shrinks-refl : (s : WorkerState) → Shrinks s s
Shrinks-refl s = record {
  less = λ ids h. h;
  same_running = refl;
  same_awaited = refl;
  same_exited = refl;
}

pub Shrinks-IsOrderly :
    (s t : WorkerState) → Shrinks s t → s.exited ≡ false → IsOrderly s → IsOrderly t
Shrinks-IsOrderly s t k here o = record {
  waits = subst (All (IsWaiting t)) (sym k.same_awaited) (
      All-mono (IsWaiting s) (IsWaiting t) s.awaited
        (λ ids w. (k.same_running ∙ w.0, k.less ids w.1)) o.waits);
  gone = λ e. absurd (cc (e, k.same_exited, here));
}

module _ (c : Collection DiagnosticJob) (config : JobQueueConfig) (worker_id : String)
    (concurrency : ℕ) where
  removed-Shrinks :
      (id : ℕ) (jobs : List DiagnosticJob) (s : WorkerState)
      → Shrinks s (record s { jobs = jobs; inflight = removed id s.inflight })
  removed-Shrinks id jobs s = record {
    less = λ ids. removed-AllAmong ids id s.inflight;
    same_running = refl;
    same_awaited = refl;
    same_exited = refl;
  }

  pub jobs-Shrinks :
      (jobs : List DiagnosticJob) (s : WorkerState) → Shrinks s (record s { jobs = jobs })
  jobs-Shrinks jobs s = record {
    less = λ ids h. h;
    same_running = refl;
    same_awaited = refl;
    same_exited = refl;
  }

  claimed-Shrinks :
      (id : ℕ) (s : WorkerState) (r : List DiagnosticJob × Option DiagnosticJob)
      → Shrinks s (claimed_work c config worker_id concurrency id s r)
  claimed-Shrinks id s (jobs, none) = removed-Shrinks id jobs s
  claimed-Shrinks id s (jobs, some job) = record {
    less = λ ids. set_work-AllAmong ids id (processing job.id) s.inflight;
    same_running = refl;
    same_awaited = refl;
    same_exited = refl;
  }

  pub work-Shrinks :
      (e : WorkerEvent) (w : Option Work) (s : WorkerState)
      → Shrinks s (work_step c config worker_id concurrency e w s)
  unfolding work_step
  work-Shrinks (claims id now) (some starting) s =
      claimed-Shrinks id s (claim c config worker_id now s.jobs)
  work-Shrinks (claims id now) (some (processing _)) s = Shrinks-refl s
  work-Shrinks (claims id now) none s = Shrinks-refl s
  work-Shrinks (rejects id) none s = Shrinks-refl s
  work-Shrinks (rejects id) (some w) s = removed-Shrinks id s.jobs s
  work-Shrinks (beats id now) (some (processing job_id)) s = jobs-Shrinks _ s
  work-Shrinks (beats id now) (some starting) s = Shrinks-refl s
  work-Shrinks (beats id now) none s = Shrinks-refl s
  work-Shrinks (succeeds id summary now) (some (processing job_id)) s = removed-Shrinks id _ s
  work-Shrinks (succeeds id summary now) (some starting) s = Shrinks-refl s
  work-Shrinks (succeeds id summary now) none s = Shrinks-refl s
  work-Shrinks (throws id e now random) (some (processing job_id)) s = removed-Shrinks id _ s
  work-Shrinks (throws id e now random) (some starting) s = Shrinks-refl s
  work-Shrinks (throws id e now random) none s = Shrinks-refl s
  work-Shrinks (recovers now) w s = Shrinks-refl s
  work-Shrinks fills w s = Shrinks-refl s
  work-Shrinks signals w s = Shrinks-refl s
  work-Shrinks loop_ends w s = Shrinks-refl s
  work-Shrinks (exits n) w s = Shrinks-refl s

  pub fill_keeps :
      (fuel : ℕ) (s : WorkerState)
      → ((fill fuel concurrency s).running ≡ s.running)
        × ((fill fuel concurrency s).awaited ≡ s.awaited)
        × ((fill fuel concurrency s).exited ≡ s.exited)
  unfolding fill spawn
  fill_keeps zero s = (refl, refl, refl)
  fill_keeps (suc fuel) s = elim (Bool-cases (s.running && ltb (length s.inflight) concurrency)) [
    | inl more ↦ rw more (fill_keeps fuel (spawn s))
    | inr done ↦ rw done (refl, refl, refl)
  ]
