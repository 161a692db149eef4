-- ===== src/Worker/Filled.antt =====
-- The inner loop of worker/src/index.ts: it ends, and fills the places.
use cloudops_sentinel.Base.{
  max, ℕ, zero, suc, ◌+◌, ◌≤◌, ◌<◌, ◌≡◌, refl, sym, ap, ◌∙◌, inl, inr, Bool, true, false, ◌&&◌,
  arith, ltb, Bool-cases, length,
}
use cloudops_sentinel.Worker.{WorkerState, spawn, fill}

ltb→lt : (a b : ℕ) → ltb a b ≡ true → a < b
ltb→lt a b h = ground arith

ltb→le : (a b : ℕ) → ltb a b ≡ false → b ≤ a
ltb→le a b h = ground arith

and_true : (a b : Bool) → a ≡ true → b ≡ true → (a && b) ≡ true
and_true true b h k = k
and_true false b h k = h

and_false : (a b : Bool) → b ≡ false → (a && b) ≡ false
and_false true b k = k
and_false false b k = refl

pub length-spawn : (s : WorkerState) → length (spawn s).inflight ≡ length s.inflight + 1
unfolding spawn
length-spawn s = omega arith

spawn_running : (s : WorkerState) → (spawn s).running ≡ s.running
unfolding spawn
spawn_running s = refl

pub fill_stopped :
    (fuel concurrency : ℕ) (s : WorkerState) → s.running ≡ false → fill fuel concurrency s ≡ s
unfolding fill
fill_stopped zero concurrency s h = refl
fill_stopped (suc fuel) concurrency s h = rw h refl

fill_full :
    (fuel concurrency : ℕ) (s : WorkerState)
    → concurrency ≤ length s.inflight
    → fill fuel concurrency s ≡ s
unfolding fill
fill_full zero concurrency s h = refl
fill_full (suc fuel) concurrency s h = ground arith

suc_add : (a b : ℕ) → suc a + b ≡ suc (a + b)
suc_add a b = omega arith

fill_enough_step :
    (fuel extra concurrency : ℕ) (s : WorkerState)
    → fill (fuel + extra) concurrency (spawn s) ≡ fill fuel concurrency (spawn s)
    → fill (suc (fuel + extra)) concurrency s ≡ fill (suc fuel) concurrency s
unfolding fill
fill_enough_step fuel extra concurrency s ih =
    elim (Bool-cases (s.running && ltb (length s.inflight) concurrency)) [
      | inl more ↦ rw more ih
      | inr done ↦ rw done refl
    ]

-- The fuel that is enough: one round for each free place.
fill_enough :
    (fuel extra concurrency : ℕ) (s : WorkerState)
    → concurrency ≤ fuel + length s.inflight
    → fill (fuel + extra) concurrency s ≡ fill fuel concurrency s
fill_enough zero extra concurrency s h =
    fill_full (0 + extra) concurrency s (omega arith)
    ∙ sym (fill_full 0 concurrency s (omega arith))
fill_enough (suc fuel) extra concurrency s h =
    ap (λ n. fill n concurrency s) (suc_add fuel extra)
    ∙ fill_enough_step fuel extra concurrency s
        (fill_enough fuel extra concurrency (spawn s) (omega (arith, h, length-spawn s)))

pub length-fill :
    (fuel concurrency : ℕ) (s : WorkerState)
    → s.running ≡ true
    → concurrency ≤ fuel + length s.inflight
    → length (fill fuel concurrency s).inflight ≡ max (length s.inflight) concurrency
unfolding fill
length-fill zero concurrency s on h = omega (arith, h)
length-fill (suc fuel) concurrency s on h =
    elim (Bool-cases (ltb (length s.inflight) concurrency)) [
      | inl free ↦ rw (and_true s.running _ on free) (
          omega (
            arith,
            length-fill fuel concurrency (spawn s) (spawn_running s ∙ on)
                (omega (arith, h, length-spawn s)),
            length-spawn s,
            ltb→lt _ _ free,
          ))
      | inr full ↦ rw (and_false s.running _ full) (omega (arith, ltb→le _ _ full))
    ]

-- The inner loop of a round ends: it has run to its end after as many rounds as there may be calls
-- at once, whatever was in flight, and any further fuel changes nothing. While the worker runs it
-- leaves the allowed number of calls in flight, or as many as there were if there were more; after a
-- signal it starts none.
pub fill_lem :
    (concurrency extra : ℕ) (s : WorkerState)
    → (fill (concurrency + extra) concurrency s ≡ fill concurrency concurrency s)
      × (s.running ≡ true
          → length (fill concurrency concurrency s).inflight ≡ max (length s.inflight) concurrency)
      × (s.running ≡ false → fill concurrency concurrency s ≡ s)
fill_lem concurrency extra s = (
  fill_enough concurrency extra concurrency s (omega arith),
  λ on. length-fill concurrency concurrency s on (omega arith),
  fill_stopped concurrency concurrency s,
)
