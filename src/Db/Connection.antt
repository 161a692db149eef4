-- ===== src/Db/Connection.antt =====
-- packages/shared/src/db/connection.ts. A call of `mongoose.connect` is its outcome; logs and the
-- global settings of mongoose are left out.
use cloudops_sentinel.Base.{ℕ, ◌≤◌, ◌≡◌, inl, inr, Bool, none, arith, nat_eq}
use cloudops_sentinel.Observability.Backoff.{Fraction}
use cloudops_sentinel.Observability.Retry.{
  Settled, rejected, RetryOptions, Retried, with_retry, with_retry-Retries, thrown,
}

-- The options of `connectMongo`.
abbrev pub connect_options : {E : Type 0} → RetryOptions E
connect_options = record { max_attempts = 8; base_ms = 400; max_ms = 4000; retry_on = none }

unfoldable pub connect_mongo :
    {E T : Type 0} → (connect : ℕ → Settled E T) → (random : ℕ → Fraction) → Retried E T
connect_mongo connect random = with_retry connect_options connect random

unfoldable pub is_mongo_ready : (ready_state : ℕ) → Bool
is_mongo_ready ready_state = nat_eq ready_state 1

-- A connection is tried again after every error: it is given up only when eight calls have failed,
-- and with the error of the eighth.
pub connect_mongo_lem :
    {E T : Type 0} (connect : ℕ → Settled E T) (random : ℕ → Fraction)
    → let r = connect_mongo connect random in
      (r.calls ≤ 8)
      × (r.result ≡ thrown (connect r.calls))
      × ((e : E) → connect r.calls ≡ rejected e → r.calls ≡ 8)
unfolding connect_mongo
connect_mongo_lem connect random =
    let is = with_retry-Retries connect_options connect random (omega arith) in
    (
      is.at_most,
      is.last,
      λ e h. elim (is.stops e h) [ inl refused ↦ absurd (cc refused) | inr all ↦ all ],
    )
