-- ===== src/Observability.antt =====
-- packages/shared/src/observability: the retry helpers and the circuit breaker. Numbers of
-- milliseconds are natural numbers, and each reading of the clock is an argument.
pub mod Backoff
pub mod Retry
pub mod Timeout
pub mod Metrics
pub mod Breaker
