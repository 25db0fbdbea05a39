-- ===== src/Cost.antt =====
-- browser_fetch_router/cost.py: the cost ledger, the provider token buckets and the circuit
-- breakers. The three share one SQLite file and touch disjoint tables of it, so each has a state of
-- its own here. A transaction (`BEGIN IMMEDIATE` to `COMMIT`) is one function on the state.
pub mod Ledger
pub mod TokenBucket
pub mod CircuitBreaker
