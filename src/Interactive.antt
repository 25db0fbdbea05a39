-- ===== src/Interactive.antt =====
-- browser_fetch_router/interactive.py: the confirmation of a task, the choice of a hosted browser, and
-- the cost of a run, on the ledger of Cost.
pub mod Hosted
pub mod Runs
pub mod Dispatch
pub mod Spending
pub mod Budget
pub mod Outcomes
pub mod Consent
