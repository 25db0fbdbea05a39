-- ===== src/Lifecycle.antt =====
-- browser_fetch_router/lifecycle.py and browser_fetch_router/session.py: session ids, the kill sequence of one
-- registered process, and the cleanup of session registries.
pub mod SessionId
pub mod Kill
pub mod Cleanup
