-- ===== src/Approvals.antt =====
-- browser_fetch_router/approvals.py and browser_fetch_router/default_deny.py: what is never read without an
-- approval of its own, the grammar and the matching of approval scopes, and the store of approvals.
pub mod DefaultDeny
pub mod Scopes
pub mod Store
