-- ===== src/UserTabs.antt =====
-- browser_fetch_router/read_user_tabs.py: listing and reading the tabs of the user's own browser.
pub mod Failures
pub mod Redaction
pub mod Access
pub mod Listing
pub mod Reading
pub mod Screenshots
pub mod Granted
pub mod Guarded
pub mod Denied
pub mod Captured
pub mod Redacted
pub mod Listed
