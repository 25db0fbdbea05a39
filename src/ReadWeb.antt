-- ===== src/ReadWeb.antt =====
-- browser_fetch_router/read_web.py: the route of a URL, the cache in front of the providers, and the
-- paid fallback.
pub mod Payloads
pub mod Reads
pub mod Paying
pub mod Cached
