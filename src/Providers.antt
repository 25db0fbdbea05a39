-- ===== src/Providers.antt =====
-- browser_fetch_router/providers: what turns the answer of a reader of pages into a result.
pub mod Jina
pub mod Readable
