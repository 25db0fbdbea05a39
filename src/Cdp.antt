-- ===== src/Cdp.antt =====
-- browser_fetch_router/cdp.py: the endpoint of a browser's DevTools protocol, the sockets of its tabs,
-- and the two ways to read a tab.
pub mod Endpoint
pub mod Same
pub mod Chat
pub mod Draining
pub mod Pages
pub mod Answers
pub mod Reading
pub mod Answered
pub mod Authorized
pub mod Quiet
