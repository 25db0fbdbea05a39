-- ===== src/HttpClient.antt =====
-- browser_fetch_router/http_client.py: the side-effect policy, the validation of caller headers, one request
-- through the pinned transport, and the redirect loop.
pub mod SideEffects
pub mod Headers
pub mod Transport
pub mod Requests
