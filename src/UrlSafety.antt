-- ===== src/UrlSafety.antt =====
-- browser_fetch_router/url_safety.py.
pub mod Result
pub mod Ip
pub mod ParseIp
pub mod SplitUrl
pub mod Encode
pub mod Normalize
pub mod Redirect
