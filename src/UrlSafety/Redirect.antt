-- ===== src/UrlSafety/Redirect.antt =====
-- `validate_redirect` and `blocked_resolved_targets` of browser_fetch_router/url_safety.py. `urljoin` of
-- the standard library is a parameter: what is tested is the URL that it returns.
pub mod Laws
use browser_fetch_router.Prelude.{
  Bool, true, false, not, ◌&&◌, Option, none, some, List, [], ◌∷◌, if◌then◌else◌,
}
use browser_fetch_router.Prelude.Text.{Text, codes, lower, one_of}
use browser_fetch_router.UrlSafety.Result.{
  Unsafe, dns_resolution_empty, blocked_resolved_ip, https_downgrade_redirect, Result, ok, err,
  refuse_if, ◌>>=◌, ◌>>◌,
}
use browser_fetch_router.UrlSafety.Ip.{Ip, is_blocked_ip}
use browser_fetch_router.UrlSafety.ParseIp.{parse_ip}
use browser_fetch_router.UrlSafety.SplitUrl.{Unicode, SplitResult, urlsplit}
use browser_fetch_router.UrlSafety.Normalize.{is_http, is_https, normalize_and_validate_url}

pub record ResolvedTarget : Type 0 where
  pub hostname : Text
  pub ip : Text
  pub family : Text

unfoldable pub is_blocked_target : Bool → Option Ip → Bool
is_blocked_target allow_loopback none = true
is_blocked_target allow_loopback (some ip) = is_blocked_ip allow_loopback ip

-- The loop over the answers; `none` means that no answer is blocked.
check_targets : Bool → List ResolvedTarget → Result (Option Unsafe)
unfolding is_blocked_target
check_targets allow_loopback [] = ok none
check_targets allow_loopback (t ∷ targets) =
    let rest = check_targets allow_loopback targets in
    parse_ip t.ip >>= λ ip.
    if is_blocked_target allow_loopback ip then ok (some blocked_resolved_ip) else rest

unfoldable pub blocked_resolved_targets : Bool → List ResolvedTarget → Result (Option Unsafe)
unfolding check_targets
blocked_resolved_targets allow_loopback [] = ok (some dns_resolution_empty)
blocked_resolved_targets allow_loopback (t ∷ targets) = check_targets allow_loopback (t ∷ targets)

-- BFR_ALLOW_HTTPS_DOWNGRADE, unset or a text.
unfoldable pub env_allows_https_downgrade : Option Text → Bool
env_allows_https_downgrade none = false
env_allows_https_downgrade (some value) =
    one_of (lower value) (codes "1" ∷ codes "true" ∷ codes "yes" ∷ [])

module _ (u : Unicode) (urljoin : Text → Text → Result Text) where
  -- `allow_https_downgrade` is the caller's flag, or what the environment says.
  unfoldable pub validate_redirect : Text → Text → Bool → Bool → Result Text
  validate_redirect source_url location allow_https_downgrade allow_loopback = do
    joined ← urljoin source_url location
    target ← normalize_and_validate_url u allow_loopback joined
    source ← urlsplit u source_url
    parsed ← urlsplit u target
    refuse_if (is_https source && (is_http parsed && not allow_https_downgrade))
        https_downgrade_redirect
    ok target
