-- ===== src/Approvals/DefaultDeny.antt =====
-- browser_fetch_router/default_deny.py. `fnmatch` is modelled for patterns whose only wildcard is `*`, as the
-- patterns of the module are.
pub mod Subdomains
use browser_fetch_router.Prelude.{
  ℕ, Bool, true, false, ◌&&◌, ◌||◌, List, [], ◌∷◌, ◌++◌, map, any, drop, ◌==◌, if◌then◌else◌,
}
use browser_fetch_router.Prelude.Text.{
  Text, Parts, codes, text_eq, lower, partition, starts_with, ends_with,
}
use browser_fetch_router.UrlSafety.Result.{Result, ok, err, ◌>>=◌}
use browser_fetch_router.UrlSafety.SplitUrl.{Unicode, SplitResult, urlsplit, hostname}

abbrev pub host_sensitive_patterns : List Text
host_sensitive_patterns = map codes (
    "1password.com" ∷ "*.1password.com" ∷ "lastpass.com" ∷ "*.lastpass.com" ∷ "bitwarden.com"
    ∷ "*.bitwarden.com" ∷ "gmail.com" ∷ "*.gmail.com" ∷ "mail.google.com" ∷ "*.mail.google.com"
    ∷ "outlook.live.com" ∷ "*.outlook.live.com" ∷ "outlook.office.com" ∷ "*.outlook.office.com"
    ∷ "mail.yahoo.com" ∷ "*.mail.yahoo.com" ∷ "console.aws.amazon.com" ∷ "*.console.aws.amazon.com"
    ∷ "console.cloud.google.com" ∷ "*.console.cloud.google.com" ∷ "portal.azure.com"
    ∷ "*.portal.azure.com" ∷ "id.me" ∷ "*.id.me" ∷ [])

abbrev pub path_sensitive_patterns : List Text
path_sensitive_patterns = map codes (
    "github.com/settings/*" ∷ "github.com/organizations/*/settings/*" ∷ "github.com/account/*"
    ∷ "gitlab.com/-/profile/*" ∷ "gitlab.com/-/account/*" ∷ "billing.stripe.com/*"
    ∷ "dashboard.stripe.com/*" ∷ "paypal.com/*" ∷ "stripe.com/*" ∷ [])

abbrev pub deny_patterns : List Text
deny_patterns = map codes (
    "1password.com/*" ∷ "*.1password.com/*" ∷ "lastpass.com/*" ∷ "*.lastpass.com/*"
    ∷ "bitwarden.com/*" ∷ "*.bitwarden.com/*" ∷ "mail.google.com/*" ∷ "*.mail.google.com/*"
    ∷ "gmail.com/*" ∷ "*.gmail.com/*" ∷ "outlook.live.com/*" ∷ "*.outlook.live.com/*"
    ∷ "outlook.office.com/*" ∷ "*.outlook.office.com/*" ∷ "mail.yahoo.com/*" ∷ "*.mail.yahoo.com/*"
    ∷ "console.aws.amazon.com/*" ∷ "*.console.aws.amazon.com/*" ∷ "console.cloud.google.com/*"
    ∷ "*.console.cloud.google.com/*" ∷ "portal.azure.com/*" ∷ "*.portal.azure.com/*" ∷ "id.me/*"
    ∷ "*.id.me/*" ∷ [])

any_suffix : (Text → Bool) → Text → Bool
any_suffix f [] = f []
any_suffix f (c ∷ s) = f (c ∷ s) || any_suffix f s

same_head : ℕ → (Text → Bool) → Text → Bool
same_head p f [] = false
same_head p f (c ∷ s) = p == c && f s

-- `fnmatch(s, pattern)`.
unfoldable pub fnmatch : Text → Text → Bool
unfolding any_suffix same_head
fnmatch [] [] = true
fnmatch [] (c ∷ s) = false
fnmatch (p ∷ pattern) s =
    if p == b'*' then any_suffix (fnmatch pattern) s else same_head p (fnmatch pattern) s

unfoldable pub hostname_matches : Text → Text → Bool
hostname_matches pattern host =
    if starts_with pattern (codes "*.")
    then text_eq host (drop 2 pattern) || ends_with host (b'.' ∷ drop 2 pattern)
    else text_eq host pattern

unfoldable pub url_pattern_matches : Text → Text → Text → Bool
url_pattern_matches host path pattern =
    let p = partition b'/' pattern in
    hostname_matches p.before host && (if p.found then fnmatch (b'/' ∷ p.after) path else true)

unfoldable pub is_default_denied_hostname : Text → Bool
is_default_denied_hostname host =
    any (λ pattern. hostname_matches pattern (lower host)) host_sensitive_patterns

path_or_root : Text → Text
path_or_root [] = codes "/"
path_or_root (c ∷ s) = c ∷ s

-- The test on a URL that was split.
unfoldable pub denies : SplitResult → Bool
unfolding path_or_root
denies r =
    is_default_denied_hostname (lower (hostname r))
    || any (url_pattern_matches (lower (hostname r)) (path_or_root r.path))
        (deny_patterns ++ path_sensitive_patterns)

unfoldable pub is_default_denied : Unicode → Text → Result Bool
unfolding denies
is_default_denied u url = do r ← urlsplit u url; ok (denies r)
