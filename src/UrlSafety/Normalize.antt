-- ===== src/UrlSafety/Normalize.antt =====
-- `normalize_and_validate_url`, `validate_redirect` and `blocked_resolved_targets` of
-- browser_fetch_router/url_safety.py. The two guards on the type of the URL and on its text come first; a
-- text is a list of code points, so the type test always passes.
pub mod Accepted
pub mod Canonical
use browser_fetch_router.Prelude.{
  ℕ, ◌≡◌, Bool, true, false, not, ◌&&◌, ◌||◌, Option, none, some, List, [], ◌∷◌, ◌++◌, ltb, leb,
  ◌==◌, any, if◌then◌else◌,
}
use browser_fetch_router.Prelude.Text.{
  Text, codes, text_eq, one_of, has_char, strip, lower, show_nat,
}
use browser_fetch_router.UrlSafety.Result.{
  Unsafe, invalid_url, control_chars_in_url, blocked_scheme, embedded_credentials, missing_host,
  invalid_port, blocked_port, blocked_ip, invalid_hostname, blocked_host, single_label_host,
  https_downgrade_redirect, dns_resolution_empty, blocked_resolved_ip, Result, ok, err, unsafe,
  value_error, refuse_if, ◌>>=◌, ◌>>◌,
}
use browser_fetch_router.UrlSafety.Ip.{Ip, v4, v6, is_blocked_ip}
use browser_fetch_router.UrlSafety.ParseIp.{parse_ip, show_ipv4, show_ipv6}
use browser_fetch_router.UrlSafety.SplitUrl.{
  Unicode, SplitResult, urlsplit, hostname, port, has_credentials, urlunsplit,
}
use browser_fetch_router.UrlSafety.Encode.{encode_idna, quote}

-- BLOCKED_HOSTS
abbrev pub blocked_hosts : List Text
blocked_hosts =
    codes "localhost"
    ∷ codes "metadata.google.internal"
    ∷ codes "metadata"
    ∷ codes "metadata.azure.com"
    ∷ []

-- HOSTNAME_ALIASES
abbrev pub hostname_aliases : List (Text × Text)
hostname_aliases =
    (codes "twitter.com", codes "x.com")
    ∷ (codes "www.twitter.com", codes "x.com")
    ∷ (codes "mobile.twitter.com", codes "x.com")
    ∷ (codes "m.twitter.com", codes "x.com")
    ∷ (codes "www.x.com", codes "x.com")
    ∷ (codes "old.reddit.com", codes "www.reddit.com")
    ∷ (codes "np.reddit.com", codes "www.reddit.com")
    ∷ []

-- d.get(k, default)
unfoldable pub get_or : Text → Text → List (Text × Text) → Text
get_or k default [] = default
get_or k default ((j, v) ∷ d) = if text_eq j k then v else get_or k default d

pub is_control : ℕ → Bool
is_control c = ltb c 32 || (leb 127 c && ltb c 160)

abbrev pub is_http : SplitResult → Bool
is_http r = text_eq r.scheme (codes "http")

abbrev pub is_https : SplitResult → Bool
is_https r = text_eq r.scheme (codes "https")

is_default_port : SplitResult → ℕ → Bool
is_default_port r p = (is_http r && p == 80) || (is_https r && p == 443)

-- `port is not None and not allow_loopback and (...)`
unfoldable pub is_blocked_port : Bool → SplitResult → Option ℕ → Bool
is_blocked_port allow_loopback r none = false
is_blocked_port allow_loopback r (some p) =
    not allow_loopback && ((is_http r && not (p == 80)) || (is_https r && not (p == 443)))

-- A name that is no address: its IDNA form, replaced by its alias, and tested.
unfoldable pub is_blocked_name : Bool → Text → Bool
is_blocked_name allow_loopback host =
    one_of host blocked_hosts && not (allow_loopback && text_eq host (codes "localhost"))

unfoldable pub is_single_label : Bool → Text → Bool
is_single_label allow_loopback host =
    not (has_char b'.' host)
    && not (one_of host (codes "x" ∷ codes "tools" ∷ []))
    && not (allow_loopback && text_eq host (codes "localhost"))

unfoldable pub canonical_name : Unicode → Bool → Text → Result Text
canonical_name u allow_loopback raw_host = elim (encode_idna u raw_host) [
  | none ↦ err (unsafe invalid_hostname)
  | some ascii ↦
      let host = get_or (lower ascii) (lower ascii) hostname_aliases in
      (do
        refuse_if (is_blocked_name allow_loopback host) blocked_host
        refuse_if (is_single_label allow_loopback host) single_label_host
        ok host)
]

pub show_ip : Ip → Text
show_ip (v4 n) = show_ipv4 n
show_ip (v6 n) = codes "[" ++ (show_ipv6 n ++ codes "]")

-- The host of the canonical URL.
unfoldable pub canonical_host : Unicode → Bool → Text → Option Ip → Result Text
unfolding show_ip
canonical_host u allow_loopback raw_host none = canonical_name u allow_loopback raw_host
canonical_host u allow_loopback raw_host (some ip) = do
  refuse_if (is_blocked_ip allow_loopback ip) blocked_ip
  ok (show_ip ip)

-- `parsed.port`, whose ValueError becomes `invalid_port`.
checked_port : SplitResult → Result (Option ℕ)
checked_port r = elim (port r) [ ok p ↦ ok p | err e ↦ err (unsafe invalid_port) ]

with_port : SplitResult → Text → Option ℕ → Text
unfolding is_default_port
with_port r host none = host
with_port r host (some p) = if is_default_port r p then host else host ++ (codes ":" ++ show_nat p)

path_or_root : Text → Text
path_or_root [] = codes "/"
path_or_root (c ∷ s) = c ∷ s

pub path_safe : Text
path_safe = codes "/%:@!$&'()*+,;=~"

pub query_safe : Text
query_safe = codes "/%:@!$&'()*+,;=?"

-- The canonical URL as its parts; `urlunsplit` joins them.
pub canonical : SplitResult → Text → Option ℕ → SplitResult
unfolding path_safe query_safe with_port path_or_root
canonical r host p = record {
  scheme = r.scheme;
  netloc = with_port r host p;
  path = quote path_safe (path_or_root r.path);
  query = quote query_safe r.query;
  fragment = [];
}

unfoldable pub validate_split : Unicode → Bool → SplitResult → Result SplitResult
unfolding canonical checked_port
validate_split u allow_loopback r = do
  refuse_if (not (is_http r || is_https r)) blocked_scheme
  refuse_if (has_credentials r) embedded_credentials
  refuse_if (text_eq (hostname r) []) missing_host
  p ← checked_port r
  refuse_if (is_blocked_port allow_loopback r p) blocked_port
  candidate ← parse_ip (hostname r)
  host ← canonical_host u allow_loopback (hostname r) candidate
  ok (canonical r host p)

unfoldable pub normalize_and_validate_url : Unicode → Bool → Text → Result Text
unfolding validate_split is_control
normalize_and_validate_url u allow_loopback url = do
  refuse_if (text_eq (strip url) []) invalid_url
  refuse_if (any is_control url) control_chars_in_url
  r ← urlsplit u (strip url)
  out ← validate_split u allow_loopback r
  ok (urlunsplit out)
