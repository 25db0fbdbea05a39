-- ===== src/Cdp/Endpoint.antt =====
-- `cdp_base_url` and `validate_tab_websocket_url` of browser_fetch_router/cdp.py. What the resolver
-- answers is an argument; `none` is an OSError.
use browser_fetch_router.Prelude.{
  ℕ, Bool, true, false, not, ◌&&◌, ◌||◌, ◌==◌, Option, none, some, List, [], ◌∷◌, all,
  if◌then◌else◌,
}
use browser_fetch_router.Prelude.Text.{Text, codes, text_eq, one_of, lower, rstrip_by, strip}
use browser_fetch_router.UrlSafety.Result.{
  CdpFailure, websocket_url_invalid, websocket_url_mismatch, cdp, fail_if, Result, ok, err, ◌>>=◌,
  ◌>>◌,
}
use browser_fetch_router.UrlSafety.Ip.{is_blocked_ip}
use browser_fetch_router.UrlSafety.ParseIp.{parse_ip, ip_address}
use browser_fetch_router.UrlSafety.SplitUrl.{
  Unicode, SplitResult, urlsplit, hostname, port, has_credentials,
}
use browser_fetch_router.UrlSafety.Normalize.{blocked_hosts}
use browser_fetch_router.HttpClient.Transport.{Family}
use browser_fetch_router.Json.{Json, as_text}

abbrev pub loopback_hosts : List Text
loopback_hosts = codes "127.0.0.1" ∷ codes "::1" ∷ codes "localhost" ∷ codes "[::1]" ∷ []

abbrev pub default_base : Text
default_base = codes "http://127.0.0.1:9222"

-- `value.rstrip("/")`.
unfoldable pub without_slash : Text → Text
without_slash = rstrip_by (λ c. c == b'/')

unfoldable pub is_empty : Text → Bool
is_empty [] = true
is_empty (c ∷ s) = false

-- A bare base: no path but `/`, no query and no fragment.
unfoldable pub is_bare : SplitResult → Bool
unfolding is_empty
is_bare r =
    (is_empty r.path || text_eq r.path (codes "/")) && (is_empty r.query && is_empty r.fragment)

unfoldable pub is_public_answer : Family × Text → Bool
is_public_answer (family, address) = elim (ip_address address) [
  | none ↦ false
  | some ip ↦ not (is_blocked_ip false ip)
]

-- Every answer of the resolver is an address that is not blocked, and there is one.
unfoldable pub resolves_publicly : Option (List (Family × Text)) → Bool
unfolding is_public_answer
resolves_publicly none = false
resolves_publicly (some []) = false
resolves_publicly (some (answer ∷ answers)) = all is_public_answer (answer ∷ answers)

-- A host that is no loopback name: blocked names, literals in any notation, and names.
unfoldable pub is_public_host : (Text → Option (List (Family × Text))) → Text → Bool
is_public_host getaddrinfo host = not (one_of host blocked_hosts) && elim (parse_ip host) [
  | err e ↦ false
  | ok (some ip) ↦ not (is_blocked_ip false ip)
  | ok none ↦ resolves_publicly (getaddrinfo host)
]

unfoldable pub accepts_base : (Text → Option (List (Family × Text))) → Bool → SplitResult → Bool
unfolding is_empty
accepts_base getaddrinfo allow_remote r =
    one_of r.scheme (codes "http" ∷ codes "https" ∷ [])
    && (not (has_credentials r)
        && (not (is_empty (hostname r))
            && (is_bare r
                && (one_of (lower (hostname r)) loopback_hosts
                    || (allow_remote && is_public_host getaddrinfo (lower (hostname r)))))))

setting_or_default : Option Text → Text
setting_or_default none = default_base
setting_or_default (some value) = value

-- The first argument but two is BFR_CDP_URL; `urlsplit` may raise.
unfoldable pub cdp_base_url :
    Unicode → (Text → Option (List (Family × Text))) → Option Text → Bool → Result (Option Text)
unfolding setting_or_default
cdp_base_url u getaddrinfo setting allow_remote = do
  r ← urlsplit u (setting_or_default setting)
  ok (
      if accepts_base getaddrinfo allow_remote r
      then some (without_slash (setting_or_default setting))
      else none)

unfoldable pub default_port : Text → Option ℕ
default_port scheme =
    if one_of scheme (codes "http" ∷ codes "ws" ∷ [])
    then some 80
    else if one_of scheme (codes "https" ∷ codes "wss" ∷ [])
    then some 443
    else none

-- `parsed.port`, or the port of the scheme.
unfoldable pub effective_port : SplitResult → Result (Option ℕ)
unfolding default_port
effective_port r = do
  given ← port r
  ok (elim given [ none ↦ default_port r.scheme | some p ↦ some p ])

unfoldable pub same_port : Option ℕ → Option ℕ → Bool
same_port none none = true
same_port none (some p) = false
same_port (some p) none = false
same_port (some p) (some q) = p == q

-- An error in the port is one failure or the other.
unfoldable pub port_or : CdpFailure → SplitResult → Result (Option ℕ)
port_or failure r = elim (effective_port r) [ ok p ↦ ok p | err e ↦ err (cdp failure) ]

-- The tests on a WebSocket URL alone.
unfoldable pub check_websocket : SplitResult → Result (Unit {0})
unfolding is_empty
check_websocket ws = do
  fail_if (not (one_of ws.scheme (codes "ws" ∷ codes "wss" ∷ []))) websocket_url_invalid
  fail_if (has_credentials ws) websocket_url_invalid
  fail_if (is_empty (hostname ws) || is_empty ws.path) websocket_url_invalid
  fail_if (not (is_empty ws.query) || not (is_empty ws.fragment)) websocket_url_invalid

abbrev pub expected_scheme : SplitResult → Text
expected_scheme base = if text_eq base.scheme (codes "https") then codes "wss" else codes "ws"

-- The tests against the base.
unfoldable pub check_against : SplitResult → SplitResult → Result (Unit {0})
unfolding port_or is_empty
check_against ws base = do
  fail_if (not (one_of base.scheme (codes "http" ∷ codes "https" ∷ [])) || is_empty (hostname base))
      websocket_url_mismatch
  fail_if (not (text_eq ws.scheme (expected_scheme base))) websocket_url_mismatch
  fail_if (not (text_eq (lower (hostname ws)) (lower (hostname base)))) websocket_url_mismatch
  ws_port ← port_or websocket_url_invalid ws
  base_port ← port_or websocket_url_mismatch base
  fail_if (not (same_port ws_port base_port)) websocket_url_mismatch

-- A split that raises is no `CdpFailure`.
unfoldable pub validate_text : Unicode → Text → Text → Result Text
validate_text u candidate base_url = do
  fail_if (text_eq candidate []) websocket_url_invalid
  ws ← urlsplit u candidate
  check_websocket ws
  base ← urlsplit u base_url
  check_against ws base
  ok candidate

-- A value that is no text is refused like a missing one.
unfoldable pub validate_option : Unicode → Option Text → Text → Result Text
unfolding validate_text
validate_option u none base_url = err (cdp websocket_url_invalid)
validate_option u (some s) base_url = validate_text u (strip s) base_url

unfoldable pub validate_tab_websocket_url : Unicode → Json → Text → Result Text
unfolding validate_option
validate_tab_websocket_url u ws_url base_url = validate_option u (as_text ws_url) base_url
