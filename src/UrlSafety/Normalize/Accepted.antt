-- ===== src/UrlSafety/Normalize/Accepted.antt =====
-- What is known of a URL that `normalize_and_validate_url` accepts.
use browser_fetch_router.Prelude.{
  ℕ, ◌≡◌, ◌≢◌, ◌⊎◌, inl, inr, sym, ◌∙◌, Bool, true, false, ◌||◌, Option, none, some, arith, any,
}
use browser_fetch_router.Prelude.Text.{Text, strip}
use browser_fetch_router.UrlSafety.Result.{ok, refuse_if-eq_ok, Result-cases, blocked_ip}
use browser_fetch_router.UrlSafety.Ip.{Ip, v4, is_blocked_ip}
use browser_fetch_router.UrlSafety.Ip.Blocking.{Internal, mapped, is_blocked_ip-Internal}
use browser_fetch_router.UrlSafety.ParseIp.{parse_ip}
use browser_fetch_router.UrlSafety.ParseIp.Notations.{Notation, parse_ip-Notation}
use browser_fetch_router.UrlSafety.SplitUrl.{
  Unicode, SplitResult, urlsplit, hostname, port, has_credentials, urlunsplit,
}
use browser_fetch_router.UrlSafety.Normalize.{
  is_control, is_http, is_https, is_blocked_port, is_blocked_name, is_single_label, canonical_name,
  show_ip, canonical_host, checked_port, canonical, validate_split, normalize_and_validate_url,
}

-- A host that may be asked: an address that is not blocked, or a name that is no address.
data IsSafeHost (allow_loopback : Bool) (raw : Text) (host : Text) : Type 0 where
  address :
      (ip : Ip)
      → parse_ip raw ≡ ok (some ip)
      → is_blocked_ip allow_loopback ip ≡ false
      → host ≡ show_ip ip
      → IsSafeHost allow_loopback raw host
  name :
      parse_ip raw ≡ ok none
      → is_blocked_name allow_loopback host ≡ false
      → is_single_label allow_loopback host ≡ false
      → IsSafeHost allow_loopback raw host

record IsAccepted (allow_loopback : Bool) (r out : SplitResult) : Type 0 where
  web_scheme : (is_http r || is_https r) ≡ true
  no_credentials : has_credentials r ≡ false
  port_number : Option ℕ
  has_port : port r ≡ ok port_number
  port_allowed : is_blocked_port allow_loopback r port_number ≡ false
  host : Text
  safe : IsSafeHost allow_loopback (hostname r) host
  result : out ≡ canonical r host port_number

module _ (u : Unicode) (allow : Bool) where
  canonical_name-safe :
      (raw host : Text)
      → canonical_name u allow raw ≡ ok host
      → (is_blocked_name allow host ≡ false) × (is_single_label allow host ≡ false)
  unfolding canonical_name
  canonical_name-safe raw host h = ground arith

  canonical_host-safe :
      (raw host : Text) (candidate : Option Ip)
      → parse_ip raw ≡ ok candidate
      → canonical_host u allow raw candidate ≡ ok host
      → IsSafeHost allow raw host
  unfolding canonical_host
  canonical_host-safe raw host none p h = let (a, b) = canonical_name-safe raw host h in name p a b
  canonical_host-safe raw host (some ip) p h =
      let (a, h1) = refuse_if-eq_ok _ blocked_ip _ h in address ip p a (ground arith)

  checked_port-ok : (r : SplitResult) (p : Option ℕ) → checked_port r ≡ ok p → port r ≡ ok p
  unfolding checked_port
  checked_port-ok r p h = ground arith

  validate_split-IsAccepted :
      (r out : SplitResult) → validate_split u allow r ≡ ok out → IsAccepted allow r out
  unfolding validate_split checked_port
  validate_split-IsAccepted r out h = elim (Result-cases (port r)) [
    | inr (e, bad) ↦ absurd (ground arith)
    | inl (p, has) ↦ elim (Result-cases (parse_ip (hostname r))) [
      | inr (e, bad) ↦ absurd (ground arith)
      | inl (candidate, parsed) ↦
          elim (Result-cases (canonical_host u allow (hostname r) candidate)) [
            | inr (e, bad) ↦ absurd (ground arith)
            | inl (host, safe) ↦ record {
              web_scheme = ground arith;
              no_credentials = ground arith;
              port_number = p;
              has_port = has;
              port_allowed = ground arith;
              host = host;
              safe = canonical_host-safe (hostname r) host candidate parsed safe;
              result = ground arith;
            }
          ]
    ]
  ]

module _ (u : Unicode) (allow : Bool) (url : Text) where
  -- An accepted URL has no control character; it parses to a web URL without credentials, on the
  -- default port unless loopback is allowed; its host, as it is written, is an address that is
  -- not blocked or a text that is no address, no blocked name and not of one label; and the result is joined from the parts that
  -- were tested, with nothing but the tested host and port in its netloc.
  normalize_and_validate_url-IsAccepted :
      (text : Text)
      → normalize_and_validate_url u allow url ≡ ok text
      → (r : SplitResult) × (out : SplitResult) × (any is_control url ≡ false)
        × (urlsplit u (strip url) ≡ ok r)
        × IsAccepted allow r out
        × (text ≡ urlunsplit out)
  unfolding normalize_and_validate_url
  normalize_and_validate_url-IsAccepted text h = elim (Result-cases (urlsplit u (strip url))) [
    | inr (e, bad) ↦ absurd (ground arith)
    | inl (r, parsed) ↦ elim (Result-cases (validate_split u allow r)) [
      | inr (e, bad) ↦ absurd (ground arith)
      | inl (out, valid) ↦ (
        r,
        out,
        ground arith,
        parsed,
        validate_split-IsAccepted u allow r out valid,
        ground arith,
      )
    ]
  ]

not-safe :
    {raw host : Text} (ip : Ip)
    → parse_ip raw ≡ ok (some ip)
    → is_blocked_ip false ip ≡ true
    → ¬ IsSafeHost false raw host
not-safe ip parsed blocked (address other p free e) = ground arith
not-safe ip parsed blocked (name p free e) = ground arith

same : (a b : SplitResult) → ok a ≡ ok b → a ≡ b
same a b h = ground arith

-- Where loopback is not allowed, no URL is accepted whose host is written as an internal address: as
-- a dotted quad, as two or three numbers below 256, as one number in decimal, octal or hexadecimal,
-- or as a text that is read as the IPv4-mapped IPv6 form of the address.
pub Internal-refused :
    (u : Unicode) (url text : Text) (r : SplitResult) (n : ℕ)
    → urlsplit u (strip url) ≡ ok r
    → Internal n
    → Notation (hostname r) n ⊎ (parse_ip (hostname r) ≡ ok (some (mapped n)))
    → normalize_and_validate_url u false url ≢ ok text
Internal-refused u url text r n split inside notation h =
    let (r', out, clean, parsed, accepted, joined) =
      normalize_and_validate_url-IsAccepted u false url text h in
    let blocked = is_blocked_ip-Internal n inside in
    let safe = rw (same r' r (sym parsed ∙ split)) at accepted.safe in
    elim notation [
      | inl e ↦ not-safe (v4 n) (parse_ip-Notation (hostname r) n e) blocked.0 safe
      | inr e ↦ not-safe (mapped n) e blocked.1 safe
    ]
