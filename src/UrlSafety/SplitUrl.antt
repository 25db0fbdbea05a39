-- ===== src/UrlSafety/SplitUrl.antt =====
-- `urlsplit`, the properties of its result, and `urlunsplit`, of the standard library's urllib.parse
-- (CPython 3.11), as url_safety.py, approvals.py and http_client.py use them.
use browser_fetch_router.Prelude.{
  ℕ, Bool, true, false, not, ◌&&◌, ◌||◌, Option, none, some, [], ◌∷◌, ◌++◌, leb, ◌==◌, all, keep,
  if◌then◌else◌,
}
use browser_fetch_router.Prelude.Text.{
  Text, codes, is_ascii, is_alpha, is_digit, is_hex, is_digits, starts_with, partition, rpartition,
  has_char, lower, lstrip_by, read_nat,
}
use browser_fetch_router.UrlSafety.ParseIp.{parse_ipv4, parse_ipv6}
use browser_fetch_router.UrlSafety.Result.{Result, ok, err, value_error}

-- What the library does with text beyond ASCII: the IDNA codec, and the NFKC test on a netloc.
pub record Unicode : Type 0 where
  pub idna : Text → Option Text
  pub netloc_ok : Text → Bool

pub record SplitResult : Type 0 where
  pub scheme : Text
  pub netloc : Text
  pub path : Text
  pub query : Text
  pub fragment : Text

is_scheme_char : ℕ → Bool
is_scheme_char c = is_alpha c || is_digit c || (c == b'+' || (c == b'-' || c == b'.'))

starts_alpha : Text → Bool
starts_alpha [] = false
starts_alpha (c ∷ s) = is_alpha c

-- The scheme and the rest.
unfoldable pub split_scheme : Text → Text × Text
unfolding is_scheme_char starts_alpha
split_scheme url =
    let p = partition b':' url in
    if p.found && starts_alpha p.before && all is_scheme_char p.before
    then (lower p.before, p.after)
    else ([], url)

is_delimiter : ℕ → Bool
is_delimiter c = c == b'/' || (c == b'?' || c == b'#')

-- _splitnetloc, from behind the two slashes: up to the first of `/?#`.
unfoldable pub split_netloc : Text → Text × Text
unfolding is_delimiter
split_netloc [] = ([], [])
split_netloc (c ∷ s) =
    let (netloc, rest) = split_netloc s in
    if is_delimiter c then ([], c ∷ s) else (c ∷ netloc, rest)

-- An address in brackets: IPvFuture, or an IPv6 address, whose zone is not empty and has no `%`.
is_nonempty : Text → Bool
is_nonempty [] = false
is_nonempty (c ∷ s) = true

future_ok : Text → Bool
unfolding is_nonempty
future_ok version =
    let p = partition b'.' version in
    p.found && is_nonempty p.before && all is_hex p.before && is_nonempty p.after

is_ipv6 : Text → Bool
is_ipv6 s = elim (parse_ipv4 s) [
  | some n ↦ false
  | none ↦ (elim (parse_ipv6 s) [ some n ↦ true | none ↦ false ])
]

bracketed_ok : Text → Bool
unfolding future_ok is_ipv6 is_nonempty
bracketed_ok [] = false
bracketed_ok (c ∷ s) =
    if c == b'v'
    then future_ok s
    else (let p = partition b'%' (c ∷ s) in
        is_ipv6 p.before && (not p.found || (is_nonempty p.after && not (has_char b'%' p.after))))

-- The tests of `urlsplit` on the netloc; a failed one raises ValueError.
netloc_fits : Unicode → Text → Bool
unfolding bracketed_ok is_nonempty
netloc_fits u netloc =
    let opens = has_char b'[' netloc in
    let closes = has_char b']' netloc in
    let host = (rpartition b'@' netloc).after in
    let before = (partition b'[' host).before in
    let inner = partition b']' (partition b'[' host).after in
    let plain = partition b':' host in
    let bracket_ok =
      if has_char b'[' host
      then not (is_nonempty before)
        && (not (is_nonempty inner.after) || starts_with inner.after (codes ":"))
        && bracketed_ok inner.before
      else bracketed_ok plain.before in
    (if opens then closes && bracket_ok else not closes) && (is_ascii netloc || u.netloc_ok netloc)

is_removed : ℕ → Bool
is_removed c = c == 9 || (c == 10 || c == 13)

skip_two : Text → Text
skip_two (a ∷ b ∷ s) = s
skip_two s = s

unfoldable pub urlsplit : Unicode → Text → Result SplitResult
unfolding netloc_fits is_removed skip_two
urlsplit u url =
    let (scheme, rest) =
      split_scheme (keep (λ c. not (is_removed c)) (lstrip_by (λ c. leb c 32) url)) in
    let (netloc, rest) =
      if starts_with rest (codes "//") then split_netloc (skip_two rest) else ([], rest) in
    let cut = partition b'#' rest in
    let parts = partition b'?' cut.before in
    if netloc_fits u netloc
    then ok (record {
      scheme = scheme;
      netloc = netloc;
      path = parts.before;
      query = parts.after;
      fragment = cut.after;
    })
    else err value_error

-- `hostname`, in lower case up to a zone, and the port behind it.
host_and_port : Text → Text × Text
host_and_port netloc =
    let host = (rpartition b'@' netloc).after in
    let bracketed = partition b'[' host in
    let inner = partition b']' bracketed.after in
    let plain = partition b':' host in
    if bracketed.found
    then (inner.before, (partition b':' inner.after).after)
    else (plain.before, plain.after)

-- `parsed.hostname or ""`.
unfoldable pub hostname : SplitResult → Text
unfolding host_and_port
hostname r =
    let p = partition b'%' (host_and_port r.netloc).0 in
    lower p.before ++ (if p.found then b'%' ∷ p.after else [])

-- `parsed.port`; the ValueError is an error here.
port_of : Text → Result (Option ℕ)
port_of [] = ok none
port_of (c ∷ s) =
    let n = read_nat 10 0 (c ∷ s) in
    if is_digits (c ∷ s) && leb n 65535 then ok (some n) else err value_error

unfoldable pub port : SplitResult → Result (Option ℕ)
unfolding host_and_port port_of
port r = port_of (host_and_port r.netloc).1

-- `parsed.username or parsed.password`, as a test.
unfoldable pub has_credentials : SplitResult → Bool
unfolding is_nonempty
has_credentials r =
    let info = rpartition b'@' r.netloc in
    let user = partition b':' info.before in
    info.found && (is_nonempty user.before || is_nonempty user.after)

-- `urlunsplit`, for the schemes http and https.
rooted : Text → Text
rooted [] = []
rooted (c ∷ s) = if c == b'/' then c ∷ s else b'/' ∷ c ∷ s

with_tail : ℕ → Text → Text
with_tail c [] = []
with_tail c (d ∷ s) = c ∷ d ∷ s

unfoldable pub urlunsplit : SplitResult → Text
unfolding rooted with_tail
urlunsplit r =
    r.scheme
    ++ (codes "://"
        ++ (r.netloc ++ (rooted r.path ++ (with_tail b'?' r.query ++ with_tail b'#' r.fragment))))
