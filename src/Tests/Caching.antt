-- ===== src/Tests/Caching.antt =====
-- The cache, its lock, and reads of pages.
use browser_fetch_router.Prelude.{
  ◌<◌, ℕ, ◌+◌, ◌*◌, ◌≤◌, ◌≡◌, refl, Bool, true, false, ltb, none, some, [], ◌∷◌, any, all, keep,
  if◌then◌else◌, arith,
}
use browser_fetch_router.Prelude.Text.{
  codes, text_eq, one_of, has_char, lower_char, lower, is_digits, starts_with, partition,
  rpartition, split, lstrip_by, rstrip_by, strip, join, show_nat, read_nat,
}
use browser_fetch_router.Prelude.Dict.{get}
use browser_fetch_router.UrlSafety.Result.{Result, ok}
use browser_fetch_router.UrlSafety.SplitUrl.{
  urlsplit, hostname, split_scheme, split_netloc, port, has_credentials, urlunsplit,
}
use browser_fetch_router.UrlSafety.ParseIp.{parse_ip, parse_ipv4, parse_ipv6}
use browser_fetch_router.UrlSafety.Encode.{encode_idna, quote, is_kept, utf8}
use browser_fetch_router.UrlSafety.Normalize.{
  is_blocked_port, is_blocked_name, is_single_label, canonical_name, canonical_host, validate_split,
  get_or, normalize_and_validate_url,
}
use browser_fetch_router.Json.{string, Fields, as_dict, as_text, lookup, equals_text, is_truthy}
use browser_fetch_router.Cache.{read, write}
use browser_fetch_router.Cache.Expiry.{read-write}
use browser_fetch_router.Cache.Lock.{busy, acquire, IsEnd, GoesOn, acquire-ends}
use browser_fetch_router.ReadWeb.Payloads.{
  Providers, Arguments, route_of_host, classify_route, dispatch_primary, wants_paid,
  maybe_paid_fallback, shape_envelope, finalize,
}
use browser_fetch_router.ReadWeb.Reads.{
  Moment, stored, shaped, fetched, on_cache, ask_unless, ask_cache, read_route, routed,
  url_and_route, read_web,
}
use browser_fetch_router.ReadWeb.Paying.{IsPaid, read_web-IsPaid}
use browser_fetch_router.ReadWeb.Cached.{read_web-cached}
use browser_fetch_router.Tests.Web.{unicode, page}

abbrev cached : Fields
cached =
    (codes "status", string (codes "ok")) ∷ (codes "content_markdown", string (codes "hello")) ∷ []

abbrev poor : Fields
poor = (codes "status", string (codes "insufficient_content")) ∷ []

read-write_example : (read (codes "k") 2000000 (write (codes "k") cached 10 1000000 [])).0 ≡ (
    if text_eq (codes "k") (codes "k")
    then ok (if ltb (1000000 + 10 * 1000000) 2000000 then none else some cached)
    else (read (codes "k") 2000000 []).0)
read-write_example = read-write (codes "k") (codes "k") cached 10 1000000 2000000 []

-- Another process holds the lock for ever: a round each fifty milliseconds, for five seconds.
acquire-ends_example :
    (r : Result Bool) × (k : ℕ) × (acquire (λ i. busy) (λ i. i * 50000) 5000000 101 0 ≡ some r)
    × (k ≤ 100)
    × IsEnd (λ i. busy) (λ i. i * 50000) 5000000 (0 + k) r
    × ((j : ℕ) → j < k → GoesOn (λ i. busy) (λ i. i * 50000) 5000000 (0 + j))
acquire-ends_example =
    acquire-ends (λ i. busy) (λ i. i * 50000) 5000000 50000 100 0 (λ j. omega arith) (omega arith)

abbrev providers : Providers
providers = record {
  fetch_fxtwitter = λ url. ok [];
  fetch_reddit = λ url. ok [];
  fetch_jina = λ url. ok poor;
  fetch_parallel = λ url. ok cached;
  cache_key = λ route url. url;
}

abbrev arguments : Arguments
arguments = record {
  allow_paid = true;
  no_cache = false;
  max_chars = 3;
  session_id = some (codes "s1");
  invoking_agent = none;
}

abbrev moment : Moment
moment = record {
  now = 2000000;
  at_lock = λ files. files;
  at_write = λ files. files;
  write_fails = false;
}

paid : (read_web unicode providers arguments moment page []).paid ≡ true
unfolding is_truthy read_web routed read_route ask_cache ask_unless on_cache fetched shaped stored
    url_and_route classify_route route_of_host dispatch_primary maybe_paid_fallback wants_paid
    shape_envelope lookup equals_text as_text as_dict read get normalize_and_validate_url
    validate_split urlsplit split_scheme split_netloc hostname port has_credentials urlunsplit
    is_blocked_port is_blocked_name is_single_label canonical_name canonical_host get_or parse_ip
    parse_ipv4 parse_ipv6 is_digits encode_idna quote is_kept utf8 split one_of text_eq strip
    rstrip_by starts_with partition rpartition all any keep lower lower_char lstrip_by has_char
    codes join show_nat read_nat
paid = refl

read_web-IsPaid_example : IsPaid unicode providers arguments moment page
read_web-IsPaid_example = read_web-IsPaid unicode providers arguments moment page [] paid

page_route : url_and_route unicode page ≡ ok (page, codes "jina-reader")
unfolding url_and_route classify_route route_of_host normalize_and_validate_url validate_split
    urlsplit split_scheme split_netloc hostname port has_credentials urlunsplit is_blocked_port
    is_blocked_name is_single_label canonical_name canonical_host get_or parse_ip parse_ipv4
    parse_ipv6 is_digits encode_idna quote is_kept utf8 split one_of text_eq strip rstrip_by
    starts_with partition rpartition all any keep lower lower_char lstrip_by has_char codes join
    show_nat read_nat
page_route = refl

read_web-cached_example :
    let files = write page cached 600 1000000 [] in
    ((read_web unicode providers arguments moment page files).result
      ≡ finalize arguments true cached)
    × ((read_web unicode providers arguments moment page files).called ≡ false)
read_web-cached_example =
    read_web-cached unicode providers arguments moment page page (codes "jina-reader") cached 600
      1000000 [] refl page_route (omega arith)
