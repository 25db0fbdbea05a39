-- ===== src/Tests/Web.antt =====
-- A small web: names resolve to one public address, and a redirect leads to another host.
use browser_fetch_router.Prelude.{
  ◌≡◌, ◌≢◌, ◌↔◌, inl, arith, All, refl, true, false, none, List, [], ◌∷◌, any, all, keep,
}
use browser_fetch_router.Prelude.Text.{
  Text, codes, text_eq, one_of, has_char, lower_char, lower, is_digits, starts_with, partition,
  rpartition, split, lstrip_by, rstrip_by, strip, join, show_nat, read_nat,
}
use browser_fetch_router.UrlSafety.Result.{Result, ok}
use browser_fetch_router.UrlSafety.SplitUrl.{
  Unicode, SplitResult, urlsplit, hostname, split_scheme, split_netloc, port, has_credentials,
  urlunsplit,
}
use browser_fetch_router.UrlSafety.ParseIp.{parse_ip, parse_ipv4, parse_ipv6}
use browser_fetch_router.UrlSafety.Ip.{octets}
use browser_fetch_router.UrlSafety.Ip.Blocking.{loopback}
use browser_fetch_router.UrlSafety.ParseIp.Notations.{Notation, hexadecimal}
use browser_fetch_router.UrlSafety.Encode.{encode_idna, quote, is_kept, utf8}
use browser_fetch_router.UrlSafety.Normalize.{
  is_blocked_port, is_blocked_name, is_single_label, canonical_name, canonical_host, validate_split,
  get_or, normalize_and_validate_url,
}
use browser_fetch_router.UrlSafety.Normalize.Accepted.{Internal-refused}
use browser_fetch_router.UrlSafety.Redirect.{ResolvedTarget, blocked_resolved_targets}
use browser_fetch_router.UrlSafety.Redirect.Laws.{IsReachable, blocked_resolved_targets_iff}

abbrev pub unicode : Unicode
unicode = record { idna = λ s. none; netloc_ok = λ s. true }

abbrev pub page : Text
page = codes "https://www.example.com/a?q=1"

abbrev pub page_parts : SplitResult
page_parts = record {
  scheme = codes "https";
  netloc = codes "www.example.com";
  path = codes "/a";
  query = codes "q=1";
  fragment = [];
}

pub normalize_page : normalize_and_validate_url unicode false page ≡ ok page
unfolding normalize_and_validate_url validate_split urlsplit split_scheme split_netloc hostname port
    has_credentials urlunsplit is_blocked_port is_blocked_name is_single_label canonical_name
    canonical_host get_or parse_ip parse_ipv4 parse_ipv6 is_digits encode_idna quote is_kept utf8
    split one_of text_eq strip rstrip_by starts_with partition rpartition all any keep lower
    lower_char lstrip_by has_char codes join show_nat read_nat
normalize_page = refl

pub split_page : urlsplit unicode page ≡ ok page_parts
unfolding urlsplit split_scheme split_netloc starts_with partition rpartition all any keep lower
    lower_char lstrip_by has_char codes
split_page = refl

-- The loopback address as one hexadecimal number.
abbrev sneaky : Text
sneaky = codes "http://0x7f000001/admin"

abbrev sneaky_parts : SplitResult
sneaky_parts = record {
  scheme = codes "http";
  netloc = codes "0x7f000001";
  path = codes "/admin";
  query = [];
  fragment = [];
}

split_sneaky : urlsplit unicode (strip sneaky) ≡ ok sneaky_parts
unfolding urlsplit split_scheme split_netloc starts_with partition rpartition all any keep lower
    lower_char lstrip_by has_char codes strip rstrip_by
split_sneaky = refl

sneaky-Notation : Notation (hostname sneaky_parts) (octets 127 0 0 1)
unfolding normalize_and_validate_url validate_split urlsplit split_scheme split_netloc hostname port
    has_credentials urlunsplit is_blocked_port is_blocked_name is_single_label canonical_name
    canonical_host get_or parse_ip parse_ipv4 parse_ipv6 is_digits encode_idna quote is_kept utf8
    split one_of text_eq strip rstrip_by starts_with partition rpartition all any keep lower
    lower_char lstrip_by has_char codes join show_nat read_nat
sneaky-Notation = hexadecimal (codes "7f000001") (omega arith) refl (λ e. absurd (cc)) refl refl

Internal-refused_example : normalize_and_validate_url unicode false sneaky ≢ ok sneaky
Internal-refused_example =
    Internal-refused unicode sneaky sneaky sneaky_parts (octets 127 0 0 1) split_sneaky
      (loopback (omega arith) (omega arith)) (inl sneaky-Notation)

abbrev pub urljoin : Text → Text → Result Text
urljoin source location = ok location

abbrev answers : List ResolvedTarget
answers =
    record {
      hostname = codes "www.example.com";
      ip = codes "93.184.216.34";
      family = codes "AF_INET";
    }
    ∷ record { hostname = codes "www.example.com"; ip = codes "10.0.0.1"; family = codes "AF_INET" }
    ∷ []

blocked_resolved_targets_iff_example :
    (blocked_resolved_targets false answers ≡ ok none)
    ↔ ((answers ≢ []) × All (IsReachable false) answers)
blocked_resolved_targets_iff_example = blocked_resolved_targets_iff false answers
