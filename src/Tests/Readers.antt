-- ===== src/Tests/Readers.antt =====
-- A page through the Jina reader.
use browser_fetch_router.HttpClient.Requests.{
  get_text, request, admit, run_hops, next_state, Client,
}
use browser_fetch_router.HttpClient.Transport.{
  prepare, receive as receive_response, connect_pinned, default_resolver, read_body, read_loop,
  read_chunk, request_lines, Family, begun, Network,
}
use browser_fetch_router.HttpClient.Headers.{
  validate_extra_headers, validate_header, has_control, is_token_char, is_value_char,
}
use browser_fetch_router.HttpClient.SideEffects.{
  side_effect_warning, warns, should_block, query_has_one_time_token, path_has_action,
  query_has_action, parse_qsl,
}
use browser_fetch_router.UrlSafety.Redirect.{blocked_resolved_targets}
use browser_fetch_router.UrlSafety.Normalize.{
  normalize_and_validate_url, validate_split, is_blocked_port, is_blocked_name, is_single_label,
  canonical_name, canonical_host, get_or,
}
use browser_fetch_router.UrlSafety.SplitUrl.{
  urlsplit, split_scheme, split_netloc, hostname, port, has_credentials, urlunsplit,
}
use browser_fetch_router.UrlSafety.ParseIp.{parse_ip, parse_ipv4, parse_ipv6, ip_address, show_ipv4}
use browser_fetch_router.Prelude.Text.{
  is_digits, split, one_of, text_eq, strip, rstrip_by, starts_with, ends_with, contains_text,
  partition, rpartition, lower, upper, lower_char, lstrip_by, has_char, codes, join, show_nat,
  read_nat, Text,
}
use browser_fetch_router.UrlSafety.Encode.{encode_idna, quote, is_kept, utf8}
use browser_fetch_router.Prelude.{
  all, any, keep, ◌≡◌, refl, ℕ, zero, suc, true, false, none, some, [], ◌∷◌, ◌++◌,
}
use browser_fetch_router.UrlSafety.Ip.{is_blocked_ip, is_blocked4, is_private4, is_extra_blocked}
use browser_fetch_router.Prelude.Dict.{get, put}
use browser_fetch_router.UrlSafety.Result.{Error, ok}
use browser_fetch_router.Json.{Fields, lookup, equals_text, as_text}
use browser_fetch_router.Quality.{
  assess_quality, signals_of, has_login_wall, contains_marker, contains_phrase_marker, word_count,
  visible_text, is_none, when,
}
use browser_fetch_router.Providers.Jina.{fetch, of_fetch, of_reply, judged, jina_result, reader_url}
use browser_fetch_router.Providers.Readable.{IsReadable, fetch-IsReadable}
use browser_fetch_router.Tests.Web.{unicode, urljoin, page}

-- Twenty-one words.
abbrev words : ℕ → Text
words zero = []
words (suc n) = codes "abcdef " ++ words n

abbrev text : Text
text = words 21

abbrev network : Network
network = record {
  getaddrinfo = λ hop name. some ((Family.inet, codes "93.184.216.34") ∷ []);
  connect = λ hop inet ip port. ok ip;
  wrap_socket = λ hop name. ok tt;
  exchange =
      λ hop wire. begun (record { status = 200; headers = []; content = text; ends = ok tt });
  decode_with_charset = λ content charset. content;
}

abbrev client : Client
client = record {
  unicode = unicode;
  urljoin = urljoin;
  unquote = λ s. s;
  network = network;
  loopback_ok = false;
  downgrade_setting = none;
}

abbrev message : Error → Text
message e = codes "failed"

abbrev payload : Fields
payload = judged (reader_url page) text (assess_quality (λ s. s) text text)

fetched : fetch (λ s. s) message client page ≡ ok payload
unfolding reader_url fetch of_fetch of_reply get_text request admit run_hops next_state prepare
    receive_response connect_pinned default_resolver read_body read_loop read_chunk request_lines
    validate_extra_headers side_effect_warning warns should_block query_has_one_time_token
    path_has_action blocked_resolved_targets normalize_and_validate_url validate_split urlsplit
    split_scheme split_netloc hostname port has_credentials urlunsplit is_blocked_port
    is_blocked_name is_single_label canonical_name canonical_host get_or parse_ip parse_ipv4
    parse_ipv6 is_digits encode_idna quote is_kept utf8 split one_of text_eq strip rstrip_by
    starts_with ends_with contains_text partition rpartition all any keep lower upper lower_char
    lstrip_by has_char codes join show_nat read_nat is_blocked_ip is_blocked4 is_private4
    is_extra_blocked ip_address get put show_ipv4 query_has_action parse_qsl validate_header
    has_control is_token_char is_value_char
fetched = refl

payload_ok : equals_text (lookup (codes "status") payload) (codes "ok") ≡ true
unfolding judged jina_result assess_quality signals_of has_login_wall contains_marker
    contains_phrase_marker word_count visible_text is_none when contains_text lower lower_char split
    starts_with any keep text_eq strip rstrip_by lstrip_by codes lookup get equals_text as_text
    one_of
payload_ok = refl

fetch-IsReadable_example : IsReadable (λ s. s) message client page payload
fetch-IsReadable_example = fetch-IsReadable (λ s. s) message client page payload fetched payload_ok
