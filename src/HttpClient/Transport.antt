-- ===== src/HttpClient/Transport.antt =====
-- `_default_resolver`, `_connect_pinned`, `_do_one_request` and `_send_request_and_stream` of
-- browser_fetch_router/http_client.py. The network and the charset decoder are parameters; what the network
-- answers may change from hop to hop.
pub mod Streaming
pub mod Pinned
use browser_fetch_router.Prelude.{
  ℕ, zero, suc, ◌+◌, ◌-◌, min, Bool, true, false, not, ◌&&◌, ◌||◌, Option, none, some, List, [],
  ◌∷◌, ◌++◌, map, length, take, drop, ltb, ◌==◌, all, if◌then◌else◌,
}
use browser_fetch_router.Prelude.Text.{Text, codes, text_eq, lower, join, show_nat}
use browser_fetch_router.Prelude.Dict.{get, put}
use browser_fetch_router.UrlSafety.Result.{
  Unsafe, Error, missing_host, dns_resolution_failed, blocked_resolved_ip, peer_address_mismatch,
  header_non_ascii_byte, http_protocol_error, operational, response_too_large, Result, ok, err,
  unsafe, refuse_if, ◌>>=◌, ◌>>◌,
}
use browser_fetch_router.UrlSafety.ParseIp.{parse_ip}
use browser_fetch_router.UrlSafety.SplitUrl.{Unicode, SplitResult, urlsplit, hostname, port}
use browser_fetch_router.UrlSafety.Normalize.{is_http, is_https}
use browser_fetch_router.UrlSafety.Redirect.{
  ResolvedTarget, is_blocked_target, blocked_resolved_targets,
}
use browser_fetch_router.HttpClient.Headers.{Headers, validate_extra_headers}

abbrev pub Bytes : Type 0
Bytes = List ℕ

pub data Family : Type 0 where
  inet inet6 : Family
  other : ℕ → Family

-- What is written to a socket, and to whom the socket is connected.
pub record Wire : Type 0 where
  pub ip : Text
  pub port : ℕ
  pub use_tls : Bool
  pub hostname : Text
  pub head : Bytes
  pub body : Option Bytes

-- A response whose head was read: the body is what arrives, and how it ends.
pub record Reply : Type 0 where
  pub status : ℕ
  pub headers : Headers
  pub content : Bytes
  pub ends : Result (Unit {0})

pub data Begun : Type 0 where
  begun : Reply → Begun
  http_exception failed : Begun

pub record Network : Type 0 where
  -- `none` is a `gaierror`
  pub getaddrinfo : ℕ → Text → Option (List (Family × Text))
  -- `connect` on an IPv4 or IPv6 socket, and the address of the peer
  pub connect : ℕ → Bool → Text → ℕ → Result Text
  pub wrap_socket : ℕ → Text → Result (Unit {0})
  pub exchange : ℕ → Wire → Begun
  pub decode_with_charset : Bytes → Text → Text

pub record SafeResponse : Type 0 where
  pub url : Text
  pub status_code : ℕ
  pub text : Text
  pub headers : Headers

-- The arguments of `_do_one_request`.
pub record Call : Type 0 where
  pub url : Text
  pub method : Text
  pub body : Option Bytes
  pub headers : Headers

family_name : Family → Text
family_name Family.inet = codes "AF_INET"
family_name Family.inet6 = codes "AF_INET6"
family_name (Family.other n) = show_nat n

crlf : Text
crlf = 13 ∷ 10 ∷ []

pub host_header : Text → Text → ℕ → Text
host_header scheme name port =
    if (text_eq scheme (codes "http") && port == 80)
      || (text_eq scheme (codes "https") && port == 443)
    then name
    else name ++ (codes ":" ++ show_nat port)

content_length_lines : Option Bytes → List Text
content_length_lines none = []
content_length_lines (some body) = (codes "Content-Length: " ++ show_nat (length body)) ∷ []

header_lines : Headers → List Text
header_lines [] = []
header_lines ((k, v) ∷ headers) = (k ++ (codes ": " ++ v)) ∷ header_lines headers

unfoldable pub request_lines : Text → Text → Text → Option Bytes → Headers → List Text
unfolding content_length_lines header_lines
request_lines method path host body headers =
    (method ++ (codes " " ++ (path ++ codes " HTTP/1.1")))
    ∷ (codes "Host: " ++ host)
    ∷ codes "User-Agent: browser-fetch-router/0.1"
    ∷ codes "Accept: */*"
    ∷ codes "Connection: close"
    ∷ (content_length_lines body ++ (header_lines headers ++ ([] ∷ [] ∷ [])))

-- `s.encode("latin-1")`.
encode_latin1 : Text → Result Bytes
encode_latin1 s = if all (λ c. ltb c 256) s then ok s else err (unsafe header_non_ascii_byte)

path_and_query : SplitResult → Text
path_and_query r =
    (elim r.path [ [] ↦ codes "/" | (c ∷ s) ↦ c ∷ s ])
    ++ (elim r.query [ [] ↦ [] | (c ∷ s) ↦ b'?' ∷ c ∷ s ])

-- `parsed.port or (443 if https else 80)`.
effective_port : SplitResult → Option ℕ → ℕ
effective_port r none = if is_https r then 443 else 80
effective_port r (some p) = if p == 0 then (if is_https r then 443 else 80) else p

-- `if block_reason: raise UnsafeUrl(block_reason)`.
raise_reason : Option Unsafe → Result (Unit {0})
raise_reason none = ok tt
raise_reason (some code) = err (unsafe code)

-- `targets[0]`.
first_target : List ResolvedTarget → Result ResolvedTarget
first_target [] = err operational
first_target (t ∷ targets) = ok t

-- The loop that reads the body; `read(n)` returns the next `n` bytes, or what is left when the
-- stream ends. The fuel is above the length of the body, and every read but the last is not empty.
unfoldable pub read_chunk : ℕ → Bytes → Result (Unit {0}) → Result Bytes
read_chunk amount content ends =
    if ltb (length content) amount
    then ends >> ok (take amount content)
    else ok (take amount content)

unfoldable pub read_loop : ℕ → ℕ → Bytes → Result (Unit {0}) → ℕ → Bytes → Result Bytes
read_loop zero max_bytes content ends total received = err operational
read_loop (suc fuel) max_bytes content ends total received =
    let amount = min 65536 ((max_bytes + 1) - total) in
    elim (read_chunk amount content ends) [
      | err e ↦ err e
      | ok [] ↦ ok received
      | ok (b ∷ chunk) ↦
          let total = total + length (b ∷ chunk) in
          elim (ltb max_bytes total) [
            | true ↦ err response_too_large
            | false ↦
                read_loop fuel max_bytes (drop amount content) ends total (received ++ (b ∷ chunk))
          ]
    ]

unfoldable pub read_body : ℕ → Bytes → Result (Unit {0}) → Result Bytes
unfolding read_loop
read_body max_bytes content ends = read_loop (suc (length content)) max_bytes content ends 0 []

-- `{k.lower(): v for k, v in ...}`.
lower_names : Headers → Headers → Headers
lower_names d [] = d
lower_names d ((k, v) ∷ headers) = lower_names (put (lower k) v d) headers

text_or_empty : Option Text → Text
text_or_empty none = []
text_or_empty (some t) = t

module _ (net : Network) (allow_loopback : Bool) where
  targets_of : Text → List (Family × Text) → List ResolvedTarget
  unfolding family_name
  targets_of name [] = []
  targets_of name ((family, ip) ∷ infos) =
      record { hostname = name; ip = ip; family = family_name family } ∷ targets_of name infos

  unfoldable pub default_resolver : ℕ → Text → Result (List ResolvedTarget)
  unfolding targets_of
  default_resolver hop name = elim (net.getaddrinfo hop name) [
    | none ↦ err (unsafe dns_resolution_failed)
    | some infos ↦ ok (targets_of name infos)
  ]

  unfoldable pub connect_pinned : ℕ → Text → Text → ℕ → Bool → Text → Result (Unit {0})
  connect_pinned hop ip family port use_tls server_hostname = do
    peer ← net.connect hop (text_eq family (codes "AF_INET")) ip port
    candidate ← parse_ip peer
    refuse_if (is_blocked_target allow_loopback candidate) blocked_resolved_ip
    refuse_if (not (text_eq peer ip)) peer_address_mismatch
    if use_tls then net.wrap_socket hop server_hostname else ok tt

  -- `_do_one_request` up to the first byte that is sent.
  unfoldable pub prepare : Unicode → ℕ → Call → Result Wire
  unfolding effective_port raise_reason first_target path_and_query host_header encode_latin1 crlf
  prepare u hop call = do
    r ← urlsplit u call.url
    refuse_if (text_eq (hostname r) []) missing_host
    given ← port r
    targets ← default_resolver hop (hostname r)
    reason ← blocked_resolved_targets allow_loopback targets
    raise_reason reason
    chosen ← first_target targets
    validate_extra_headers (hostname r) call.headers
    connect_pinned hop chosen.ip chosen.family (effective_port r given) (is_https r) (hostname r)
    head ← encode_latin1 (
        join crlf (
          request_lines call.method (path_and_query r)
            (host_header r.scheme (hostname r) (effective_port r given)) call.body call.headers))
    ok (record {
      ip = chosen.ip;
      port = effective_port r given;
      use_tls = is_https r;
      hostname = hostname r;
      head = head;
      body = call.body;
    })

  -- `_send_request_and_stream` from there on. The URL of the response leaves out the ports 80 and 443.
  response_url : SplitResult → ℕ → Text
  unfolding path_and_query
  response_url r port =
      r.scheme
      ++ (codes "://"
          ++ (hostname r
              ++ ((if port == 80 || port == 443 then [] else codes ":" ++ show_nat port)
                  ++ path_and_query r)))

  unfoldable pub receive : Unicode → ℕ → ℕ → Call → Wire → Result SafeResponse
  unfolding read_body lower_names text_or_empty response_url
  receive u max_bytes hop call wire = elim (net.exchange hop wire) [
    | http_exception ↦ err (unsafe http_protocol_error)
    | failed ↦ err operational
    | begun reply ↦
        let headers = lower_names [] reply.headers in
        (do
          content ← read_body max_bytes reply.content reply.ends
          r ← urlsplit u call.url
          ok (record {
            url = response_url r wire.port;
            status_code = reply.status;
            text =
                net.decode_with_charset content
                  (text_or_empty (get (codes "content-type") headers));
            headers = headers;
          }))
  ]
