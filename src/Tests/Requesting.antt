-- ===== src/Tests/Requesting.antt =====
-- Requests through the client, to the small web.
use browser_fetch_router.Prelude.{
  ℕ, zero, suc, ◌≡◌, ◌≤◌, ◌↔◌, ◌⊎◌, true, false, Option, none, some, List, [], ◌∷◌, All, length,
  if◌then◌else◌,
}
use browser_fetch_router.Prelude.Text.{codes, lower, upper}
use browser_fetch_router.UrlSafety.Result.{ok}
use browser_fetch_router.UrlSafety.SplitUrl.{hostname}
use browser_fetch_router.HttpClient.SideEffects.{SideEffectPolicy}
use browser_fetch_router.HttpClient.Headers.{Headers, validate_extra_headers}
use browser_fetch_router.HttpClient.Headers.Framing.{IsHarmless, validate_extra_headers_iff}
use browser_fetch_router.HttpClient.Transport.{Family, Reply, begun, Network, read_body}
use browser_fetch_router.HttpClient.Transport.Streaming.{bounded, read_body-bounded}
use browser_fetch_router.HttpClient.Requests.{Client, Options, Sent, request}
use browser_fetch_router.HttpClient.Requests.Guarantees.{
  IsGuarded, request-IsGuarded, request-length,
}
use browser_fetch_router.HttpClient.Requests.Credentials.{has_secret, request-secret, request-body}
use browser_fetch_router.Tests.Web.{unicode, urljoin, page, page_parts, normalize_page, split_page}

abbrev reply : ℕ → Reply
reply zero = record {
  status = 302;
  headers = (codes "Location", codes "https://other.example.org/") ∷ [];
  content = [];
  ends = ok tt;
}
reply (suc hop) = record { status = 200; headers = []; content = codes "hello"; ends = ok tt }

abbrev network : Network
network = record {
  getaddrinfo = λ hop name. some ((Family.inet, codes "93.184.216.34") ∷ []);
  connect = λ hop inet ip port. ok ip;
  wrap_socket = λ hop name. ok tt;
  exchange = λ hop wire. begun (reply hop);
  decode_with_charset = λ content charset. content;
}

abbrev client : Client
client = record {
  unicode = unicode;
  urljoin = urljoin;
  unquote = λ s. s;
  network = network;
  loopback_ok = false;
  downgrade_setting = none;
}

abbrev policy : SideEffectPolicy
policy = record { strict = true; allow = false }

abbrev options : Options
options = record { max_bytes = 1000; policy = policy; follow_redirects = true }

abbrev secrets : Headers
secrets = (codes "Authorization", codes "Bearer abc") ∷ (codes "X-Trace", codes "1") ∷ []

abbrev body : Option (List ℕ)
body = some (codes "data")

request-IsGuarded_example :
    All (IsGuarded client options) (request client options (codes "POST") page body secrets).sent
request-IsGuarded_example = request-IsGuarded client options (codes "POST") page body secrets

request-length_example :
    length (request client options (codes "POST") page body secrets).sent
    ≤ (if options.follow_redirects then 10 else 1)
request-length_example = request-length client options (codes "POST") page body secrets

request-secret_example :
    All
      (λ (s : Sent).
        (has_secret s.call.headers ≡ false) ⊎ (lower s.wire.hostname ≡ lower (hostname page_parts)))
      (request client options (codes "POST") page body secrets).sent
request-secret_example =
    request-secret client options (codes "POST") page body secrets page page_parts normalize_page
      split_page

request-body_example :
    All
      (λ (s : Sent).
        ((s.call.method ≡ upper (codes "POST")) × (s.wire.body ≡ body))
        ⊎ ((s.call.method ≡ codes "GET") × (s.wire.body ≡ none)))
      (request client options (codes "POST") page body secrets).sent
request-body_example = request-body client options (codes "POST") page body secrets

read_body-bounded_example : read_body 3 (codes "hello") (ok tt) ≡ bounded 3 (codes "hello") (ok tt)
read_body-bounded_example = read_body-bounded 3 (codes "hello") (ok tt)

validate_extra_headers_iff_example :
    (validate_extra_headers (codes "www.example.com") secrets ≡ ok tt) ↔ All IsHarmless secrets
validate_extra_headers_iff_example = validate_extra_headers_iff (codes "www.example.com") secrets
