-- ===== src/HttpClient/Requests.antt =====
-- `SafeHttpClient.request` and `get_text` of browser_fetch_router/http_client.py. Beside the result, the
-- model returns the requests that were sent, in order, and whether a warning was printed. A body
-- that is a `str` is given as its bytes.
pub mod Follow
pub mod Trace
pub mod Guarantees
pub mod Credentials
use browser_fetch_router.Prelude.{
  ℕ, zero, suc, Bool, true, false, not, ◌&&◌, ◌||◌, Option, none, some, List, [], ◌∷◌, keep, ◌==◌,
  any, if◌then◌else◌,
}
use browser_fetch_router.Prelude.Text.{Text, codes, text_eq, one_of, lower, upper, starts_with}
use browser_fetch_router.Prelude.Dict.{get}
use browser_fetch_router.UrlSafety.Result.{
  unsupported_method, side_effect_like_url, unexpected_redirect, side_effect_redirect_blocked,
  redirect_hop_limit, Error, Result, ok, err, unsafe, refuse_if, ◌>>=◌, ◌>>◌,
}
use browser_fetch_router.UrlSafety.SplitUrl.{Unicode, SplitResult, urlsplit, hostname}
use browser_fetch_router.UrlSafety.Normalize.{normalize_and_validate_url}
use browser_fetch_router.UrlSafety.Redirect.{validate_redirect, env_allows_https_downgrade}
use browser_fetch_router.HttpClient.SideEffects.{
  SideEffectPolicy, should_block_side_effect_redirect, side_effect_warning,
}
use browser_fetch_router.HttpClient.Headers.{Headers}
use browser_fetch_router.HttpClient.Transport.{
  Bytes, Wire, Network, Call, SafeResponse, prepare, receive,
}

-- What the client is built from: the libraries and the network, its `loopback_ok`, and the
-- value of BFR_ALLOW_HTTPS_DOWNGRADE.
pub record Client : Type 0 where
  pub unicode : Unicode
  pub urljoin : Text → Text → Result Text
  pub unquote : Text → Text
  pub network : Network
  pub loopback_ok : Bool
  pub downgrade_setting : Option Text

-- The arguments of `request` that do not change on the way.
pub record Options : Type 0 where
  pub max_bytes : ℕ
  pub policy : SideEffectPolicy
  pub follow_redirects : Bool

-- The variables that the loop updates.
pub record State : Type 0 where
  pub call : Call
  pub last_host : Text

pub record Sent : Type 0 where
  pub hop : ℕ
  pub call : Call
  pub wire : Wire

pub record Outcome : Type 0 where
  pub warned : Bool
  pub result : Result SafeResponse
  pub sent : List Sent

abbrev pub is_redirect : ℕ → Bool
is_redirect status =
    status == 301 || (status == 302 || (status == 303 || (status == 307 || status == 308)))

abbrev pub drops_body : ℕ → Bool
drops_body status = status == 301 || (status == 302 || status == 303)

abbrev pub is_secret : Text → Bool
is_secret k = one_of (lower k) (codes "authorization" ∷ codes "cookie" ∷ [])

abbrev pub is_content : Text → Bool
is_content k = starts_with (lower k) (codes "content-")

unfoldable pub host_headers : Text → Text → Headers → Headers
host_headers last_host new_host headers =
    if text_eq (lower new_host) (lower last_host)
    then headers
    else keep (λ ((k, v) : Text × Text). not (is_secret k)) headers

-- The method, body and headers of the next hop.
unfoldable pub advance : State → ℕ → Text → Text → State
unfolding host_headers
advance s status new_url new_host =
    let headers = host_headers s.last_host new_host s.call.headers in
    record {
      call =
          if drops_body status
          then record {
            url = new_url;
            method = codes "GET";
            body = none;
            headers = keep (λ ((k, v) : Text × Text). not (is_content k)) headers;
          }
          else record {
            url = new_url;
            method = s.call.method;
            body = s.call.body;
            headers = headers;
          };
      last_host = new_host;
    }

-- `if not location`.
location_of : SafeResponse → Option Text
location_of response = elim (get (codes "location") response.headers) [
  | none ↦ none
  | some [] ↦ none
  | some (c ∷ s) ↦ some (c ∷ s)
]

module _ (client : Client) (options : Options) where
  redirect_to : State → ℕ → Text → Result State
  redirect_to s status location = do
    new_url ←
        validate_redirect client.unicode client.urljoin s.call.url location
          (env_allows_https_downgrade client.downgrade_setting) client.loopback_ok
    blocked ← should_block_side_effect_redirect client.unquote client.unicode options.policy new_url
    refuse_if blocked side_effect_redirect_blocked
    r ← urlsplit client.unicode new_url
    ok (advance s status new_url (hostname r))

  -- What follows a response: `none` is that it is returned.
  unfoldable pub next_state : State → SafeResponse → Result (Option State)
  unfolding redirect_to location_of
  next_state s response =
      if is_redirect response.status_code
      then (if options.follow_redirects
          then elim (location_of response) [
            | none ↦ ok none
            | some location ↦ (do
              next ← redirect_to s response.status_code location
              ok (some next))
          ]
          else err (unsafe (unexpected_redirect response.status_code)))
      else ok none

  exchange : ℕ → State → Wire → Result (SafeResponse × Option State)
  exchange hop s wire = do
    response ←
        receive client.network client.loopback_ok client.unicode options.max_bytes hop s.call wire
    next ← next_state s response
    ok (response, next)

  -- The loop, with the hops that are left.
  unfoldable pub run_hops : ℕ → ℕ → State → Result SafeResponse × List Sent
  unfolding exchange
  run_hops zero hop s = (err (unsafe redirect_hop_limit), [])
  run_hops (suc left) hop s =
      elim (prepare client.network client.loopback_ok client.unicode hop s.call) [
        | err e ↦ (err e, [])
        | ok wire ↦
            let this : Sent = record { hop = hop; call = s.call; wire = wire } in
            elim (exchange hop s wire) [
              | err e ↦ (err e, this ∷ [])
              | ok (response, none) ↦ (ok response, this ∷ [])
              | ok (response, some next) ↦
                  let (result, sent) = run_hops left (suc hop) next in (result, this ∷ sent)
            ]
      ]

  -- The first state, behind the tests before the first request.
  first_state : Text → Option Bytes → Headers → Text → Result State
  first_state method body headers current = do
    r ← urlsplit client.unicode current
    ok (record {
      call = record { url = current; method = method; body = body; headers = headers };
      last_host = hostname r;
    })

  methods : List Text
  methods = codes "GET" ∷ codes "POST" ∷ codes "PUT" ∷ codes "DELETE" ∷ codes "HEAD" ∷ []

  unfoldable pub admit : Text → Text → Option Bytes → Headers → Result (Bool × State)
  unfolding first_state methods
  admit method url body headers = do
    refuse_if (not (one_of (upper method) methods)) unsupported_method
    current ← normalize_and_validate_url client.unicode client.loopback_ok url
    warning ← side_effect_warning client.unquote client.unicode options.policy current
    refuse_if (warning && options.policy.strict) side_effect_like_url
    s ← first_state (upper method) body headers current
    ok (warning, s)

  unfoldable pub request : Text → Text → Option Bytes → Headers → Outcome
  unfolding run_hops
  request method url body headers = elim (admit method url body headers) [
    | err e ↦ record { warned = false; result = err e; sent = [] }
    | ok (warning, s) ↦
        let (result, sent) = run_hops 10 0 s in
        record { warned = warning; result = result; sent = sent }
  ]

  unfoldable pub get_text : Text → Headers → Outcome
  unfolding request
  get_text url headers = request (codes "GET") url none headers
