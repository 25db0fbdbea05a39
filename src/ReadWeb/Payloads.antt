-- ===== src/ReadWeb/Payloads.antt =====
-- `classify_route`, `_dispatch_primary`, `_maybe_paid_fallback`, `_shape_envelope` and `_finalize` of
-- browser_fetch_router/read_web.py. The providers are parameters, and so is the digest that names a file
-- of the cache.
use browser_fetch_router.Prelude.{
  ℕ, Bool, true, false, ◌&&◌, ◌||◌, ltb, length, take, Option, none, some, List, [], ◌∷◌, ◌++◌, map,
  if◌then◌else◌,
}
use browser_fetch_router.Prelude.Text.{Text, codes, text_eq, one_of, lower, show_nat}
use browser_fetch_router.Prelude.Dict.{get, put}
use browser_fetch_router.UrlSafety.Result.{type_error, Result, ok, err, ◌>>=◌}
use browser_fetch_router.UrlSafety.SplitUrl.{Unicode, urlsplit, hostname}
use browser_fetch_router.Json.{
  Json, null, boolean, integer, string, object, Fields, members, as_dict, as_text, lookup,
  equals_text, update, is_truthy, text_or_null,
}
use browser_fetch_router.Schema.{envelope_of}

abbrev pub x_hosts : List Text
x_hosts = map codes (
    "x.com" ∷ "twitter.com" ∷ "www.x.com" ∷ "www.twitter.com" ∷ "mobile.twitter.com"
    ∷ "m.twitter.com" ∷ [])

abbrev pub reddit_hosts : List Text
reddit_hosts = map codes ("reddit.com" ∷ "www.reddit.com" ∷ "old.reddit.com" ∷ "np.reddit.com" ∷ [])

unfoldable pub route_of_host : Text → Text
route_of_host host =
    if one_of host x_hosts
    then codes "fxtwitter"
    else if one_of host reddit_hosts
    then codes "reddit-json"
    else codes "jina-reader"

unfoldable pub classify_route : Unicode → Text → Result Text
classify_route u url = do r ← urlsplit u url; ok (route_of_host (lower (hostname r)))

-- The providers, each of them its answer to a URL, and the digest of a route and a URL.
pub record Providers : Type 0 where
  pub fetch_fxtwitter : Text → Result Fields
  pub fetch_reddit : Text → Result Fields
  pub fetch_jina : Text → Result Fields
  pub fetch_parallel : Text → Result Fields
  pub cache_key : Text → Text → Text

-- The arguments of a read. A `max_chars` below zero is zero here: neither truncates.
pub record Arguments : Type 0 where
  pub allow_paid : Bool
  pub no_cache : Bool
  pub max_chars : ℕ
  pub session_id : Option Text
  pub invoking_agent : Option Text

unfoldable pub dispatch_primary : Providers → Text → Text → Result Fields
dispatch_primary p route url =
    if text_eq route (codes "fxtwitter")
    then p.fetch_fxtwitter url
    else if text_eq route (codes "reddit-json")
    then p.fetch_reddit url
    else p.fetch_jina url

paid_not_allowed : Fields → Fields
paid_not_allowed primary = update primary (
    (codes "status", string (codes "quota_or_key_missing"))
    ∷ (
      codes "error",
      object (
          members (
            (codes "code", string (codes "paid_fallback_not_allowed"))
            ∷ (
              codes "message",
              string
                  (codes "Jina returned low-quality content. Pass --allow-paid to try Parallel."),
            )
            ∷ (codes "primary_status", lookup (codes "status") primary)
            ∷ [])),
    )
    ∷ [])

-- The test for the paid provider.
unfoldable pub wants_paid : Text → Fields → Bool
wants_paid route primary =
    text_eq route (codes "jina-reader")
    && equals_text (lookup (codes "status") primary) (codes "insufficient_content")

-- The answer, and whether the paid provider was called.
unfoldable pub maybe_paid_fallback : Providers → Bool → Fields → Text → Text → Result Fields × Bool
unfolding paid_not_allowed
maybe_paid_fallback p allow_paid primary url route =
    if wants_paid route primary
    then if allow_paid then (p.fetch_parallel url, true) else (ok (paid_not_allowed primary), false)
    else (ok primary, false)

-- `result.get("status", "internal_error")`.
status_or_internal : Option Json → Json
status_or_internal none = string (codes "internal_error")
status_or_internal (some v) = v

quality_of : Json → Result Json
quality_of evidence =
    if is_truthy evidence
    then elim (as_dict evidence) [
      | none ↦ err type_error
      | some d ↦ ok (lookup (codes "quality") d)
    ]
    else ok null

unfoldable pub shape_envelope : Fields → Text → Text → Result Fields
unfolding status_or_internal quality_of
shape_envelope result url route = do
  quality ← quality_of (lookup (codes "evidence") result)
  ok (
      envelope_of (codes "read-web") (status_or_internal (get (codes "status") result)) (
        (codes "url", string url)
        ∷ (codes "route", string route)
        ∷ (codes "provider", lookup (codes "provider") result)
        ∷ (codes "title", lookup (codes "title") result)
        ∷ (codes "content_markdown", lookup (codes "content_markdown") result)
        ∷ (codes "evidence", lookup (codes "evidence") result)
        ∷ (codes "quality", quality)
        ∷ (codes "error", lookup (codes "error") result)
        ∷ []))

-- The content that fits, and whether it was cut.
unfoldable pub truncated : ℕ → Text → Text × Bool
truncated max_chars content =
    if ltb 0 max_chars && ltb max_chars (length content)
    then (
      take max_chars content
          ++ (10 ∷ 10 ∷ (codes "[TRUNCATED after " ++ (show_nat max_chars ++ codes " chars]"))),
      true,
    )
    else (content, false)

dict_or_type_error : Option Fields → Result Fields
dict_or_type_error none = err type_error
dict_or_type_error (some d) = ok d

-- `payload["evidence"]` for assignments to its keys, where None is a new dict.
unfoldable pub evidence_of : Json → Result Fields
unfolding dict_or_type_error
evidence_of null = ok []
evidence_of v = dict_or_type_error (as_dict v)

-- The marks of truncation on the content and the evidence.
unfoldable pub cut_to : ℕ → Fields → Fields → Option Text → Fields
cut_to max_chars payload evidence none =
    put (codes "evidence") (object (members (put (codes "truncated") (boolean false) evidence)))
      payload
cut_to max_chars payload evidence (some content) =
    let (text, cut) = truncated max_chars content in
    if cut
    then put (codes "evidence")
        (object (
          members (
            put (codes "original_chars") (integer false (length content))
              (put (codes "truncated") (boolean true) evidence))))
        (put (codes "content_markdown") (string text) payload)
    else put (codes "evidence")
        (object (members (put (codes "truncated") (boolean false) evidence))) payload

unfoldable pub needs_browser : Fields → Bool
needs_browser payload =
    let status = lookup (codes "status") payload in
    equals_text status (codes "blocked_needs_browser")
    || (equals_text status (codes "captcha_required") || equals_text status (codes "auth_required"))

unfoldable pub finalize : Arguments → Bool → Fields → Result Fields
finalize a cached_hit payload = do
  evidence ← evidence_of (lookup (codes "evidence") payload)
  let marked = update evidence (
      (codes "cached", boolean cached_hit)
      ∷ (codes "session_id", text_or_null a.session_id)
      ∷ (codes "invoking_agent", text_or_null a.invoking_agent)
      ∷ [])
  let shown =
      cut_to a.max_chars payload marked (as_text (lookup (codes "content_markdown") payload))
  ok (
      if needs_browser payload
      then put (codes "next_path") (string (codes "interactive-browser")) shown
      else shown)
