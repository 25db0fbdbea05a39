-- ===== src/Providers/Jina.antt =====
-- browser_fetch_router/providers/jina.py: the page as the Jina reader gives it, through the client of
-- HttpClient and the gate of Quality. The text of an exception is a parameter.
use browser_fetch_router.Prelude.{
  ℕ, Bool, true, false, ◌&&◌, ◌||◌, ◌==◌, leb, not, take, Option, none, some, List, [], ◌∷◌, ◌++◌,
  if◌then◌else◌, map,
}
use browser_fetch_router.Prelude.Text.{Text, codes, one_of, lstrip_by, rstrip_by}
use browser_fetch_router.UrlSafety.Result.{Error, unsafe, Result, ok, err}
use browser_fetch_router.HttpClient.Transport.{SafeResponse}
use browser_fetch_router.HttpClient.Requests.{Client, Options, get_text}
use browser_fetch_router.Json.{
  Json, null, integer, string, object, array, Fields, members, array_of, text_or_null,
}
use browser_fetch_router.Quality.{Quality, assess_quality, quality_fields}

unfoldable pub reader_url : Text → Text
reader_url url = codes "https://r.jina.ai/" ++ url

abbrev pub jina_options : Options
jina_options = record {
  max_bytes = 10000000;
  policy = record { strict = false; allow = false };
  follow_redirects = true;
}

quality_evidence : Option Quality → Fields
quality_evidence none = []
quality_evidence (some q) = (codes "quality", object (members (quality_fields q))) ∷ []

-- `_result`.
unfoldable pub jina_result :
    Text → Text → Option Text → Option Text → Json → Option Quality → Fields
unfolding quality_evidence
jina_result status url title content error quality =
    (codes "status", string status)
    ∷ (codes "title", text_or_null title)
    ∷ (codes "content_markdown", text_or_null content)
    ∷ (codes "provider", string (codes "jina-reader"))
    ∷ (codes "route", string (codes "jina-reader"))
    ∷ (
      codes "evidence",
      object (members ((codes "provider_url", string url) ∷ quality_evidence quality)),
    )
    ∷ (codes "error", error)
    ∷ []

-- A result with an error.
unfoldable pub failed : Text → Text → Text → Fields → Fields
unfolding jina_result
failed status url code more =
    jina_result status url none none (object (members ((codes "code", string code) ∷ more))) none

-- The line breaks of `str.splitlines`.
abbrev is_line_break : ℕ → Bool
is_line_break c =
    (leb 10 c && leb c 13)
    || ((leb 28 c && leb c 30) || (c == 0x85 || (c == 0x2028 || c == 0x2029)))

abbrev is_heading_char : ℕ → Bool
is_heading_char c = c == b'#' || (c == b' ' || c == 9)

put_first : ℕ → List Text → List Text
put_first c [] = (c ∷ []) ∷ []
put_first c (line ∷ rest) = (c ∷ line) ∷ rest

-- `str.splitlines`, up to empty lines.
unfoldable pub lines : Text → List Text
unfolding put_first
lines [] = [] ∷ []
lines (c ∷ s) = let rest = lines s in if is_line_break c then [] ∷ rest else put_first c rest

shown_or : Text → Option Text → Option Text
shown_or [] later = later
shown_or (c ∷ s) later = some (take 200 (c ∷ s))

unfoldable pub first_line : List Text → Option Text
unfolding shown_or
first_line [] = none
first_line (line ∷ rest) =
    let later = first_line rest in
    shown_or (rstrip_by is_heading_char (lstrip_by is_heading_char line)) later

unfoldable pub extract_first_line : Text → Option Text
unfolding lines first_line
extract_first_line text = first_line (lines text)

-- What the gate makes of the text of a page.
unfoldable pub judged : Text → Text → Quality → Fields
unfolding jina_result failed
judged target text q =
    let blocked = q.blocked_signals in
    if one_of (codes "captcha_required") blocked || one_of (codes "js_challenge") blocked
    then failed (codes "blocked_needs_browser") target (codes "jina_blocked_signal")
        ((codes "signals", array (array_of (map string blocked))) ∷ [])
    else if one_of (codes "login_wall") blocked
    then failed (codes "auth_required") target (codes "jina_login_wall") []
    else if not q.passes_quality_gate
    then failed (codes "insufficient_content") target (codes "jina_low_quality")
        ((codes "quality", object (members (quality_fields q))) ∷ [])
    else jina_result (codes "ok") target (extract_first_line text) (some text) null (some q)

module _ (without_scripts : Text → Text) (message : Error → Text) where
  unfoldable pub of_reply : Text → SafeResponse → Fields
  unfolding judged
  of_reply target response =
      let status = response.status_code in
      let http_status = (codes "http_status", integer false status) ∷ [] in
      if status == 429 || status == 503
      then failed (codes "provider_unavailable") target (codes "jina_rate_limited") http_status
      else if status == 404
      then failed (codes "private_or_deleted") target (codes "jina_not_found") []
      else if leb 400 status
      then failed (codes "provider_unavailable") target (codes "jina_http_error") http_status
      else judged target response.text (assess_quality without_scripts response.text response.text)

  -- An error of the URL tests is raised again; any other error of the request is a result.
  unfoldable pub of_fetch : Text → Result SafeResponse → Result Fields
  unfolding of_reply
  of_fetch target (ok response) = ok (of_reply target response)
  of_fetch target (err (unsafe reason)) = err (unsafe reason)
  of_fetch target (err e) = ok (
      failed (codes "provider_unavailable") target (codes "jina_request_failed")
        ((codes "message", string (take 200 (message e))) ∷ []))

  unfoldable pub fetch : Client → Text → Result Fields
  unfolding of_fetch
  fetch client url =
      let target = reader_url url in of_fetch target (get_text client jina_options target []).result
