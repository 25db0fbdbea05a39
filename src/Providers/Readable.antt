-- ===== src/Providers/Readable.antt =====
-- What a page has passed that the Jina reader of browser_fetch_router/providers/jina.py returns as ok.
use browser_fetch_router.Prelude.{
  ℕ, ◌*◌, ◌≤◌, ◌<◌, ◌≡◌, ◌⊎◌, refl, Bool, true, false, not, ◌&&◌, ◌||◌, ◌==◌, ltb, leb, max, length,
  take, Option, some, [], ◌∷◌, ◌++◌, arith, if◌then◌else◌,
}
use browser_fetch_router.Prelude.Text.{Text, codes, text_eq, lower, strip, one_of}
use browser_fetch_router.Prelude.Dict.{get}
use browser_fetch_router.UrlSafety.Result.{
  Error, unsafe, value_error, type_error, cdp, invalid_scope, operational, response_too_large,
  invalid_session_id, Result, ok, err, ok_inj,
}
use browser_fetch_router.HttpClient.Transport.{SafeResponse}
use browser_fetch_router.HttpClient.Requests.{Client, get_text}
use browser_fetch_router.Json.{
  Json, null, string, Fields, lookup, equals_text, as_text, text_or_null,
}
use browser_fetch_router.Quality.{
  captcha_markers, js_challenge_markers, contains_marker, has_login_wall, signals_of, is_none, when,
  word_count, visible_text, Quality, assess_quality,
}
use browser_fetch_router.Providers.Jina.{
  reader_url, jina_options, jina_result, failed, judged, of_reply, of_fetch, fetch,
}

no_signals :
    (a b c : Bool) (x y z : Text)
    → is_none (when a x ++ (when b y ++ when c z)) ≡ true
    → (a ≡ false) × (b ≡ false) × (c ≡ false)
unfolding is_none when
no_signals false false false x y z h = (refl, refl, refl)
no_signals true b c x y z h = absurd (cc)
no_signals false true c x y z h = absurd (cc)
no_signals false false true x y z h = absurd (cc)

passed :
    (w n shown kept : ℕ) (quiet semantic : Bool)
    → (let is_short = leb 20 w && (leb 120 n && quiet) in
        (leb 80 w || is_short)
        && ((quiet && (ltb 0 w && (semantic || (leb 80 w || is_short))))
            && (leb (3 * shown) (10 * kept) && quiet)))
      ≡ true
    → (quiet ≡ true) × (20 ≤ w) × ((80 ≤ w) ⊎ (120 ≤ n)) × (3 * shown ≤ 10 * kept)
passed w n shown kept quiet semantic h = ground arith

-- The status of an error is its own.
failed-status :
    (status url code : Text) (more : Fields)
    → equals_text (lookup (codes "status") (failed status url code more)) (codes "ok")
      ≡ text_eq status (codes "ok")
unfolding failed jina_result lookup get text_eq codes equals_text as_text
failed-status status url code more = refl

abbrev IsOk : Fields → Type 0
IsOk payload = equals_text (lookup (codes "status") payload) (codes "ok") ≡ true

-- A result that is ok is not the error of a test.
skip :
    (b : Bool) (status url code : Text) (more rest : Fields)
    → text_eq status (codes "ok") ≡ false
    → IsOk (if b then failed status url code more else rest)
    → (b ≡ false) × IsOk rest
skip false status url code more rest e h = (refl, h)
skip true status url code more rest e h = absurd (cc (failed-status status url code more))

unavailable : text_eq (codes "provider_unavailable") (codes "ok") ≡ false
unfolding text_eq codes
unavailable = refl

deleted : text_eq (codes "private_or_deleted") (codes "ok") ≡ false
unfolding text_eq codes
deleted = refl

blocked : text_eq (codes "blocked_needs_browser") (codes "ok") ≡ false
unfolding text_eq codes
blocked = refl

unauthorized : text_eq (codes "auth_required") (codes "ok") ≡ false
unfolding text_eq codes
unauthorized = refl

insufficient : text_eq (codes "insufficient_content") (codes "ok") ≡ false
unfolding text_eq codes
insufficient = refl

jina_result-content :
    (status url : Text) (title : Option Text) (text : Text) (error : Json) (q : Option Quality)
    → lookup (codes "content_markdown") (jina_result status url title (some text) error q)
      ≡ string text
unfolding jina_result lookup get text_eq codes text_or_null
jina_result-content status url title text error q = refl

negated : {b : Bool} → not b ≡ false → b ≡ true
negated h = ground arith

judged-ok :
    (target text : Text) (q : Quality)
    → IsOk (judged target text q)
    → (q.passes_quality_gate ≡ true)
      × (lookup (codes "content_markdown") (judged target text q) ≡ string text)
unfolding judged
judged-ok target text q h =
    let signals = q.blocked_signals in
    let stopped =
      one_of (codes "captcha_required") signals || one_of (codes "js_challenge") signals in
    let first = skip stopped (codes "blocked_needs_browser") target _ _ _ blocked h in
    let second =
      skip (one_of (codes "login_wall") signals) (codes "auth_required") target _ _ _ unauthorized
        first.1 in
    let third =
      skip (not q.passes_quality_gate) (codes "insufficient_content") target _ _ _ insufficient
        second.1 in
    (
      negated third.0,
      rw (first.0, second.0, third.0)
          (jina_result-content (codes "ok") target _ text null (some q)),
    )

module _ (without_scripts : Text → Text) (message : Error → Text) where
  pub record IsReadable (client : Client) (url : Text) (payload : Fields) : Type 0 where
    response : SafeResponse
    of_response : (get_text client jina_options (reader_url url) []).result ≡ ok response
    found : response.status_code < 400
    content : lookup (codes "content_markdown") payload ≡ string response.text
    no_captcha : contains_marker (lower response.text) (lower response.text) captcha_markers ≡ false
    no_challenge :
        contains_marker (lower response.text) (lower response.text) js_challenge_markers ≡ false
    no_login : has_login_wall without_scripts response.text response.text ≡ false
    words : 20 ≤ word_count response.text
    enough : (80 ≤ word_count response.text) ⊎ (120 ≤ length (strip response.text))
    dense :
        3 * max (length (visible_text without_scripts response.text)) 1 ≤ 10 * length response.text

  not_failed {ℓ} :
      {C : Type ℓ} (e : Error) (url : Text) {payload : Fields}
      → ok (
          failed
            (codes "provider_unavailable")
            url
            (codes "jina_request_failed")
            ((codes "message", string (take 200 (message e))) ∷ []))
        ≡ ok payload
      → IsOk payload
      → C
  not_failed e url h success = absurd (
      cc (
        failed-status (codes "provider_unavailable") url (codes "jina_request_failed")
            ((codes "message", string (take 200 (message e))) ∷ []),
        unavailable,
      ))

  page-IsReadable :
      (client : Client) (url : Text) (response : SafeResponse)
      → (get_text client jina_options (reader_url url) []).result ≡ ok response
      → IsOk (of_reply without_scripts message (reader_url url) response)
      → IsReadable client url (of_reply without_scripts message (reader_url url) response)
  unfolding of_reply assess_quality signals_of
  page-IsReadable client url response asked h =
      let target = reader_url url in
      let text = response.text in
      let status = response.status_code in
      let first =
        skip (status == 429 || status == 503) (codes "provider_unavailable") target _ _ _
          unavailable h in
      let second = skip (status == 404) (codes "private_or_deleted") target _ _ _ deleted first.1 in
      let third =
        skip (leb 400 status) (codes "provider_unavailable") target _ _ _ unavailable second.1 in
      let (gate, kept) = judged-ok target text (assess_quality without_scripts text text) third.1 in
      let (quiet, words, enough, dense) =
        passed (word_count text) (length (strip text)) _ _ _ _ gate in
      let (login, captcha, challenge) = no_signals _ _ _ _ _ _ quiet in
      record {
        response = response;
        of_response = asked;
        found = ground (arith, third.0);
        content = rw (first.0, second.0, third.0) kept;
        no_captcha = captcha;
        no_challenge = challenge;
        no_login = login;
        words = words;
        enough = enough;
        dense = dense;
      }

  reply-IsReadable :
      (client : Client) (url : Text) (r : Result SafeResponse) {payload : Fields}
      → (get_text client jina_options (reader_url url) []).result ≡ r
      → of_fetch without_scripts message (reader_url url) r ≡ ok payload
      → IsOk payload
      → IsReadable client url payload
  unfolding of_fetch
  reply-IsReadable client url (ok response) asked h success =
      rw (← ok_inj h) (page-IsReadable client url response asked (rw (ok_inj h) success))
  reply-IsReadable client url (err e) asked h success = refused e h success
    where
      refused :
          (e : Error) {payload : Fields}
          → of_fetch without_scripts message (reader_url url) (err e) ≡ ok payload
          → IsOk payload
          → IsReadable client url payload
      refused (unsafe reason) h success = absurd (cc)
      refused value_error h success = not_failed value_error (reader_url url) h success
      refused type_error h success = not_failed type_error (reader_url url) h success
      refused (cdp f) h success = not_failed (cdp f) (reader_url url) h success
      refused (invalid_scope r) h success = not_failed (invalid_scope r) (reader_url url) h success
      refused invalid_session_id h success =
          not_failed invalid_session_id (reader_url url) h success
      refused operational h success = not_failed operational (reader_url url) h success
      refused response_too_large h success =
          not_failed response_too_large (reader_url url) h success

  -- If the Jina reader returns a page as ok, the reader answered with a status below 400 and its text
  -- is the content; the text has no marker of a captcha or a challenge, and no login phrase where it
  -- is looked for; it has 20 words, and 80 words or 120 characters; and it is at least three tenths
  -- of what is visible of the page.
  pub fetch-IsReadable :
      (client : Client) (url : Text) (payload : Fields)
      → fetch without_scripts message client url ≡ ok payload
      → equals_text (lookup (codes "status") payload) (codes "ok") ≡ true
      → IsReadable client url payload
  unfolding fetch
  fetch-IsReadable client url payload h success =
      reply-IsReadable client url (get_text client jina_options (reader_url url) []).result refl h
        success
