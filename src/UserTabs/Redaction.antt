-- ===== src/UserTabs/Redaction.antt =====
-- `redact_tab_list`, `cap_content` and `_resolve_tab` of browser_fetch_router/read_user_tabs.py.
use browser_fetch_router.Prelude.{
  ℕ, Bool, not, ◌&&◌, ◌||◌, ◌==◌, leb, Option, none, some, List, [], ◌∷◌, ◌++◌, length, take,
  if◌then◌else◌,
}
use browser_fetch_router.Prelude.Text.{Text, codes, text_eq, one_of, lower, show_nat}
use browser_fetch_router.UrlSafety.Result.{type_error, Result, ok, err, ◌>>=◌}
use browser_fetch_router.UrlSafety.SplitUrl.{Unicode, SplitResult, urlsplit}
use browser_fetch_router.Approvals.DefaultDeny.{is_default_denied}
use browser_fetch_router.Json.{Json, string, boolean, Fields, is_truthy, as_text, equals_text}
use browser_fetch_router.Cdp.Pages.{Tab}
use browser_fetch_router.Cdp.Answers.{is_page, first_tab}

text_or_type_error : Option Text → Result Text
text_or_type_error none = err type_error
text_or_type_error (some s) = ok s

-- `tab.get("url") or ""` where a text is needed: another value raises in the first use of it.
unfoldable pub url_of_tab : Tab → Result Text
unfolding text_or_type_error
url_of_tab t = if is_truthy t.url then text_or_type_error (as_text t.url) else ok []

-- A scheme other than http and https.
unfoldable pub has_unknown_scheme : SplitResult → Bool
has_unknown_scheme r =
    let scheme = lower r.scheme in
    not (text_eq scheme []) && not (one_of scheme (codes "http" ∷ codes "https" ∷ []))

abbrev pub hidden : Json
hidden = string (codes "[hidden]")

-- The entry of a tab, redacted or not.
unfoldable pub entry : Tab → Text → Bool → Fields
entry t url redacted =
    (codes "id", t.id)
    ∷ (codes "title", if redacted then hidden else t.title)
    ∷ (codes "url", if redacted then hidden else string url)
    ∷ (codes "redacted", boolean redacted)
    ∷ []

-- `show_all` is taken and not used, as in the source.
unfoldable pub redact_tab : Unicode → Bool → Tab → Result Fields
redact_tab u show_all t = do
  url ← url_of_tab t
  r ← urlsplit u url
  denied ← is_default_denied u url
  ok (entry t url (denied || has_unknown_scheme r))

unfoldable pub redact_tab_list : Unicode → Bool → List Tab → Result (List Fields)
redact_tab_list u show_all [] = ok []
redact_tab_list u show_all (t ∷ tabs) = do
  shown ← redact_tab u show_all t
  rest ← redact_tab_list u show_all tabs
  ok (shown ∷ rest)

-- A `max_chars` below zero is zero here: both leave the text as it is.
unfoldable pub cap_content : Text → ℕ → Text
cap_content text max_chars =
    if max_chars == 0 || leb (length text) max_chars
    then text
    else take max_chars text
      ++ (10 ∷ 10 ∷ (codes "[TRUNCATED after " ++ (show_nat max_chars ++ codes " chars]")))

or_else : Option Tab → Option Tab → Option Tab
or_else (some t) other = some t
or_else none other = other

-- `active` is the first page; anything else is an exact id, or else an exact URL.
unfoldable pub resolve_tab : Text → List Tab → Option Tab
unfolding or_else
resolve_tab target tabs =
    if text_eq target (codes "active")
    then first_tab is_page tabs
    else or_else (first_tab (λ (t : Tab). equals_text t.id target) tabs)
        (first_tab (λ (t : Tab). equals_text t.url target) tabs)
