-- ===== src/Cdp/Answers.antt =====
-- What browser_fetch_router/cdp.py takes from the answers of a browser, and the test of a tab's URL at the
-- moment of reading.
use browser_fetch_router.Prelude.{
  Bool, true, false, ◌||◌, Option, none, some, List, [], ◌∷◌, if◌then◌else◌,
}
use browser_fetch_router.Prelude.Text.{Text, codes, text_eq}
use browser_fetch_router.Prelude.Dict.{get}
use browser_fetch_router.UrlSafety.Result.{
  Error, protocol_error, websocket_unavailable, authorization_error, cdp, unsafe, Result, ok, err,
  ◌>>=◌, ◌>>◌,
}
use browser_fetch_router.HttpClient.Transport.{Bytes}
use browser_fetch_router.Json.{
  Json, string, null, Fields, as_dict, as_text, lookup, equals_text, is_int,
}
use browser_fetch_router.Cdp.Pages.{Tab}

-- `d[k]` and `v[k]`, where every exception becomes a protocol error.
unfoldable pub key_of : Text → Fields → Result Json
key_of k d = elim (get k d) [ none ↦ err (cdp protocol_error) | some w ↦ ok w ]

unfoldable pub at_key : Text → Json → Result Json
unfolding key_of
at_key k v = elim (as_dict v) [ none ↦ err (cdp protocol_error) | some d ↦ key_of k d ]

-- A text that is not empty.
unfoldable pub present_text : Json → Result Text
present_text v = elim (as_text v) [
  | none ↦ err (cdp protocol_error)
  | some [] ↦ err (cdp protocol_error)
  | some (c ∷ s) ↦ ok (c ∷ s)
]

-- The frame's id and URL.
unfoldable pub main_frame_from_tree : Fields → Result (Text × Text)
unfolding at_key present_text
main_frame_from_tree tree = do
  top ← key_of (codes "frameTree") tree
  frame ← at_key (codes "frame") top
  id ← at_key (codes "id") frame
  url ← at_key (codes "url") frame
  frame_id ← present_text id
  frame_url ← present_text url
  ok (frame_id, frame_url)

allowed : Result Bool → Result (Unit {0})
allowed (ok true) = ok tt
allowed (ok false) = err (cdp authorization_error)
allowed (err e) = err (cdp authorization_error)

-- Without an authorizer nothing is tested; an exception of the authorizer is a refusal.
unfoldable pub ensure_authorized_current_url :
    Text → Option (Text → Result Bool) → Result (Unit {0})
unfolding allowed
ensure_authorized_current_url url none = ok tt
ensure_authorized_current_url url (some authorize) = allowed (authorize url)

-- The main frame, once its URL has passed the test.
unfoldable pub authorized_frame : Option (Text → Result Bool) → Fields → Result (Text × Text)
authorized_frame authorize tree = do
  frame ← main_frame_from_tree tree
  ensure_authorized_current_url frame.1 authorize
  ok frame

-- `value.get("text", "")` as a text: `to_text` is Python's `str`.
unfoldable pub page_text : (Json → Text) → Fields → Text
page_text to_text value = elim (get (codes "text") value) [
  | none ↦ []
  | some null ↦ []
  | some (string s) ↦ s
  | some other ↦ to_text other
]

unfoldable pub dict_or_fail : Json → Result Fields
dict_or_fail v = elim (as_dict v) [ none ↦ err (cdp protocol_error) | some d ↦ ok d ]

-- The URL of the page and its text, of one evaluation.
unfoldable pub text_result_from_runtime : (Json → Text) → Fields → Result (Text × Text)
unfolding dict_or_fail present_text page_text
text_result_from_runtime to_text evaluated = do
  result ← dict_or_fail (lookup (codes "result") evaluated)
  value ← dict_or_fail (lookup (codes "value") result)
  current_url ← present_text (lookup (codes "url") value)
  ok (current_url, page_text to_text value)

-- The text, once the URL that came with it has passed the test.
unfoldable pub authorized_text : Option (Text → Result Bool) → (Json → Text) → Fields → Result Text
authorized_text authorize to_text evaluated = do
  page ← text_result_from_runtime to_text evaluated
  ensure_authorized_current_url page.0 authorize
  ok page.1

unfoldable pub context_of : Fields → Result Json
context_of world =
    let id = lookup (codes "executionContextId") world in
    if is_int id then ok id else err (cdp protocol_error)

unfoldable pub decoded : Option Bytes → Result Bytes
decoded none = err (cdp protocol_error)
decoded (some png) = ok png

-- `base64.b64decode(data, validate=True)` of a text that is not empty.
unfoldable pub image_of : (Text → Option Bytes) → Fields → Result Bytes
unfolding present_text decoded
image_of b64decode captured = do
  png ← present_text (lookup (codes "data") captured)
  decoded (b64decode png)

abbrev pub is_page : Tab → Bool
is_page t = equals_text t.type (codes "page")

unfoldable pub first_tab : (Tab → Bool) → List Tab → Option Tab
first_tab p [] = none
first_tab p (t ∷ tabs) = let rest = first_tab p tabs in if p t then some t else rest

unfoldable pub or_first : Option Tab → Option Tab → Option Tab
or_first (some t) other = some t
or_first none other = other

-- The tab of a screenshot: the first page for `active`, or the first with this id or URL.
unfoldable pub find_target : Text → List Tab → Option Tab
unfolding or_first first_tab
find_target target tabs =
    or_first (if text_eq target (codes "active") then first_tab is_page tabs else none)
      (first_tab (λ (t : Tab). equals_text t.id target || equals_text t.url target) tabs)

url_or_empty : Option Text → Text
url_or_empty none = []
url_or_empty (some s) = s

-- The URL of an entry, empty where it is no text.
unfoldable pub tab_url_text : Tab → Text
unfolding url_or_empty
tab_url_text t = url_or_empty (as_text t.url)

unfoldable pub present_tab : Option Tab → Result Tab
present_tab none = err (cdp protocol_error)
present_tab (some t) = ok t

-- The tab, once its listed URL has passed the test.
unfoldable pub authorized_target : Option (Text → Result Bool) → Text → List Tab → Result Tab
unfolding present_tab
authorized_target authorize target tabs = do
  tab ← present_tab (find_target target tabs)
  ensure_authorized_current_url (tab_url_text tab) authorize
  ok tab

-- What `fetch_tab_screenshot` raises for an error of the second listing.
unfoldable pub relist_error : Error → Error
relist_error (unsafe code) = unsafe code
relist_error (cdp failure) = cdp failure
relist_error e = cdp websocket_unavailable

unfoldable pub relisted : Result (List Tab) → Result (List Tab)
unfolding relist_error
relisted (ok tabs) = ok tabs
relisted (err e) = err (relist_error e)
