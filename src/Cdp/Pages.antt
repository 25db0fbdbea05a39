-- ===== src/Cdp/Pages.antt =====
-- `fetch_tab_list`, `fetch_tab_text` and `fetch_tab_screenshot` of browser_fetch_router/cdp.py. The JSON
-- parser, `str` of a value that is no text, and base64 are parameters. Each reading returns the
-- commands that were sent, last first, beside its result.
use browser_fetch_router.Prelude.{ℕ, true, false, Option, none, some, List, [], ◌∷◌, ◌++◌}
use browser_fetch_router.Prelude.Text.{Text, codes}
use browser_fetch_router.UrlSafety.Result.{
  Error, cdp_response_too_large, cdp_unexpected_redirect, tab_list_malformed_json,
  unexpected_redirect, response_too_large, unsafe, cdp, Result, ok, err,
}
use browser_fetch_router.HttpClient.Headers.{Headers}
use browser_fetch_router.HttpClient.Transport.{SafeResponse}
use browser_fetch_router.HttpClient.Requests.{Client, Options, Outcome, get_text}
use browser_fetch_router.Json.{Json, array, Fields, items, as_dict, lookup}
use browser_fetch_router.Cdp.Endpoint.{without_slash}

-- The entry of a tab: five values of the browser, each None where it is missing.
pub record Tab : Type 0 where
  pub id : Json
  pub title : Json
  pub url : Json
  pub type : Json
  pub socket_url : Json

abbrev pub max_cdp_response_bytes : ℕ
max_cdp_response_bytes = 1048576

abbrev pub cdp_options : Options
cdp_options = record {
  max_bytes = max_cdp_response_bytes;
  policy = record { strict = false; allow = false };
  follow_redirects = false;
}

abbrev pub accept_json : Headers
accept_json = (codes "Accept", codes "application/json") ∷ []

-- What the two `except` clauses make of an error of the transport.
unfoldable pub list_error : Error → Error
list_error response_too_large = cdp cdp_response_too_large
list_error (unsafe (unexpected_redirect status)) = cdp cdp_unexpected_redirect
list_error e = e

tab_of : Fields → Tab
tab_of d = record {
  id = lookup (codes "id") d;
  title = lookup (codes "title") d;
  url = lookup (codes "url") d;
  type = lookup (codes "type") d;
  socket_url = lookup (codes "webSocketDebuggerUrl") d;
}

-- The entries that are dicts.
unfoldable pub tabs_of : List Json → List Tab
unfolding tab_of
tabs_of [] = []
tabs_of (v ∷ vs) =
    let rest = tabs_of vs in elim (as_dict v) [ none ↦ rest | some d ↦ tab_of d ∷ rest ]

unfoldable pub tab_list : Option Json → Result (List Tab)
tab_list none = err (cdp tab_list_malformed_json)
tab_list (some (array vs)) = ok (tabs_of (items vs))
tab_list (some v) = ok []

unfoldable pub of_response : (Text → Option Json) → Result SafeResponse → Result (List Tab)
of_response loads (ok response) = tab_list (loads response.text)
of_response loads (err e) = err (list_error e)

-- The client is built for loopback endpoints.
abbrev pub cdp_client : Client → Client
cdp_client client = record client { loopback_ok = true }

unfoldable pub get_list : Client → Text → Outcome
get_list client base_url =
    get_text (cdp_client client) cdp_options (without_slash base_url ++ codes "/json") accept_json

unfoldable pub fetch_tab_list : (Text → Option Json) → Client → Text → Result (List Tab)
unfolding of_response get_list
fetch_tab_list loads client base_url = of_response loads (get_list client base_url).result
