-- ===== src/Tests/Browser.antt =====
-- A small browser with one tab, and the endpoint that lists it.
use browser_fetch_router.Prelude.{
  ℕ, true, false, Option, none, some, List, [], ◌∷◌, map, if◌then◌else◌,
}
use browser_fetch_router.Prelude.Text.{Text, codes, text_eq}
use browser_fetch_router.UrlSafety.Result.{ok}
use browser_fetch_router.HttpClient.Transport.{Family, begun, Network}
use browser_fetch_router.HttpClient.Requests.{Client}
use browser_fetch_router.Json.{Json, integer, string, array, object, Fields, members, array_of}
use browser_fetch_router.Approvals.Store.{never, Store}
use browser_fetch_router.Cdp.Endpoint.{default_base}
use browser_fetch_router.Cdp.Chat.{Socket, opened}
use browser_fetch_router.Cdp.Pages.{Tab}
use browser_fetch_router.Cdp.Reading.{Browser}
use browser_fetch_router.UserTabs.Access.{World, Access, Granted}
use browser_fetch_router.UserTabs.Reading.{text_envelope}
use browser_fetch_router.Tests.Web.{unicode, urljoin, page}

abbrev pub network : Network
network = record {
  getaddrinfo = λ hop name. some ((Family.inet, codes "127.0.0.1") ∷ []);
  connect = λ hop inet ip port. ok ip;
  wrap_socket = λ hop name. ok tt;
  exchange = λ hop wire.
      begun (record { status = 200; headers = []; content = codes "tabs"; ends = ok tt });
  decode_with_charset = λ content charset. content;
}

abbrev pub client : Client
client = record {
  unicode = unicode;
  urljoin = urljoin;
  unquote = λ s. s;
  network = network;
  loopback_ok = false;
  downgrade_setting = none;
}

abbrev pub tab : Tab
tab = record {
  id = string (codes "T");
  title = string (codes "Example");
  url = string page;
  type = string (codes "page");
  socket_url = string (codes "ws://127.0.0.1:9222/devtools/page/T");
}

-- The entry of the tab list, and the answers of the tab by their texts.
abbrev pub dict : List (Text × Json) → Json
dict d = object (members d)

abbrev pub answer : ℕ → List (Text × Json) → Option Json
answer id result = some (dict ((codes "id", integer false id) ∷ (codes "result", dict result) ∷ []))

abbrev pub frame_tree : List (Text × Json)
frame_tree =
    (
      codes "frameTree",
      dict (
          (codes "frame", dict ((codes "id", string (codes "F")) ∷ (codes "url", string page) ∷ []))
          ∷ []),
    )
    ∷ []

abbrev pub evaluation : List (Text × Json)
evaluation =
    (
      codes "result",
      dict (
          (
            codes "value",
            dict ((codes "url", string page) ∷ (codes "text", string (codes "hello")) ∷ []),
          )
          ∷ []),
    )
    ∷ []

abbrev pub listed_tab : Json
listed_tab = dict (
    (codes "id", tab.id)
    ∷ (codes "title", tab.title)
    ∷ (codes "url", tab.url)
    ∷ (codes "type", tab.type)
    ∷ (codes "webSocketDebuggerUrl", tab.socket_url)
    ∷ [])

abbrev pub loads : Text → Option Json
loads raw =
    if text_eq raw (codes "tabs")
    then some (array (array_of (listed_tab ∷ [])))
    else if text_eq raw (codes "1")
    then answer 1 []
    else if text_eq raw (codes "2")
    then answer 2 frame_tree
    else if text_eq raw (codes "world")
    then answer 3 ((codes "executionContextId", integer false 7) ∷ [])
    else if text_eq raw (codes "text")
    then answer 4 evaluation
    else if text_eq raw (codes "image")
    then answer 3 ((codes "data", string (codes "AAAA")) ∷ [])
    else if text_eq raw (codes "4")
    then answer 4 frame_tree
    else none

abbrev pub socket : List Text → Socket
socket incoming = record {
  writes = true ∷ true ∷ true ∷ true ∷ [];
  incoming = map some incoming;
  sent = [];
}

abbrev pub browser : List Text → Browser
browser incoming = record {
  loads = loads;
  to_text = λ v. [];
  b64decode = λ raw. some (1 ∷ 2 ∷ []);
  connect = some (λ both url. opened (socket incoming));
}

abbrev pub world : List Text → World
world incoming = record {
  client = client;
  later_client = client;
  browser = browser incoming;
  getaddrinfo = λ name. none;
  cdp_setting = none;
  now = 1000;
}

abbrev pub access : Access
access = record {
  approval_scope = none;
  persist_approval = false;
  allow_remote_cdp = false;
  session_id = codes "s1";
}

abbrev pub store : Store
store =
    record {
      scope = codes "hostname:www.example.com";
      session_id = codes "s1";
      persisted = true;
      created_at = 5;
      expires_at = never;
    }
    ∷ []

abbrev pub granted_tab : Granted
granted_tab = record {
  base = default_base;
  url = page;
  tab = tab;
  auth = record {
    persistent_scopes = codes "hostname:www.example.com" ∷ [];
    exact_one_time_scopes = [];
  };
  store = store;
}

abbrev pub text_answers : List Text
text_answers = codes "1" ∷ codes "2" ∷ codes "world" ∷ codes "text" ∷ []

abbrev pub image_answers : List Text
image_answers = codes "1" ∷ codes "2" ∷ codes "image" ∷ codes "4" ∷ []

abbrev pub payload : Fields
payload = text_envelope 100 granted_tab (record { text = codes "hello"; isolated_world = true })
