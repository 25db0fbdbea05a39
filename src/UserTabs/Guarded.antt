-- ===== src/UserTabs/Guarded.antt =====
-- What is known when `read_tab` gives the content of a tab.
use browser_fetch_router.Prelude.{◌≡◌, ◌≢◌, refl, sym, ap, ◌∙◌, ℕ, Option, none, List, [], arith}
use browser_fetch_router.Prelude.Text.{Text}
use browser_fetch_router.UrlSafety.Result.{
  Error, cdp, websocket_url_invalid, websocket_url_mismatch, Result, ok, err, ok_inj,
}
use browser_fetch_router.Json.{null, Fields}
use browser_fetch_router.Approvals.Store.{Store}
use browser_fetch_router.Cdp.Endpoint.{validate_tab_websocket_url}
use browser_fetch_router.Cdp.Chat.{Command, Socket, Chat, websocket_connect}
use browser_fetch_router.Cdp.Reading.{
  Browser, PageText, on_socket, on_url, validated, text_chat, fetch_tab_text,
}
use browser_fetch_router.Cdp.Authorized.{AllowedFrame, AllowedText, text_chat-AllowedText}
use browser_fetch_router.UserTabs.Failures.{Operation, for_text}
use browser_fetch_router.UserTabs.Access.{
  World, Access, is_url_authorized, Granted, Decision, granted, refused, resolve_and_authorize_tab,
}
use browser_fetch_router.UserTabs.Failures.Content.{
  content, cdp_failure-content, current_url_denial-content,
}
use browser_fetch_router.UserTabs.Granted.{IsGranted, resolve-IsGranted, resolve-content}
use browser_fetch_router.UserTabs.Reading.{
  authorizer, socket_failure, reading_failure, text_envelope, on_decision, text_of, text_from,
  read_granted, read_tab,
}

-- A socket that was opened for a URL.
pub record Opened (browser : Browser) (ws_url : Text) : Type 0 where
  pub socket : Socket
  pub of_connect :
      (s : Socket) × (websocket_connect browser.connect ws_url ≡ ok s)
      × (socket ≡ record s { sent = [] })

-- A conversation that succeeds ran on a socket that was opened for a URL.
pub on_url_ok {ℓ} :
    {A : Type ℓ} (browser : Browser) (chat : Chat A) (m : Result Text) {a : A}
    → (on_url browser.connect chat m).0 ≡ ok a
    → (ws_url : Text) × (o : Opened browser ws_url) × (m ≡ ok ws_url) × ((chat o.socket).0 ≡ ok a)
unfolding on_url
on_url_ok {A} browser chat (err e) h = absurd (cc)
on_url_ok {A} browser chat (ok ws_url) {a} h = go (websocket_connect browser.connect ws_url) refl h
  where
    go :
        (r : Result Socket)
        → websocket_connect browser.connect ws_url ≡ r
        → (on_socket chat r).0 ≡ ok a
        → (url : Text) × (o : Opened browser url) × (ok ws_url ≡ ok url)
          × ((chat o.socket).0 ≡ ok a)
    go (err e) c h = absurd (cc)
    go (ok s) c h =
        (ws_url, record { socket = record s { sent = [] }; of_connect = (s, c, refl) }, refl, h)

socket_failure-content :
    (op : Operation) (g : Granted) (e : Error) {d : Fields}
    → socket_failure op g e ≡ ok d
    → content d ≡ null
unfolding socket_failure
socket_failure-content op g e h = ground (
  arith,
  cdp_failure-content (cdp websocket_url_invalid) g.url op g.tab.id,
  cdp_failure-content (cdp websocket_url_mismatch) g.url op g.tab.id,
)

reading_failure-content :
    (op : Operation) (scope : Option Text) (g : Granted) (e : Error) {d : Fields}
    → reading_failure op scope g e ≡ ok d
    → content d ≡ null
unfolding reading_failure
reading_failure-content op scope g e h = ground (
  arith,
  cdp_failure-content e g.url op g.tab.id,
  current_url_denial-content g.url scope g.tab.id,
)

module _ (w : World) (access : Access) (store : Store) where
  -- The tab was granted, its socket stands on the endpoint, and in what the socket answered the URL of
  -- the main frame and the URL that came with the text were both allowed.
  pub record IsReadOut (target : Text) (max_chars : ℕ) (payload : Fields) : Type 0 where
    pub g : Granted
    pub grant : IsGranted w access store target g
    pub ws_url : Text
    pub of_socket : validate_tab_websocket_url w.client.unicode g.tab.socket_url g.base ≡ ok ws_url
    pub opened : Opened w.browser ws_url
    pub page : PageText
    pub frame :
        AllowedFrame w.browser (is_url_authorized w.client.unicode g.auth) 2 opened.socket.incoming
    pub text :
        AllowedText w.browser
          (is_url_authorized w.client.unicode g.auth)
          opened.socket.incoming
          page.text
    pub of_payload : payload ≡ text_envelope max_chars g page

  read_out :
      (target : Text) (max_chars : ℕ) (g : Granted) (ws_url : Text)
      (r : Result PageText × List Command) {payload : Fields}
      → IsGranted w access store target g
      → validate_tab_websocket_url w.client.unicode g.tab.socket_url g.base ≡ ok ws_url
      → fetch_tab_text w.browser (authorizer w g.auth) w.client.unicode ws_url none ≡ r
      → (text_of w access max_chars g r).result ≡ ok payload
      → content payload ≢ null
      → IsReadOut target max_chars payload
  unfolding text_of fetch_tab_text validated
  read_out target max_chars g ws_url (err e, sent) grant socket fetched h has =
      absurd (has (reading_failure-content for_text access.approval_scope g e h))
  read_out target max_chars g ws_url (ok page, sent) grant socket fetched h has =
      let ran =
        on_url_ok w.browser (text_chat w.browser (authorizer w g.auth)) (ok ws_url)
          (ap (λ (p : Result PageText × List Command). p.0) fetched) in
      let known =
        text_chat-AllowedText w.browser (is_url_authorized w.client.unicode g.auth) ran.1.socket
          page ran.3 in
      record {
        g = g;
        grant = grant;
        ws_url = ran.0;
        of_socket = socket ∙ ran.2;
        opened = ran.1;
        page = page;
        frame = known.0;
        text = known.1;
        of_payload = sym (ok_inj {a = text_envelope max_chars g page} h);
      }

  socket_out :
      (target : Text) (max_chars : ℕ) (g : Granted) (m : Result Text) {payload : Fields}
      → IsGranted w access store target g
      → validate_tab_websocket_url w.client.unicode g.tab.socket_url g.base ≡ m
      → (text_from w access max_chars g m).result ≡ ok payload
      → content payload ≢ null
      → IsReadOut target max_chars payload
  unfolding text_from
  socket_out target max_chars g (err e) grant socket h has =
      absurd (has (socket_failure-content for_text g e h))
  socket_out target max_chars g (ok ws_url) grant socket h has =
      read_out target max_chars g ws_url _ grant socket refl h has

  -- If `read_tab` returns a payload with content, the tab is in the list of the endpoint and its URL
  -- there may be read with the approvals as they stood before; its socket stands on the endpoint; the
  -- browser answered with a main frame whose URL may be read; and the content is the capped text that
  -- came in one answer with a URL that may be read.
  pub read_tab-IsReadOut :
      (target : Text) (max_chars : ℕ) (payload : Fields)
      → (read_tab w access target max_chars store).result ≡ ok payload
      → content payload ≢ null
      → IsReadOut target max_chars payload
  unfolding read_tab on_decision read_granted
  read_tab-IsReadOut target max_chars payload h has =
      go (resolve_and_authorize_tab w access store target) refl h
    where
      go :
          (m : Result Decision)
          → resolve_and_authorize_tab w access store target ≡ m
          → (on_decision store m (read_granted w access max_chars)).result ≡ ok payload
          → IsReadOut target max_chars payload
      go (err e) r h = absurd (cc)
      go (ok (refused d)) r h =
          absurd (has (rw (← ok_inj {a = d} h) (resolve-content w access store target d r)))
      go (ok (granted g)) r h =
          socket_out target max_chars g _ (resolve-IsGranted w access store target g r) refl h has
