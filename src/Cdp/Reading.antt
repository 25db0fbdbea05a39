-- ===== src/Cdp/Reading.antt =====
-- `fetch_tab_text` and `fetch_tab_screenshot` of browser_fetch_router/cdp.py. The JSON parser, `str` of a
-- value that is no text, and the strict decoder of base64 are parameters. Beside its result a reading
-- returns the commands that were sent, last first.
use browser_fetch_router.Prelude.{Bool, false, true, Option, none, some, List, [], ◌∷◌}
use browser_fetch_router.Prelude.Text.{Text, codes}
use browser_fetch_router.UrlSafety.Result.{Result, ok, err}
use browser_fetch_router.UrlSafety.SplitUrl.{Unicode}
use browser_fetch_router.HttpClient.Transport.{Bytes}
use browser_fetch_router.HttpClient.Requests.{Client}
use browser_fetch_router.Json.{Json, boolean, string, Fields}
use browser_fetch_router.Cdp.Endpoint.{validate_tab_websocket_url}
use browser_fetch_router.Cdp.Chat.{
  Command, Socket, Attempt, websocket_connect, Chat, ◌>>=◌, lift, send_cdp_command,
}
use browser_fetch_router.Cdp.Pages.{Tab, fetch_tab_list}
use browser_fetch_router.Cdp.Answers.{
  authorized_frame, authorized_text, context_of, image_of, authorized_target, relisted,
}

-- What the readings take from outside.
pub record Browser : Type 0 where
  pub loads : Text → Option Json
  pub to_text : Json → Text
  pub b64decode : Text → Option Bytes
  pub connect : Option (Bool → Text → Attempt)

abbrev pub expression : Text
expression =
    codes
      "(() => { const body = document.body; return { url: String(window.location.href || ''), text: body ? (body.innerText || body.textContent || '') : '' }; })()"

abbrev pub world_params : Text → Fields
world_params frame_id =
    (codes "frameId", string frame_id)
    ∷ (codes "worldName", string (codes "browser-fetch-router"))
    ∷ (codes "grantUniversalAccess", boolean false)
    ∷ []

abbrev pub evaluate_params : Json → Fields
evaluate_params context_id =
    (codes "contextId", context_id)
    ∷ (codes "returnByValue", boolean true)
    ∷ (codes "awaitPromise", boolean false)
    ∷ (codes "expression", string expression)
    ∷ []

abbrev pub capture_params : Fields
capture_params = (codes "format", string (codes "png")) ∷ (codes "fromSurface", boolean true) ∷ []

pub record PageText : Type 0 where
  pub text : Text
  pub isolated_world : Bool

-- A conversation on a new socket, which is closed behind it.
unfoldable pub on_socket {ℓ} : {A : Type ℓ} → Chat A → Result Socket → Result A × List Command
on_socket chat (err e) = (err e, [])
on_socket chat (ok s) = let (result, s) = chat (record s { sent = [] }) in (result, s.sent)

unfoldable pub on_url {ℓ} :
    {A : Type ℓ} → Option (Bool → Text → Attempt) → Chat A → Result Text → Result A × List Command
unfolding on_socket
on_url connect chat (err e) = (err e, [])
on_url connect chat (ok ws_url) = on_socket chat (websocket_connect connect ws_url)

module _ (browser : Browser) (authorize : Option (Text → Result Bool)) where
  unfoldable pub text_chat : Chat PageText
  text_chat = send_cdp_command browser.loads 1 (codes "Page.enable") none >>= λ enabled.
      send_cdp_command browser.loads 2 (codes "Page.getFrameTree") none >>= λ tree.
      lift (authorized_frame authorize tree) >>= λ frame.
      send_cdp_command browser.loads 3 (codes "Page.createIsolatedWorld")
        (some (world_params frame.0))
      >>= λ world. lift (context_of world) >>= λ context_id.
          send_cdp_command browser.loads 4 (codes "Runtime.evaluate")
            (some (evaluate_params context_id))
          >>= λ evaluated. lift (authorized_text authorize browser.to_text evaluated) >>= λ text.
              lift (ok (record { text = text; isolated_world = true }))

  unfoldable pub screenshot_chat : Chat Bytes
  screenshot_chat = send_cdp_command browser.loads 1 (codes "Page.enable") none >>= λ enabled.
      send_cdp_command browser.loads 2 (codes "Page.getFrameTree") none >>= λ tree.
      lift (authorized_frame authorize tree) >>= λ frame.
      send_cdp_command browser.loads 3 (codes "Page.captureScreenshot") (some capture_params)
      >>= λ captured.
          send_cdp_command browser.loads 4 (codes "Page.getFrameTree") none >>= λ after_capture.
          lift (authorized_frame authorize after_capture) >>= λ after_frame.
          lift (image_of browser.b64decode captured)

  unfoldable pub validated : Unicode → Text → Option Text → Result Text
  validated u ws_url none = ok ws_url
  validated u ws_url (some base_url) = validate_tab_websocket_url u (string ws_url) base_url

  unfoldable pub fetch_tab_text : Unicode → Text → Option Text → Result PageText × List Command
  unfolding validated on_url
  fetch_tab_text u ws_url base_url = on_url browser.connect text_chat (validated u ws_url base_url)

  unfoldable pub socket_of : Unicode → Text → Result Tab → Result Text
  socket_of u base_url (err e) = err e
  socket_of u base_url (ok tab) = validate_tab_websocket_url u tab.socket_url base_url

  unfoldable pub target_of : Text → Result (List Tab) → Result Tab
  target_of target (err e) = err e
  target_of target (ok tabs) = authorized_target authorize target tabs

  unfoldable pub fetch_tab_screenshot : Client → Text → Text → Result Bytes × List Command
  unfolding socket_of target_of on_url
  fetch_tab_screenshot client base_url target = on_url browser.connect screenshot_chat (
      socket_of client.unicode base_url
        (target_of target (relisted (fetch_tab_list browser.loads client base_url))))
