-- ===== src/UserTabs/Reading.antt =====
-- `read_tab` of browser_fetch_router/read_user_tabs.py. A command gives what it returns or raises, the
-- approvals behind it, and the commands that were sent to the browser, last first.
use browser_fetch_router.Prelude.{ℕ, Bool, Option, none, some, List, [], ◌∷◌}
use browser_fetch_router.Prelude.Text.{Text, codes}
use browser_fetch_router.UrlSafety.Result.{
  Error, unsafe, cdp, websocket_url_invalid, websocket_url_mismatch, authorization_error, Result,
  ok, err,
}
use browser_fetch_router.Approvals.Store.{Store}
use browser_fetch_router.Json.{string, boolean, object, Fields, members}
use browser_fetch_router.Schema.{envelope}
use browser_fetch_router.Cdp.Endpoint.{validate_tab_websocket_url}
use browser_fetch_router.Cdp.Chat.{Command}
use browser_fetch_router.Cdp.Reading.{PageText, fetch_tab_text}
use browser_fetch_router.UserTabs.Failures.{
  Operation, for_text, command, cdp_failure_envelope, current_url_denial_envelope,
}
use browser_fetch_router.UserTabs.Redaction.{cap_content}
use browser_fetch_router.UserTabs.Access.{
  World, Access, ReadAuthorization, is_url_authorized, Granted, Decision, granted, refused,
  resolve_and_authorize_tab,
}

pub record Ran : Type 0 where
  pub result : Result Fields
  pub store : Store
  pub sent : List Command

-- The authorizer for the URL of the moment.
abbrev pub authorizer : World → ReadAuthorization → Option (Text → Result Bool)
authorizer w auth = some (is_url_authorized w.client.unicode auth)

-- The two failures that the first `except` takes; any other exception is raised.
unfoldable pub socket_failure : Operation → Granted → Error → Result Fields
socket_failure op g (cdp websocket_url_invalid) =
    ok (cdp_failure_envelope (cdp websocket_url_invalid) g.url op g.tab.id)
socket_failure op g (cdp websocket_url_mismatch) =
    ok (cdp_failure_envelope (cdp websocket_url_mismatch) g.url op g.tab.id)
socket_failure op g e = err e

-- What becomes of an error of the reading.
unfoldable pub reading_failure : Operation → Option Text → Granted → Error → Result Fields
reading_failure op approval_scope g (cdp authorization_error) =
    ok (current_url_denial_envelope g.url approval_scope g.tab.id)
reading_failure op approval_scope g (unsafe code) = err (unsafe code)
reading_failure op approval_scope g e = ok (cdp_failure_envelope e g.url op g.tab.id)

-- The envelope of a tab that was read.
unfoldable pub text_envelope : ℕ → Granted → PageText → Fields
unfolding members
text_envelope max_chars g page = envelope command (codes "ok") (
    (codes "url", string g.url)
    ∷ (codes "title", g.tab.title)
    ∷ (codes "content_markdown", string (cap_content page.text max_chars))
    ∷ (
      codes "evidence",
      object (
          members (
            (codes "cdp_isolated_world", boolean page.isolated_world)
            ∷ (codes "tab_id", g.tab.id)
            ∷ [])),
    )
    ∷ [])

-- Reading stops where the tab was not granted.
unfoldable pub on_decision : Store → Result Decision → (Granted → Ran) → Ran
on_decision store (err e) next = record { result = err e; store = store; sent = [] }
on_decision store (ok (refused d)) next = record { result = ok d; store = store; sent = [] }
on_decision store (ok (granted g)) next = next g

module _ (w : World) (access : Access) where
  unfoldable pub text_of : ℕ → Granted → Result PageText × List Command → Ran
  text_of max_chars g (ok page, sent) = record {
    result = ok (text_envelope max_chars g page);
    store = g.store;
    sent = sent;
  }
  text_of max_chars g (err e, sent) = record {
    result = reading_failure for_text access.approval_scope g e;
    store = g.store;
    sent = sent;
  }

  unfoldable pub text_from : ℕ → Granted → Result Text → Ran
  unfolding text_of
  text_from max_chars g (err e) = record {
    result = socket_failure for_text g e;
    store = g.store;
    sent = [];
  }
  text_from max_chars g (ok ws_url) =
      text_of max_chars g
        (fetch_tab_text w.browser (authorizer w g.auth) w.client.unicode ws_url none)

  unfoldable pub read_granted : ℕ → Granted → Ran
  unfolding text_from
  read_granted max_chars g =
      text_from max_chars g (validate_tab_websocket_url w.client.unicode g.tab.socket_url g.base)

  unfoldable pub read_tab : Text → ℕ → Store → Ran
  unfolding on_decision
  read_tab target max_chars store =
      on_decision store (resolve_and_authorize_tab w access store target) (read_granted max_chars)
