-- ===== src/Tests/TabLists.antt =====
-- Listing the tabs of a small browser.
use browser_fetch_router.Prelude.{true, false, [], ◌∷◌}
use browser_fetch_router.Prelude.Text.{codes}
use browser_fetch_router.HttpClient.Transport.{receive as receive_response}
use browser_fetch_router.Json.{string, Fields}
use browser_fetch_router.Approvals.Store.{never, Store}
use browser_fetch_router.Cdp.Endpoint.{default_base}
use browser_fetch_router.Cdp.Chat.{receive}
use browser_fetch_router.Cdp.Pages.{Tab}
use browser_fetch_router.UserTabs.Redaction.{entry}
use browser_fetch_router.Tests.Web.{page}
use browser_fetch_router.UserTabs.Listing.{listed}
use browser_fetch_router.Tests.Browser.{tab, store}

abbrev inbox : Tab
inbox = record tab { url = string (codes "https://mail.google.com/mail/u/0") }

abbrev list_store : Store
list_store =
    record {
      scope = codes "exact:list-all-tabs";
      session_id = codes "s1";
      persisted = true;
      created_at = 5;
      expires_at = never;
    }
    ∷ store

abbrev listing : Fields
listing = listed default_base (entry tab page false ∷ [])
