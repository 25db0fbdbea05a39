-- ===== src/UserTabs/Listed.antt =====
-- When `list_tabs` lists tabs, and which.
use browser_fetch_router.Prelude.{
  ◌≡◌, refl, sym, Bool, true, false, some, List, [], keep, any, arith,
}
use browser_fetch_router.Prelude.Text.{Text, codes, text_eq, one_of}
use browser_fetch_router.Prelude.Dict.{get}
use browser_fetch_router.UrlSafety.Result.{Error, Result, ok, err, of_bind_ok, ok_inj, ◌>>=◌}
use browser_fetch_router.Json.{Fields, lookup, equals_text, as_text, update}
use browser_fetch_router.Schema.{envelope, envelope_of, base_fields}
use browser_fetch_router.Approvals.Store.{Store}
use browser_fetch_router.Cdp.Endpoint.{cdp_base_url}
use browser_fetch_router.Cdp.Pages.{Tab, fetch_tab_list}
use browser_fetch_router.UserTabs.Failures.{tab_list_failure_envelope}
use browser_fetch_router.UserTabs.Redaction.{redact_tab_list}
use browser_fetch_router.UserTabs.Redacted.{AreSafe, redact_tab_list-AreSafe}
use browser_fetch_router.UserTabs.Access.{World, Access, on_list}
use browser_fetch_router.UserTabs.Listing.{listed, selected, shown_entries, list_all_allowed}

abbrev pub is_ok : Fields → Bool
is_ok d = equals_text (lookup (codes "status") d) (codes "ok")

tab_list_failure-is_ok :
    (e : Error) (base : Text) → is_ok (tab_list_failure_envelope e base) ≡ false
unfolding tab_list_failure_envelope envelope envelope_of base_fields update keep lookup get text_eq
    codes one_of any equals_text as_text
tab_list_failure-is_ok e base = refl

module _ (w : World) (access : Access) (all_tabs show_all : Bool) where
  -- The payload lists tabs of the endpoint: all of them or the first page, each of them redacted
  -- where it must be.
  pub record IsListed (payload : Fields) : Type 0 where
    pub base : Text
    pub tabs : List Tab
    pub entries : List Fields
    pub of_base :
        cdp_base_url w.client.unicode w.getaddrinfo w.cdp_setting access.allow_remote_cdp
        ≡ ok (some base)
    pub of_list : fetch_tab_list w.browser.loads w.client base ≡ ok tabs
    pub safe : AreSafe w.client.unicode (selected all_tabs tabs) entries
    pub of_payload : payload ≡ listed base entries

  fetched :
      (base : Text) (r : Result (List Tab)) {payload : Fields}
      → cdp_base_url w.client.unicode w.getaddrinfo w.cdp_setting access.allow_remote_cdp
        ≡ ok (some base)
      → fetch_tab_list w.browser.loads w.client base ≡ r
      → on_list w access [] base
          (λ (d : Fields). d)
          r
          (λ tabs.
            shown_entries w access all_tabs show_all tabs >>= λ entries. ok (listed base entries))
        ≡ ok payload
      → is_ok payload ≡ true
      → IsListed payload
  unfolding on_list shown_entries
  fetched base (ok tabs) b f h success =
      of_bind_ok (redact_tab_list w.client.unicode show_all (selected all_tabs tabs)) _ h
        λ entries h1 h2. record {
          base = base;
          tabs = tabs;
          entries = entries;
          of_base = b;
          of_list = f;
          safe = redact_tab_list-AreSafe w.client.unicode show_all (selected all_tabs tabs) h1;
          of_payload = sym (ok_inj {a = listed base entries} h2);
        }
  fetched base (err e) {payload} b f h success = ground (
    arith,
    tab_list_failure-is_ok e base,
    ok_inj {a = tab_list_failure_envelope e base} {b = payload},
  )

  abbrev allowed : Store → Bool
  allowed store = list_all_allowed w access all_tabs show_all store
