-- ===== src/UserTabs/Listing.antt =====
-- `list_tabs` of browser_fetch_router/read_user_tabs.py: what it returns or raises, and the approvals
-- behind it.
use browser_fetch_router.Prelude.{
  Bool, true, false, Option, none, some, List, [], ◌∷◌, map, keep, length, take, if◌then◌else◌,
}
use browser_fetch_router.Prelude.Text.{Text, codes, one_of}
use browser_fetch_router.UrlSafety.Result.{Result, ok, err, ◌>>=◌}
use browser_fetch_router.Approvals.Store.{Store, list_active_scopes}
use browser_fetch_router.Json.{Json, string, integer, array, object, Fields, members, array_of}
use browser_fetch_router.Schema.{envelope, approval_field}
use browser_fetch_router.Cdp.Endpoint.{cdp_base_url}
use browser_fetch_router.Cdp.Pages.{Tab, fetch_tab_list}
use browser_fetch_router.Cdp.Answers.{is_page}
use browser_fetch_router.UserTabs.Failures.{command, error_field}
use browser_fetch_router.UserTabs.Redaction.{redact_tab_list}
use browser_fetch_router.UserTabs.Access.{World, Access, given_scope, add_given, on_list}

abbrev pub list_all_scope : Text
list_all_scope = codes "exact:list-all-tabs"

unfoldable pub remote_not_allowed : Fields
remote_not_allowed = envelope command (codes "tool_setup_failed") (
    (
      codes "error",
      error_field (codes "remote_cdp_not_allowed")
          (codes "CDP endpoint is non-loopback; pass --allow-remote-cdp to opt in"),
    )
    ∷ [])

unfoldable pub list_all_denied : Fields
list_all_denied = envelope command (codes "approval_required") (
    (codes "approval", approval_field true (string list_all_scope))
    ∷ (
      codes "error",
      error_field (codes "list_all_requires_approval") (
          codes
            "Listing every tab leaks browsing history. Approve with --approval-scope=exact:list-all-tabs and --persist-approval"),
    )
    ∷ [])

objects : List Fields → List Json
objects entries = map (λ (d : Fields). object (members d)) entries

unfoldable pub listed : Text → List Fields → Fields
unfolding members array_of objects
listed base entries = envelope command (codes "ok") (
    (
      codes "evidence",
      object (
          members (
            (codes "cdp_base", string base)
            ∷ (codes "tab_count", integer false (length entries))
            ∷ (codes "tabs", array (array_of (objects entries)))
            ∷ [])),
    )
    ∷ [])

-- Without `--all` only the first page.
unfoldable pub selected : Bool → List Tab → List Tab
selected true tabs = tabs
selected false tabs = take 1 (keep is_page tabs)

module _ (w : World) (access : Access) (all_tabs show_all : Bool) where
  -- The entries of the listing.
  unfoldable pub shown_entries : List Tab → Result (List Fields)
  shown_entries tabs = redact_tab_list w.client.unicode show_all (selected all_tabs tabs)

  unfoldable pub list_base : Text → Result Fields
  unfolding on_list listed
  list_base base =
      on_list w access [] base (λ (d : Fields). d) (fetch_tab_list w.browser.loads w.client base)
        λ tabs. (do entries ← shown_entries tabs; ok (listed base entries))

  -- Granting with `--approval-scope` comes before the test of the scopes.
  unfoldable pub grant_list_all : Store → Result Store
  grant_list_all store = elim (given_scope access.approval_scope) [
    | none ↦ ok store
    | some scope ↦ add_given w access store scope
  ]

  unfoldable pub list_all_allowed : Store → Bool
  list_all_allowed store = one_of list_all_scope (list_active_scopes access.session_id w.now store)

  unfoldable pub list_granted : Text → Store → Result (Store) → Result Fields × Store
  unfolding list_all_denied
  list_granted base store (err e) = (err e, store)
  list_granted base store (ok new_store) =
      (if list_all_allowed new_store then list_base base else ok list_all_denied, new_store)

  unfoldable pub list_when : Bool → Text → Store → Result Fields × Store
  unfolding list_granted
  list_when true base store = list_granted base store (grant_list_all store)
  list_when false base store = (list_base base, store)

  unfoldable pub list_on : Store → Result (Option Text) → Result Fields × Store
  unfolding remote_not_allowed list_when
  list_on store (err e) = (err e, store)
  list_on store (ok none) = (ok remote_not_allowed, store)
  list_on store (ok (some base)) = list_when all_tabs base store

  unfoldable pub list_tabs : Store → Result Fields × Store
  unfolding list_on
  list_tabs store =
      list_on store
        (cdp_base_url w.client.unicode w.getaddrinfo w.cdp_setting access.allow_remote_cdp)
