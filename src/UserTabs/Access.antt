-- ===== src/UserTabs/Access.antt =====
-- `_authorization_for_request`, `_is_url_authorized` and `_resolve_and_authorize_tab` of
-- browser_fetch_router/read_user_tabs.py, and the state that the commands on tabs share.
use browser_fetch_router.Prelude.{
  ℕ, Bool, true, false, Option, none, some, List, [], ◌∷◌, ◌++◌, if◌then◌else◌,
}
use browser_fetch_router.Prelude.Text.{Text, codes, starts_with}
use browser_fetch_router.UrlSafety.Result.{unsafe, Result, ok, err, ◌>>=◌}
use browser_fetch_router.UrlSafety.SplitUrl.{Unicode}
use browser_fetch_router.HttpClient.Transport.{Family}
use browser_fetch_router.HttpClient.Requests.{Client}
use browser_fetch_router.Approvals.DefaultDeny.{is_default_denied}
use browser_fetch_router.Approvals.Scopes.{normalize_scope, can_read_url}
use browser_fetch_router.Approvals.Store.{
  Approval, Store, session_ttl_seconds, add_approval, list_active_scopes,
}
use browser_fetch_router.Json.{Fields}
use browser_fetch_router.Cdp.Endpoint.{cdp_base_url}
use browser_fetch_router.Cdp.Pages.{Tab, fetch_tab_list}
use browser_fetch_router.Cdp.Reading.{Browser}
use browser_fetch_router.UserTabs.Failures.{
  plain_failure, tab_list_failure_envelope, tab_denial_envelope,
}
use browser_fetch_router.UserTabs.Redaction.{url_of_tab, resolve_tab}

-- What a command finds: the client of its first listing and that of a later one, the browser behind
-- the sockets, the resolver and BFR_CDP_URL, and the time.
pub record World : Type 0 where
  pub client : Client
  pub later_client : Client
  pub browser : Browser
  pub getaddrinfo : Text → Option (List (Family × Text))
  pub cdp_setting : Option Text
  pub now : ℕ

-- The arguments that the commands share; without a session id its text is empty.
pub record Access : Type 0 where
  pub approval_scope : Option Text
  pub persist_approval : Bool
  pub allow_remote_cdp : Bool
  pub session_id : Text

pub record ReadAuthorization : Type 0 where
  pub persistent_scopes : List Text
  pub exact_one_time_scopes : List Text

-- `if approval_scope`.
unfoldable pub given_scope : Option Text → Option Text
given_scope none = none
given_scope (some []) = none
given_scope (some (c ∷ s)) = some (c ∷ s)

unfoldable pub with_scope : List Text → Text → ReadAuthorization
with_scope persistent norm =
    if starts_with norm (codes "exact:")
    then record { persistent_scopes = persistent; exact_one_time_scopes = norm ∷ [] }
    else record { persistent_scopes = persistent ++ (norm ∷ []); exact_one_time_scopes = [] }

unfoldable pub add_scope : Unicode → List Text → Option Text → Result ReadAuthorization
unfolding with_scope
add_scope u persistent none =
    ok (record { persistent_scopes = persistent; exact_one_time_scopes = [] })
add_scope u persistent (some scope) = do
  norm ← normalize_scope u scope
  ok (with_scope persistent norm)

unfoldable pub authorization_for_request : World → Access → Store → Result ReadAuthorization
unfolding add_scope
authorization_for_request w access store =
    add_scope w.client.unicode (list_active_scopes access.session_id w.now store)
      (given_scope access.approval_scope)

unfoldable pub is_url_authorized : Unicode → ReadAuthorization → Text → Result Bool
is_url_authorized u auth url = can_read_url u url auth.persistent_scopes auth.exact_one_time_scopes

-- `if approval_scope and not is_default_denied(url): add_approval(...)`, the store behind it.
store_of : Result (Approval × Store) → Result Store
store_of (ok (approval, store)) = ok store
store_of (err e) = err e

unfoldable pub add_given : World → Access → Store → Text → Result Store
unfolding store_of
add_given w access store scope = store_of (
    add_approval w.client.unicode scope access.session_id access.persist_approval
      session_ttl_seconds w.now store)

unfoldable pub record_approval : World → Access → Store → Text → Result Store
record_approval w access store url = elim (given_scope access.approval_scope) [
  | none ↦ ok store
  | some scope ↦ (do
    denied ← is_default_denied w.client.unicode url
    if denied then ok store else add_given w access store scope)
]

-- A tab that may be read, with what was decided on the way, or the envelope of a failure.
pub record Granted : Type 0 where
  pub base : Text
  pub url : Text
  pub tab : Tab
  pub auth : ReadAuthorization
  pub store : Store

pub data Decision : Type 0 where
  granted : Granted → Decision
  refused : Fields → Decision

module _ (w : World) (access : Access) (store : Store) where
  unfoldable pub grant : Text → Tab → Text → ReadAuthorization → Bool → Result Decision
  grant base tab url auth false = ok (refused (tab_denial_envelope url access.approval_scope))
  grant base tab url auth true = do
    new_store ← record_approval w access store url
    ok (granted (record { base = base; url = url; tab = tab; auth = auth; store = new_store }))

  unfoldable pub authorize_tab : Text → Option Tab → Result Decision
  unfolding grant
  authorize_tab base none =
      ok (refused (plain_failure (codes "tool_setup_failed") (codes "tab_not_found")))
  authorize_tab base (some tab) = do
    auth ← authorization_for_request w access store
    url ← url_of_tab tab
    allowed ← is_url_authorized w.client.unicode auth url
    grant base tab url auth allowed

  -- A safety error is raised; every other error of the listing is an envelope.
  unfoldable pub on_list {ℓ} :
      {A : Type ℓ} → Text → (Fields → A) → Result (List Tab) → (List Tab → Result A) → Result A
  on_list base refuse (ok tabs) next = next tabs
  on_list base refuse (err (unsafe code)) next = err (unsafe code)
  on_list base refuse (err e) next = ok (refuse (tab_list_failure_envelope e base))

  unfoldable pub on_base : Text → Option Text → Result Decision
  unfolding on_list
  on_base target none =
      ok (refused (plain_failure (codes "tool_setup_failed") (codes "remote_cdp_not_allowed")))
  on_base target (some base) =
      on_list base refused (fetch_tab_list w.browser.loads w.client base)
        (λ tabs. authorize_tab base (resolve_tab target tabs))

  unfoldable pub resolve_and_authorize_tab : Text → Result Decision
  unfolding on_base
  resolve_and_authorize_tab target = do
    base ← cdp_base_url w.client.unicode w.getaddrinfo w.cdp_setting access.allow_remote_cdp
    on_base target base
