-- ===== src/UserTabs/Denied.antt =====
-- Pages that are denied by default, behind the commands on tabs.
use browser_fetch_router.Prelude.{◌≡◌, ◌≢◌, sym, ap, ℕ, true, none, []}
use browser_fetch_router.Prelude.Text.{Text}
use browser_fetch_router.UrlSafety.Result.{ok, ok_inj}
use browser_fetch_router.UrlSafety.SplitUrl.{Unicode}
use browser_fetch_router.Approvals.DefaultDeny.{is_default_denied}
use browser_fetch_router.Approvals.Scopes.Precedence.{SomeApproval, can_read_url-SomeApproval}
use browser_fetch_router.Approvals.Store.{Store, list_active_scopes}
use browser_fetch_router.Json.{null, Fields}
use browser_fetch_router.UserTabs.Access.{
  World, Access, ReadAuthorization, given_scope, add_scope, authorization_for_request,
  is_url_authorized,
}
use browser_fetch_router.UserTabs.Failures.Content.{content}
use browser_fetch_router.UserTabs.Guarded.{IsReadOut, read_tab-IsReadOut}
use browser_fetch_router.UserTabs.Reading.{read_tab}

none_approved : (u : Unicode) (url : Text) → ¬ SomeApproval u url []
none_approved u url h = elim h [ ]

not_denied :
    (u : Unicode) (url : Text) (auth : ReadAuthorization)
    → auth.exact_one_time_scopes ≡ []
    → is_url_authorized u auth url ≡ ok true
    → is_default_denied u url ≢ ok true
unfolding is_url_authorized
not_denied u url auth e h denied = none_approved u url (
    rw (← e)
      (can_read_url-SomeApproval u url auth.persistent_scopes auth.exact_one_time_scopes denied h))

module _ (w : World) (access : Access) (store : Store) where
  no_one_time :
      (auth : ReadAuthorization)
      → given_scope access.approval_scope ≡ none
      → authorization_for_request w access store ≡ ok auth
      → auth.exact_one_time_scopes ≡ []
  unfolding authorization_for_request add_scope
  no_one_time auth e h =
      let bare : ReadAuthorization = record {
        persistent_scopes = list_active_scopes access.session_id w.now store;
        exact_one_time_scopes = [];
      } in
      ap (λ (a : ReadAuthorization). a.exact_one_time_scopes) (sym (ok_inj {a = bare} (rw e at h)))

  -- Without an approval in the command itself, and whatever the store holds, a payload with content is
  -- of no page that is denied by default: not by the URL in the list, not by the URL of the main frame
  -- and not by the URL that came with the text.
  pub read_tab-not_denied :
      (target : Text) (max_chars : ℕ) (payload : Fields)
      → given_scope access.approval_scope ≡ none
      → (read_tab w access target max_chars store).result ≡ ok payload
      → content payload ≢ null
      → (r : IsReadOut w access store target max_chars payload) × (is_default_denied
            w.client.unicode r.g.url
          ≢ ok true)
        × (is_default_denied w.client.unicode r.frame.frame.1 ≢ ok true)
        × (is_default_denied w.client.unicode r.text.url ≢ ok true)
  read_tab-not_denied target max_chars payload e h has =
      let r = read_tab-IsReadOut w access store target max_chars payload h has in
      let none_once = no_one_time r.g.auth e r.grant.of_auth in
      (
        r,
        not_denied w.client.unicode r.g.url r.g.auth none_once r.grant.allowed,
        not_denied w.client.unicode r.frame.frame.1 r.g.auth none_once r.frame.allowed,
        not_denied w.client.unicode r.text.url r.g.auth none_once r.text.allowed,
      )
