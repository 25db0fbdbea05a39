-- ===== src/UserTabs/Granted.antt =====
-- What is known of a tab that `_resolve_and_authorize_tab` grants, and of the envelope of one that it
-- refuses.
use browser_fetch_router.Prelude.{◌≡◌, refl, Bool, true, false, Option, none, some, List}
use browser_fetch_router.Prelude.Text.{Text, codes}
use browser_fetch_router.UrlSafety.Result.{
  Error, unsafe, value_error, type_error, cdp, invalid_scope, operational, response_too_large,
  invalid_session_id, Result, ok, err, of_bind_ok, ok_inj,
}
use browser_fetch_router.Json.{null, Fields}
use browser_fetch_router.Approvals.Store.{Store}
use browser_fetch_router.Cdp.Endpoint.{cdp_base_url}
use browser_fetch_router.Cdp.Pages.{Tab, fetch_tab_list}
use browser_fetch_router.UserTabs.Failures.{tab_list_failure_envelope, tab_denial_envelope}
use browser_fetch_router.UserTabs.Failures.Content.{
  content, plain_failure-content, tab_list_failure-content, tab_denial-content,
}
use browser_fetch_router.UserTabs.Redaction.{url_of_tab, resolve_tab}
use browser_fetch_router.UserTabs.Access.{
  World, Access, ReadAuthorization, authorization_for_request, is_url_authorized, record_approval,
  Granted, Decision, granted, refused, grant, authorize_tab, on_list, on_base,
  resolve_and_authorize_tab,
}

module _ (w : World) (access : Access) (store : Store) where
  -- The tab stands in the list of the endpoint, its URL was allowed with the approvals as they stood
  -- before, and the approval was recorded behind that.
  pub record IsGranted (target : Text) (g : Granted) : Type 0 where
    pub tabs : List Tab
    pub of_base :
        cdp_base_url w.client.unicode w.getaddrinfo w.cdp_setting access.allow_remote_cdp
        ≡ ok (some g.base)
    pub of_list : fetch_tab_list w.browser.loads w.client g.base ≡ ok tabs
    pub of_tab : resolve_tab target tabs ≡ some g.tab
    pub of_url : url_of_tab g.tab ≡ ok g.url
    pub of_auth : authorization_for_request w access store ≡ ok g.auth
    pub allowed : is_url_authorized w.client.unicode g.auth g.url ≡ ok true
    pub of_store : record_approval w access store g.url ≡ ok g.store

  -- The part that the choice of a tab settles.
  record IsChosen (base : Text) (tab : Tab) (g : Granted) : Type 0 where
    same_base : base ≡ g.base
    same_tab : tab ≡ g.tab
    of_url : url_of_tab g.tab ≡ ok g.url
    of_auth : authorization_for_request w access store ≡ ok g.auth
    allowed : is_url_authorized w.client.unicode g.auth g.url ≡ ok true
    of_store : record_approval w access store g.url ≡ ok g.store

  abbrev Chosen : Text → Tab → Decision → Type 0
  Chosen base tab (granted g) = IsChosen base tab g
  Chosen base tab (refused d) = content d ≡ null

  grant-Chosen :
      (base : Text) (tab : Tab) (url : Text) (auth : ReadAuthorization) (allowed : Bool)
      {d : Decision}
      → url_of_tab tab ≡ ok url
      → authorization_for_request w access store ≡ ok auth
      → is_url_authorized w.client.unicode auth url ≡ ok allowed
      → grant w access store base tab url auth allowed ≡ ok d
      → Chosen base tab d
  unfolding grant
  grant-Chosen base tab url auth false {d} h1 h2 h3 h =
      rw (← ok_inj {a = refused (tab_denial_envelope url access.approval_scope)} h)
        (tab_denial-content url access.approval_scope)
  grant-Chosen base tab url auth true {d} h1 h2 h3 h =
      of_bind_ok (record_approval w access store url) _ h λ new_store stored done.
        let g : Granted = record {
          base = base;
          url = url;
          tab = tab;
          auth = auth;
          store = new_store;
        } in
        rw (← ok_inj {a = granted g} done) (record {
          same_base = refl;
          same_tab = refl;
          of_url = h1;
          of_auth = h2;
          allowed = h3;
          of_store = stored;
        })

  abbrev Decided : Text → Decision → Type 0
  Decided target (granted g) = IsGranted target g
  Decided target (refused d) = content d ≡ null

  refused_Decided :
      (target : Text) (f : Fields) {d : Decision}
      → content f ≡ null
      → ok (refused f) ≡ ok d
      → Decided target d
  refused_Decided target f e h = rw (← ok_inj {a = refused f} h) e

  Chosen-Decided :
      (target base : Text) (tabs : List Tab) (tab : Tab) (d : Decision)
      → cdp_base_url w.client.unicode w.getaddrinfo w.cdp_setting access.allow_remote_cdp
        ≡ ok (some base)
      → fetch_tab_list w.browser.loads w.client base ≡ ok tabs
      → resolve_tab target tabs ≡ some tab
      → Chosen base tab d
      → Decided target d
  Chosen-Decided target base tabs tab (refused d) h1 h2 h3 c = c
  Chosen-Decided target base tabs tab (granted g) h1 h2 h3 c = record {
    tabs = tabs;
    of_base = rw (← c.same_base) h1;
    of_list = rw (← c.same_base) h2;
    of_tab = rw (← c.same_tab) h3;
    of_url = c.of_url;
    of_auth = c.of_auth;
    allowed = c.allowed;
    of_store = c.of_store;
  }

  authorize_tab-Decided :
      (target base : Text) (tabs : List Tab) (o : Option Tab) {d : Decision}
      → cdp_base_url w.client.unicode w.getaddrinfo w.cdp_setting access.allow_remote_cdp
        ≡ ok (some base)
      → fetch_tab_list w.browser.loads w.client base ≡ ok tabs
      → resolve_tab target tabs ≡ o
      → authorize_tab w access store base o ≡ ok d
      → Decided target d
  unfolding authorize_tab
  authorize_tab-Decided target base tabs none h1 h2 h3 h =
      refused_Decided target _
        (plain_failure-content (codes "tool_setup_failed") (codes "tab_not_found")) h
  authorize_tab-Decided target base tabs (some tab) {d} h1 h2 h3 h =
      of_bind_ok (authorization_for_request w access store) _ h λ auth a1 k1.
        of_bind_ok (url_of_tab tab) _ k1 λ url a2 k2.
          of_bind_ok (is_url_authorized w.client.unicode auth url) _ k2 λ allowed a3 k3.
            Chosen-Decided target base tabs tab d h1 h2 h3
              (grant-Chosen base tab url auth allowed a2 a1 a3 k3)

  listed-Decided :
      (target base : Text) (r : Result (List Tab)) {d : Decision}
      → cdp_base_url w.client.unicode w.getaddrinfo w.cdp_setting access.allow_remote_cdp
        ≡ ok (some base)
      → fetch_tab_list w.browser.loads w.client base ≡ r
      → on_list w access store base refused r
          (λ tabs. authorize_tab w access store base (resolve_tab target tabs))
        ≡ ok d
      → Decided target d
  unfolding on_list
  listed-Decided target base (ok tabs) h1 h2 h =
      authorize_tab-Decided target base tabs (resolve_tab target tabs) h1 h2 refl h
  listed-Decided target base (err e) h1 h2 h = failed e h
    where
      failed :
          (e : Error) {d : Decision}
          → on_list w access store base refused
              (err e)
              (λ tabs. authorize_tab w access store base (resolve_tab target tabs))
            ≡ ok d
          → Decided target d
      failed (unsafe code) h = absurd (cc)
      failed invalid_session_id h =
          refused_Decided target (tab_list_failure_envelope invalid_session_id base)
            (tab_list_failure-content invalid_session_id base) h
      failed value_error h =
          refused_Decided target (tab_list_failure_envelope value_error base)
            (tab_list_failure-content value_error base) h
      failed type_error h =
          refused_Decided target (tab_list_failure_envelope type_error base)
            (tab_list_failure-content type_error base) h
      failed (cdp f) h =
          refused_Decided target (tab_list_failure_envelope (cdp f) base)
            (tab_list_failure-content (cdp f) base) h
      failed (invalid_scope r) h =
          refused_Decided target (tab_list_failure_envelope (invalid_scope r) base)
            (tab_list_failure-content (invalid_scope r) base) h
      failed operational h =
          refused_Decided target (tab_list_failure_envelope operational base)
            (tab_list_failure-content operational base) h
      failed response_too_large h =
          refused_Decided target (tab_list_failure_envelope response_too_large base)
            (tab_list_failure-content response_too_large base) h

  based-Decided :
      (target : Text) (o : Option Text) {d : Decision}
      → cdp_base_url w.client.unicode w.getaddrinfo w.cdp_setting access.allow_remote_cdp ≡ ok o
      → on_base w access store target o ≡ ok d
      → Decided target d
  unfolding on_base
  based-Decided target none h1 h =
      refused_Decided target _
        (plain_failure-content (codes "tool_setup_failed") (codes "remote_cdp_not_allowed")) h
  based-Decided target (some base) h1 h =
      listed-Decided target base (fetch_tab_list w.browser.loads w.client base) h1 refl h

  resolve-Decided :
      (target : Text) {d : Decision}
      → resolve_and_authorize_tab w access store target ≡ ok d
      → Decided target d
  unfolding resolve_and_authorize_tab
  resolve-Decided target h =
      of_bind_ok (cdp_base_url w.client.unicode w.getaddrinfo w.cdp_setting access.allow_remote_cdp)
        _ h λ o e k. based-Decided target o e k

  pub resolve-IsGranted :
      (target : Text) (g : Granted)
      → resolve_and_authorize_tab w access store target ≡ ok (granted g)
      → IsGranted target g
  resolve-IsGranted target g h = resolve-Decided target h

  pub resolve-content :
      (target : Text) (d : Fields)
      → resolve_and_authorize_tab w access store target ≡ ok (refused d)
      → content d ≡ null
  resolve-content target d h = resolve-Decided target h
