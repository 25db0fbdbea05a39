-- ===== src/UserTabs/Captured.antt =====
-- What is known when `screenshot_tab` hands an image to the disk.
use browser_fetch_router.Prelude.{
  ◌≡◌, ◌⊎◌, ◌++◌, ◌||◌, Bool, refl, ap, true, false, if◌then◌else◌, Option, none, some, List, [],
  ◌∷◌, inl, inr, Bool-cases,
}
use browser_fetch_router.Prelude.Text.{Text, codes, text_eq, text_eq_iff}
use browser_fetch_router.UrlSafety.Result.{Result, ok, err, of_bind_ok, ok_inj}
use browser_fetch_router.HttpClient.Transport.{Bytes}
use browser_fetch_router.Json.{Json, as_text, equals_text}
use browser_fetch_router.Approvals.Store.{Store}
use browser_fetch_router.Cdp.Endpoint.{validate_tab_websocket_url}
use browser_fetch_router.Cdp.Chat.{Command}
use browser_fetch_router.Cdp.Pages.{Tab, fetch_tab_list}
use browser_fetch_router.Cdp.Answers.{
  tab_url_text, present_tab, find_target, is_page, first_tab, or_first, relisted,
  ensure_authorized_current_url, authorized_target,
}
use browser_fetch_router.Cdp.Reading.{screenshot_chat, socket_of, target_of, fetch_tab_screenshot}
use browser_fetch_router.Cdp.Authorized.{AllowedImage, ensure_ok, screenshot_chat-AllowedImage}
use browser_fetch_router.UserTabs.Access.{
  World, Access, is_url_authorized, Granted, Decision, granted, refused, resolve_and_authorize_tab,
}
use browser_fetch_router.UserTabs.Granted.{IsGranted, resolve-IsGranted}
use browser_fetch_router.UserTabs.Guarded.{Opened, on_url_ok}
use browser_fetch_router.UserTabs.Reading.{authorizer}
use browser_fetch_router.UserTabs.Screenshots.{
  Disk, is_image_dest, unsent, shot_of, shot_from, shot_with_id, shot_granted, shot_on_decision,
  screenshot_tab,
}

some_inj {ℓ} : {A : Type ℓ} {a b : A} → some a ≡ some b → a ≡ b
some_inj {A} {a} {b} h = ap (λ o. value_or a o) h
  where
    value_or : A → Option A → A
    value_or d none = d
    value_or d (some x) = x

present_ok : (o : Option Tab) {tab : Tab} → present_tab o ≡ ok tab → o ≡ some tab
unfolding present_tab
present_ok none h = absurd (cc)
present_ok (some t) {tab} h = ap some (ok_inj {a = t} h)

module _ (w : World) (access : Access) (disk : Disk) (store : Store) where
  -- A tab of a list that has this id or URL, or is a page and stands for `active`.
  pub record IsNamed (name : Text) (tabs : List Tab) (tab : Tab) : Type 0 where
    pub ahead : List Tab
    pub behind : List Tab
    pub listed : tabs ≡ ahead ++ (tab ∷ behind)
    pub named :
        (as_text tab.id ≡ some name)
        ⊎ ((as_text tab.url ≡ some name)
            ⊎ ((name ≡ codes "active") × (as_text tab.type ≡ some (codes "page"))))

  -- The path is that of an image, the tab was granted, a tab that the second listing of the same
  -- endpoint gave for the id of the granted tab has a URL that was allowed and a socket on the endpoint,
  -- and the URL of its main frame was allowed before and behind the capture of the image.
  pub record IsCaptured (target output path : Text) (png : Bytes) : Type 0 where
    pub of_path : path ≡ disk.expanduser output
    pub is_image : is_image_dest path ≡ true
    pub g : Granted
    pub grant : IsGranted w access store target g
    pub tab_id : Text
    pub of_id : as_text g.tab.id ≡ some tab_id
    pub tabs : List Tab
    pub of_list : fetch_tab_list w.browser.loads w.later_client g.base ≡ ok tabs
    pub tab : Tab
    pub found : IsNamed tab_id tabs tab
    pub allowed : is_url_authorized w.client.unicode g.auth (tab_url_text tab) ≡ ok true
    pub ws_url : Text
    pub of_socket :
        validate_tab_websocket_url w.later_client.unicode tab.socket_url g.base ≡ ok ws_url
    pub opened : Opened w.browser ws_url
    pub image :
        AllowedImage w.browser
          (is_url_authorized w.client.unicode g.auth)
          opened.socket.incoming
          png

  socket_ok :
      (g : Granted) (base : Text) (m : Result Tab) {ws_url : Text}
      → socket_of w.browser (authorizer w g.auth) w.later_client.unicode base m ≡ ok ws_url
      → (tab : Tab) × (m ≡ ok tab)
        × (validate_tab_websocket_url w.later_client.unicode tab.socket_url base ≡ ok ws_url)
  unfolding socket_of
  socket_ok g base (err e) h = absurd (cc)
  socket_ok g base (ok tab) h = (tab, refl, h)

  first_tab-IsNamed :
      (name : Text) (p : Tab → Bool) (tabs : List Tab) {tab : Tab}
      → ((t : Tab)
          → p t ≡ true
          → (as_text t.id ≡ some name)
            ⊎ ((as_text t.url ≡ some name)
                ⊎ ((name ≡ codes "active") × (as_text t.type ≡ some (codes "page")))))
      → first_tab p tabs ≡ some tab
      → IsNamed name tabs tab
  unfolding first_tab
  first_tab-IsNamed name p [] named h = absurd (cc)
  first_tab-IsNamed name p (t ∷ tabs) {tab} named h = elim (Bool-cases (p t)) [
    | inl e ↦
        let same : t ≡ tab = some_inj (rw (e, first_tab) at h) in
        rw (← same) (record { ahead = []; behind = tabs; listed = refl; named = named t e })
    | inr e ↦
        let rest = first_tab-IsNamed name p tabs named (rw (e, first_tab) at h) in
        record {
          ahead = t ∷ rest.ahead;
          behind = rest.behind;
          listed = ap (λ (l : List Tab). t ∷ l) rest.listed;
          named = rest.named;
        }
  ]

  option_text :
      (o : Option Text) (s : Text)
      → (elim o [ none ↦ false | some t ↦ text_eq t s ]) ≡ true
      → o ≡ some s
  option_text none s h = absurd (cc)
  option_text (some t) s h = ap some ((text_eq_iff t s).0 h)

  of_equals_text : (v : Json) (s : Text) → equals_text v s ≡ true → as_text v ≡ some s
  unfolding equals_text
  of_equals_text v s h = option_text (as_text v) s h

  or_first-cases :
      (a b : Option Tab) {tab : Tab} → or_first a b ≡ some tab → (a ≡ some tab) ⊎ (b ≡ some tab)
  unfolding or_first
  or_first-cases none b h = inr h
  or_first-cases (some t) b h = inl h

  of_page :
      (name : Text) (active : Bool) (tabs : List Tab) {tab : Tab}
      → text_eq name (codes "active") ≡ active
      → (if active then first_tab is_page tabs else none) ≡ some tab
      → IsNamed name tabs tab
  of_page name false tabs e h = absurd (cc)
  of_page name true tabs e h =
      first_tab-IsNamed name is_page tabs
        (λ t page. inr (
          inr ((text_eq_iff name (codes "active")).0 e, of_equals_text t.type (codes "page") page)))
        h

  id_or_url :
      (name : Text) (t : Tab) (a b : Bool)
      → equals_text t.id name ≡ a
      → equals_text t.url name ≡ b
      → (a || b) ≡ true
      → (as_text t.id ≡ some name) ⊎ (as_text t.url ≡ some name)
  id_or_url name t true b h k e = inl (of_equals_text t.id name h)
  id_or_url name t false true h k e = inr (of_equals_text t.url name k)
  id_or_url name t false false h k e = absurd (cc)

  of_id_or_url :
      (name : Text) (t : Tab)
      → (equals_text t.id name || equals_text t.url name) ≡ true
      → (as_text t.id ≡ some name)
        ⊎ ((as_text t.url ≡ some name)
            ⊎ ((name ≡ codes "active") × (as_text t.type ≡ some (codes "page"))))
  of_id_or_url name t e = elim (id_or_url name t _ _ refl refl e) [
    | inl h ↦ inl h
    | inr h ↦ inr (inl h)
  ]

  find_target-IsNamed :
      (name : Text) (tabs : List Tab) {tab : Tab}
      → find_target name tabs ≡ some tab
      → IsNamed name tabs tab
  unfolding find_target
  find_target-IsNamed name tabs h = elim (or_first-cases _ _ h) [
    | inl page ↦ of_page name _ tabs refl page
    | inr entry ↦ first_tab-IsNamed name _ tabs (of_id_or_url name) entry
  ]

  target_ok :
      (g : Granted) (name : Text) (listed : Result (List Tab)) {tab : Tab}
      → target_of w.browser (authorizer w g.auth) name (relisted listed) ≡ ok tab
      → (tabs : List Tab) × (listed ≡ ok tabs)
        × IsNamed name tabs tab
        × (is_url_authorized w.client.unicode g.auth (tab_url_text tab) ≡ ok true)
  unfolding target_of authorized_target relisted
  target_ok g name (err e) h = absurd (cc)
  target_ok g name (ok tabs) {tab} h =
      of_bind_ok (present_tab (find_target name tabs)) _ h λ found h1 h2.
        of_bind_ok (ensure_authorized_current_url (tab_url_text found) (authorizer w g.auth)) _ h2
          λ u h3 h4. rw (← ok_inj {a = found} h4) (
            tabs,
            refl,
            find_target-IsNamed name tabs (present_ok _ h1),
            ensure_ok w.browser (is_url_authorized w.client.unicode g.auth) (tab_url_text found) h3,
          )

  captured :
      (target output path : Text) (g : Granted) (tab_id : Text) (png : Bytes)
      → path ≡ disk.expanduser output
      → is_image_dest path ≡ true
      → IsGranted w access store target g
      → as_text g.tab.id ≡ some tab_id
      → (fetch_tab_screenshot w.browser (authorizer w g.auth) w.later_client g.base tab_id).0
        ≡ ok png
      → IsCaptured target output path png
  unfolding fetch_tab_screenshot
  captured target output path g tab_id png p image grant of_id h =
      let ran = on_url_ok w.browser (screenshot_chat w.browser (authorizer w g.auth)) _ h in
      let socket = socket_ok g g.base _ ran.2 in
      let second = target_ok g tab_id _ socket.1 in
      record {
        of_path = p;
        is_image = image;
        g = g;
        grant = grant;
        tab_id = tab_id;
        of_id = of_id;
        tabs = second.0;
        of_list = second.1;
        tab = socket.0;
        found = second.2;
        allowed = second.3;
        ws_url = ran.0;
        of_socket = socket.2;
        opened = ran.1;
        image =
            screenshot_chat-AllowedImage w.browser (is_url_authorized w.client.unicode g.auth)
              ran.1.socket png ran.3;
      }

  shot_captured :
      (target output path : Text) (g : Granted) (tab_id : Text) (r : Result Bytes × List Command)
      {out : Text} {png : Bytes}
      → path ≡ disk.expanduser output
      → is_image_dest path ≡ true
      → IsGranted w access store target g
      → as_text g.tab.id ≡ some tab_id
      → fetch_tab_screenshot w.browser (authorizer w g.auth) w.later_client g.base tab_id ≡ r
      → (shot_of w access disk path g r).written ≡ some (out, png)
      → IsCaptured target output out png
  unfolding shot_of
  shot_captured target output path g tab_id (err e, sent) p image grant i f h = absurd (cc)
  shot_captured target output path g tab_id (ok got, sent) {out} {png} p image grant i f h =
      let same : (path, got) ≡ (out, png) = some_inj {a = (path, got)} h in
      rw (← ap (λ (q : Text × Bytes). q.0) same, ← ap (λ (q : Text × Bytes). q.1) same)
        (captured target output path g tab_id got p image grant i
          (ap (λ (r : Result Bytes × List Command). r.0) f))

  from_captured :
      (target output path : Text) (g : Granted) (tab_id : Text) (m : Result Text) {out : Text}
      {png : Bytes}
      → path ≡ disk.expanduser output
      → is_image_dest path ≡ true
      → IsGranted w access store target g
      → as_text g.tab.id ≡ some tab_id
      → (shot_from w access disk path g tab_id m).written ≡ some (out, png)
      → IsCaptured target output out png
  unfolding shot_from unsent
  from_captured target output path g tab_id (err e) p image grant i h = absurd (cc)
  from_captured target output path g tab_id (ok ws_url) p image grant i h =
      shot_captured target output path g tab_id _ p image grant i refl h

  with_id_captured :
      (target output path : Text) (g : Granted) (o : Option Text) {out : Text} {png : Bytes}
      → path ≡ disk.expanduser output
      → is_image_dest path ≡ true
      → IsGranted w access store target g
      → as_text g.tab.id ≡ o
      → (shot_with_id w access disk path g o).written ≡ some (out, png)
      → IsCaptured target output out png
  unfolding shot_with_id unsent
  with_id_captured target output path g none p image grant i h = absurd (cc)
  with_id_captured target output path g (some []) p image grant i h = absurd (cc)
  with_id_captured target output path g (some (c ∷ s)) p image grant i h =
      from_captured target output path g (c ∷ s) _ p image grant i h

  decision_captured :
      (target output path : Text) (m : Result Decision) {out : Text} {png : Bytes}
      → path ≡ disk.expanduser output
      → is_image_dest path ≡ true
      → resolve_and_authorize_tab w access store target ≡ m
      → (shot_on_decision store m (shot_granted w access disk path)).written ≡ some (out, png)
      → IsCaptured target output out png
  unfolding shot_on_decision unsent shot_granted
  decision_captured target output path (err e) p image r h = absurd (cc)
  decision_captured target output path (ok (refused d)) p image r h = absurd (cc)
  decision_captured target output path (ok (granted g)) p image r h =
      with_id_captured target output path g (as_text g.tab.id) p image
        (resolve-IsGranted w access store target g r) refl h

  -- If `screenshot_tab` hands an image to the disk, its path ends in the suffix of an image and is not
  -- hidden; a tab was granted like one that is read; the tab is one that a second listing of the same
  -- endpoint gave for the id of the granted one (its id or URL, or a page if that id is `active`), its URL
  -- may be read and its socket stands on the endpoint; and the browser answered with a main frame whose URL may be
  -- read before and behind the image.
  pub screenshot_tab-IsCaptured :
      (target output out : Text) (png : Bytes)
      → (screenshot_tab w access disk target output store).written ≡ some (out, png)
      → IsCaptured target output out png
  unfolding screenshot_tab
  screenshot_tab-IsCaptured target output out png =
      let path = disk.expanduser output in
      elim (Bool-cases (is_image_dest path)) [
        | inr e ↦ rw (screenshot_tab, e, unsent) λ h. absurd (cc)
        | inl e ↦ elim (Bool-cases (disk.parent_is_dir path)) [
          | inr k ↦ rw (screenshot_tab, e, k, unsent) λ h. absurd (cc)
          | inl k ↦
              rw (screenshot_tab, e, k) λ h. decision_captured target output path _ refl e refl h
        ]
      ]
