-- ===== src/UserTabs/Redacted.antt =====
-- What a listing of tabs shows.
use browser_fetch_router.Prelude.{
  ◌≡◌, ◌⊎◌, refl, inl, inr, Bool, true, false, ◌||◌, List, [], ◌∷◌, Bool-cases, or_false, arith,
}
use browser_fetch_router.Prelude.Text.{Text, codes, text_eq, one_of, lower}
use browser_fetch_router.Prelude.Dict.{get}
use browser_fetch_router.UrlSafety.Result.{ok, of_bind_ok, ok_inj}
use browser_fetch_router.UrlSafety.SplitUrl.{Unicode, SplitResult, urlsplit, hostname}
use browser_fetch_router.Approvals.DefaultDeny.{
  is_default_denied, is_default_denied_hostname, denies,
}
use browser_fetch_router.Json.{string, boolean, Fields, lookup}
use browser_fetch_router.Cdp.Pages.{Tab}
use browser_fetch_router.UserTabs.Redaction.{
  url_of_tab, has_unknown_scheme, hidden, entry, redact_tab, redact_tab_list,
}

module _ (u : Unicode) where
  -- A URL that may be shown: no host of the deny list, and the scheme http, https or none.
  pub record IsHarmless (url : Text) : Type 0 where
    pub parts : SplitResult
    pub of_url : urlsplit u url ≡ ok parts
    pub host : is_default_denied_hostname (lower (hostname parts)) ≡ false
    pub denied : is_default_denied u url ≡ ok false
    pub scheme :
        (text_eq (lower parts.scheme) []
          || one_of (lower parts.scheme) (codes "http" ∷ codes "https" ∷ []))
        ≡ true

  -- The entry has the tab's id, and shows either neither URL nor title, or a harmless URL.
  abbrev pub IsSafeEntry : Tab → Fields → Type 0
  IsSafeEntry t d =
      (lookup (codes "id") d ≡ t.id)
      × (((lookup (codes "url") d ≡ hidden)
            × (lookup (codes "title") d ≡ hidden)
            × (lookup (codes "redacted") d ≡ boolean true))
          ⊎ ((url : Text) × (url_of_tab t ≡ ok url)
              × (lookup (codes "url") d ≡ string url)
              × IsHarmless url))

  -- Entry by entry.
  abbrev pub AreSafe : List Tab → List Fields → Type 0
  AreSafe [] [] = Unit
  AreSafe [] (d ∷ out) = ⊥
  AreSafe (t ∷ tabs) [] = ⊥
  AreSafe (t ∷ tabs) (d ∷ out) = IsSafeEntry t d × AreSafe tabs out

  denied_host :
      (url : Text) (r : SplitResult)
      → urlsplit u url ≡ ok r
      → is_default_denied u url ≡ ok false
      → is_default_denied_hostname (lower (hostname r)) ≡ false
  unfolding is_default_denied denies
  denied_host url r split h = (or_false _ _ (ok_inj {a = denies r} (rw split at h))).0

  known_scheme :
      (r : SplitResult)
      → has_unknown_scheme r ≡ false
      → (text_eq (lower r.scheme) [] || one_of (lower r.scheme) (codes "http" ∷ codes "https" ∷ []))
        ≡ true
  unfolding has_unknown_scheme
  known_scheme r h = ground arith

  harmless :
      (url : Text) (r : SplitResult) (denied : Bool)
      → urlsplit u url ≡ ok r
      → is_default_denied u url ≡ ok denied
      → (denied || has_unknown_scheme r) ≡ false
      → IsHarmless url
  harmless url r denied split h e =
      let both = or_false denied (has_unknown_scheme r) e in
      let not_denied : is_default_denied u url ≡ ok false = rw both.0 at h in
      record {
        parts = r;
        of_url = split;
        host = denied_host url r split not_denied;
        denied = not_denied;
        scheme = known_scheme r both.1;
      }

  entry_safe :
      (t : Tab) (url : Text) (r : SplitResult) (denied : Bool)
      → url_of_tab t ≡ ok url
      → urlsplit u url ≡ ok r
      → is_default_denied u url ≡ ok denied
      → IsSafeEntry t (entry t url (denied || has_unknown_scheme r))
  unfolding entry lookup get text_eq codes
  entry_safe t url r denied h1 h2 h3 = elim (Bool-cases (denied || has_unknown_scheme r)) [
    | inl e ↦ rw e (refl, inl (refl, refl, refl))
    | inr e ↦ rw e (refl, inr (url, h1, refl, harmless url r denied h2 h3 e))
  ]

  redact_tab-IsSafeEntry :
      (show_all : Bool) (t : Tab) {d : Fields} → redact_tab u show_all t ≡ ok d → IsSafeEntry t d
  unfolding redact_tab
  redact_tab-IsSafeEntry show_all t h = of_bind_ok (url_of_tab t) _ h λ url h1 k1.
      of_bind_ok (urlsplit u url) _ k1 λ r h2 k2.
        of_bind_ok (is_default_denied u url) _ k2 λ denied h3 k3.
          rw (← ok_inj {a = entry t url (denied || has_unknown_scheme r)} k3)
            (entry_safe t url r denied h1 h2 h3)

  pub redact_tab_list-AreSafe :
      (show_all : Bool) (tabs : List Tab) {out : List Fields}
      → redact_tab_list u show_all tabs ≡ ok out
      → AreSafe tabs out
  unfolding redact_tab_list
  redact_tab_list-AreSafe show_all [] {out} h = rw (← ok_inj {a = []} h) tt
  redact_tab_list-AreSafe show_all (t ∷ tabs) {out} h =
      of_bind_ok (redact_tab u show_all t) _ h λ shown h1 k1.
        of_bind_ok (redact_tab_list u show_all tabs) _ k1 λ rest h2 k2.
          rw (← ok_inj {a = shown ∷ rest} k2)
            (redact_tab-IsSafeEntry show_all t h1, redact_tab_list-AreSafe show_all tabs h2)
