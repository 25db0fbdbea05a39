-- ===== src/ReadWeb/Paying.antt =====
-- When the paid provider is called.
use browser_fetch_router.Prelude.{
  ◌≡◌, refl, Bool, true, false, Option, none, some, arith, and_true, sym, ◌∙◌,
}
use browser_fetch_router.Prelude.Text.{Text, codes, eq_of_text_eq}
use browser_fetch_router.UrlSafety.Result.{Result, ok, err}
use browser_fetch_router.UrlSafety.SplitUrl.{Unicode}
use browser_fetch_router.Json.{Fields, lookup, equals_text}
use browser_fetch_router.Cache.{CacheFiles, read}
use browser_fetch_router.ReadWeb.Payloads.{
  Providers, Arguments, dispatch_primary, wants_paid, maybe_paid_fallback,
}
use browser_fetch_router.ReadWeb.Reads.{
  Ran, Moment, stored, shaped, fetched, on_cache, ask_unless, ask_cache, read_route, routed,
  url_and_route, read_web,
}

module _ (u : Unicode) (p : Providers) (a : Arguments) (m : Moment) where
  -- Payment is allowed, and the answer of Jina is of too low a quality.
  pub record IsPaid (url : Text) : Type 0 where
    pub normalized : Text
    pub route : Text
    pub primary : Fields
    pub of_url : url_and_route u url ≡ ok (normalized, route)
    pub is_web : route ≡ codes "jina-reader"
    pub allowed : a.allow_paid ≡ true
    pub of_primary : dispatch_primary p route normalized ≡ ok primary
    pub insufficient :
        equals_text (lookup (codes "status") primary) (codes "insufficient_content") ≡ true

  stored-paid :
      (key route : Text) (paid : Bool) (files : CacheFiles) (r : Result Fields)
      → (stored u p a m key route paid files r).paid ≡ paid
  unfolding stored
  stored-paid key route paid files (ok payload) = refl
  stored-paid key route paid files (err e) = refl

  shaped-paid :
      (key url route : Text) (files : CacheFiles) (o : Result Fields × Bool)
      → (shaped u p a m key url route files o).paid ≡ o.1
  unfolding shaped
  shaped-paid key url route files (err e, paid) = refl
  shaped-paid key url route files (ok r, paid) = stored-paid key route paid files _

  fallback-paid :
      (primary : Fields) (url route : Text)
      → (maybe_paid_fallback p a.allow_paid primary url route).1 ≡ true
      → (wants_paid route primary ≡ true) × (a.allow_paid ≡ true)
  unfolding maybe_paid_fallback
  fallback-paid primary url route h = ground arith

  fetched-paid :
      (key url normalized route : Text) (files : CacheFiles) (r : Result Fields)
      → url_and_route u url ≡ ok (normalized, route)
      → dispatch_primary p route normalized ≡ r
      → (fetched u p a m key normalized route files r).paid ≡ true
      → IsPaid url
  unfolding fetched wants_paid
  fetched-paid key url normalized route files (err e) of_url of_primary h = absurd (cc)
  fetched-paid key url normalized route files (ok primary) of_url of_primary h =
      let paid =
        fallback-paid primary normalized route
          (sym (shaped-paid key normalized route files _) ∙ h) in
      let both = and_true _ _ paid.0 in
      record {
        normalized = normalized;
        route = route;
        primary = primary;
        of_url = of_url;
        is_web = eq_of_text_eq route (codes "jina-reader") both.0;
        allowed = paid.1;
        of_primary = of_primary;
        insufficient = both.1;
      }

  -- A hit pays nothing.
  on_cache-paid :
      (miss : CacheFiles → Ran) (o : Result (Option Fields) × CacheFiles)
      → (on_cache u p a m miss o).paid ≡ true
      → (files : CacheFiles) × ((miss files).paid ≡ true)
  unfolding on_cache
  on_cache-paid miss (err e, files) h = absurd (cc)
  on_cache-paid miss (ok (some payload), files) h = absurd (cc)
  on_cache-paid miss (ok none, files) h = (files, h)

  ask_unless-paid :
      (skip : Bool) (key : Text) (miss : CacheFiles → Ran) (files : CacheFiles)
      → (ask_unless u p a m skip key miss files).paid ≡ true
      → (later : CacheFiles) × ((miss later).paid ≡ true)
  unfolding ask_unless
  ask_unless-paid true key miss files h = (files, h)
  ask_unless-paid false key miss files h = on_cache-paid miss (read key m.now files) h

  routed-paid :
      (url : Text) (files : CacheFiles) (r : Result (Text × Text))
      → url_and_route u url ≡ r
      → (routed u p a m files r).paid ≡ true
      → IsPaid url
  unfolding routed read_route ask_cache
  routed-paid url files (err e) of_url h = absurd (cc)
  routed-paid url files (ok (normalized, route)) of_url h =
      let first = ask_unless-paid a.no_cache _ _ files h in
      let second = ask_unless-paid a.no_cache _ _ _ first.1 in
      fetched-paid _ url normalized route _ _ of_url refl second.1

  -- If a read calls the paid provider, payment is allowed, the URL has no provider of its own, and
  -- Jina answered it with too little content.
  pub read_web-IsPaid :
      (url : Text) (files : CacheFiles) → (read_web u p a m url files).paid ≡ true → IsPaid url
  unfolding read_web
  read_web-IsPaid url files h = routed-paid url files (url_and_route u url) refl h
