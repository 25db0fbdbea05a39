-- ===== src/ReadWeb/Cached.antt =====
-- Reads that the cache answers.
use browser_fetch_router.Prelude.{
  ◌+◌, ◌*◌, ◌≤◌, ◌≡◌, refl, ap, ◌∙◌, ℕ, Bool, true, false, Option, none, some, le→not_ltb,
}
use browser_fetch_router.Prelude.Text.{Text, text_eq_refl}
use browser_fetch_router.UrlSafety.Result.{Result, ok, err}
use browser_fetch_router.UrlSafety.SplitUrl.{Unicode}
use browser_fetch_router.Json.{Fields}
use browser_fetch_router.Cache.{CacheFiles, read, write}
use browser_fetch_router.Cache.Expiry.{read-write}
use browser_fetch_router.ReadWeb.Payloads.{Providers, Arguments, finalize}
use browser_fetch_router.ReadWeb.Reads.{
  Ran, Moment, on_cache, ask_unless, ask_cache, read_route, routed, url_and_route, read_web,
}

module _ (u : Unicode) (p : Providers) (a : Arguments) (m : Moment) where
  hit :
      (miss : CacheFiles → Ran) (payload : Fields) (o : Result (Option Fields) × CacheFiles)
      → o.0 ≡ ok (some payload)
      → ((on_cache u p a m miss o).result ≡ finalize a true payload)
        × ((on_cache u p a m miss o).called ≡ false)
  unfolding on_cache
  hit miss payload (err e, files) h = absurd (cc)
  hit miss payload (ok none, files) h = absurd (cc)
  hit miss payload (ok (some q), files) h = (ap (finalize a true) (payload_of h), refl)
    where
      payload_of : {q : Fields} → ok (some q) ≡ ok (some payload) → q ≡ payload
      payload_of {q} h = ap (λ r. value_or q r) h
        where
          value_or : Fields → Result (Option Fields) → Fields
          value_or d (ok (some x)) = x
          value_or d (ok none) = d
          value_or d (err e) = d

  asked :
      (key : Text) (miss : CacheFiles → Ran) (payload : Fields) (files : CacheFiles)
      → a.no_cache ≡ false
      → (read key m.now files).0 ≡ ok (some payload)
      → ((ask_cache u p a m key miss files).result ≡ finalize a true payload)
        × ((ask_cache u p a m key miss files).called ≡ false)
  unfolding ask_cache
  asked key miss payload files e h = go a.no_cache e
    where
      go :
          (skip : Bool)
          → skip ≡ false
          → ((ask_unless u p a m skip key miss files).result ≡ finalize a true payload)
            × ((ask_unless u p a m skip key miss files).called ≡ false)
      go true e = absurd (cc)
      go false e = hit miss payload (read key m.now files) h

  -- A payload that was cached for the route and the normal form of a URL is what a read of the URL
  -- gives, decorated for its caller, until its time to live has passed, and no provider is called.
  pub read_web-cached :
      (url normalized route : Text) (payload : Fields) (ttl then_ : ℕ) (files : CacheFiles)
      → a.no_cache ≡ false
      → url_and_route u url ≡ ok (normalized, route)
      → m.now ≤ then_ + ttl * 1000000
      → let cached = write (p.cache_key route normalized) payload ttl then_ files in
        ((read_web u p a m url cached).result ≡ finalize a true payload)
        × ((read_web u p a m url cached).called ≡ false)
  unfolding read_web routed read_route
  read_web-cached url normalized route payload ttl then_ files e of_url fresh =
      let key = p.cache_key route normalized in
      rw of_url (
        asked key _ payload (write key payload ttl then_ files) e (
          read-write key key payload ttl then_ m.now files
          ∙ rw (text_eq_refl key, le→not_ltb (then_ + ttl * 1000000) m.now fresh) refl))
