-- ===== src/ReadWeb/Reads.antt =====
-- `read_web` of browser_fetch_router/read_web.py.
use browser_fetch_router.Prelude.{
  ℕ, Bool, true, false, not, ◌&&◌, Option, none, some, if◌then◌else◌,
}
use browser_fetch_router.Prelude.Text.{Text, codes}
use browser_fetch_router.Prelude.Dict.{get}
use browser_fetch_router.UrlSafety.Result.{Result, ok, err, ◌>>=◌}
use browser_fetch_router.UrlSafety.SplitUrl.{Unicode}
use browser_fetch_router.UrlSafety.Normalize.{normalize_and_validate_url}
use browser_fetch_router.Json.{Fields, as_text, lookup, equals_text}
use browser_fetch_router.Cache.{CacheFiles, route_ttls, read, write}
use browser_fetch_router.ReadWeb.Payloads.{
  Providers, Arguments, classify_route, dispatch_primary, maybe_paid_fallback, shape_envelope,
  finalize,
}

-- What a read gives, the cache behind it, and whether a provider and the paid provider were called.
pub record Ran : Type 0 where
  pub result : Result Fields
  pub cache : CacheFiles
  pub called : Bool
  pub paid : Bool

-- `ROUTE_TTLS.get(provider_used, ROUTE_TTLS.get(route, 300))`.
ttl_or : Option ℕ → ℕ → ℕ
ttl_or none n = n
ttl_or (some ttl) n = ttl

provider_ttl : Option Text → Option ℕ
provider_ttl none = none
provider_ttl (some provider) = get provider route_ttls

unfoldable pub ttl_of : Text → Fields → ℕ
unfolding ttl_or provider_ttl
ttl_of route payload =
    ttl_or (provider_ttl (as_text (lookup (codes "provider") payload)))
      (ttl_or (get route route_ttls) 300)

-- The files of the cache at three moments: as the read finds them, what others did to them until the
-- lock was taken, and what others did while the provider was called. A write may fail.
pub record Moment : Type 0 where
  pub now : ℕ
  pub at_lock : CacheFiles → CacheFiles
  pub at_write : CacheFiles → CacheFiles
  pub write_fails : Bool

unfoldable pub is_stored : Arguments → Moment → Fields → Bool
is_stored a m payload =
    equals_text (lookup (codes "status") payload) (codes "ok")
    && (not a.no_cache && not m.write_fails)

-- The URL in its normal form, and its route.
unfoldable pub url_and_route : Unicode → Text → Result (Text × Text)
url_and_route u url = do
  normalized ← normalize_and_validate_url u false url
  route ← classify_route u normalized
  ok (normalized, route)

module _ (u : Unicode) (p : Providers) (a : Arguments) (m : Moment) where
  unfoldable pub stored : Text → Text → Bool → CacheFiles → Result Fields → Ran
  unfolding is_stored
  stored key route paid files (err e) = record {
    result = err e;
    cache = files;
    called = true;
    paid = paid;
  }
  stored key route paid files (ok payload) = record {
    result = finalize a false payload;
    cache =
        if is_stored a m payload
        then write key payload (ttl_of route payload) m.now files
        else files;
    called = true;
    paid = paid;
  }

  unfoldable pub shaped : Text → Text → Text → CacheFiles → Result Fields × Bool → Ran
  unfolding stored
  shaped key url route files (err e, paid) = record {
    result = err e;
    cache = files;
    called = true;
    paid = paid;
  }
  shaped key url route files (ok result, paid) =
      stored key route paid files (shape_envelope result url route)

  unfoldable pub fetched : Text → Text → Text → CacheFiles → Result Fields → Ran
  unfolding shaped
  fetched key url route files (err e) = record {
    result = err e;
    cache = files;
    called = true;
    paid = false;
  }
  fetched key url route files (ok primary) =
      shaped key url route files (maybe_paid_fallback p a.allow_paid primary url route)

  -- A read of the cache, and what follows a miss.
  unfoldable pub on_cache : (CacheFiles → Ran) → Result (Option Fields) × CacheFiles → Ran
  on_cache miss (err e, files) = record {
    result = err e;
    cache = files;
    called = false;
    paid = false;
  }
  on_cache miss (ok (some payload), files) = record {
    result = finalize a true payload;
    cache = files;
    called = false;
    paid = false;
  }
  on_cache miss (ok none, files) = miss files

  unfoldable pub ask_unless : Bool → Text → (CacheFiles → Ran) → CacheFiles → Ran
  ask_unless true key miss files = miss files
  ask_unless false key miss files = on_cache miss (read key m.now files)

  unfoldable pub ask_cache : Text → (CacheFiles → Ran) → CacheFiles → Ran
  unfolding ask_unless
  ask_cache key miss files = ask_unless a.no_cache key miss files

  -- The cache is asked again behind the lock.
  unfoldable pub read_route : Text → Text → Text → CacheFiles → Ran
  unfolding fetched
  read_route key url route files =
      ask_cache key
        (λ files.
          ask_cache key
            (λ files. fetched key url route (m.at_write files) (dispatch_primary p route url))
            (m.at_lock files))
        files

  unfoldable pub routed : CacheFiles → Result (Text × Text) → Ran
  routed files (err e) = record { result = err e; cache = files; called = false; paid = false }
  routed files (ok (url, route)) = read_route (p.cache_key route url) url route files

  unfoldable pub read_web : Text → CacheFiles → Ran
  unfolding routed
  read_web url files = routed files (url_and_route u url)
