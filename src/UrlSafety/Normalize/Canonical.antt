-- ===== src/UrlSafety/Normalize/Canonical.antt =====
-- The path and the query of a canonical URL.
use browser_fetch_router.Prelude.{ℕ, ◌<◌, ◌≡◌, refl, true, Option, [], ◌∷◌, All, any, arith}
use browser_fetch_router.Prelude.Text.{Text, codes, has_char}
use browser_fetch_router.UrlSafety.SplitUrl.{SplitResult}
use browser_fetch_router.UrlSafety.Encode.{quote}
use browser_fetch_router.UrlSafety.Encode.Quoting.{quote_idem}
use browser_fetch_router.UrlSafety.Normalize.{path_or_root, path_safe, query_safe, canonical}

-- The text is ASCII, and quoting it again changes nothing.
IsQuoted : Text → Text → Type 0
IsQuoted safe s = (quote safe s ≡ s) × All (λ c. c < 128) s

percent_in_path : has_char b'%' path_safe ≡ true
unfolding has_char any codes path_safe
percent_in_path = refl

percent_in_query : has_char b'%' query_safe ≡ true
unfolding has_char any codes query_safe
percent_in_query = refl

path_or_root-All : (s : Text) → All (λ c. c < 0x110000) s → All (λ c. c < 0x110000) (path_or_root s)
unfolding path_or_root codes
path_or_root-All [] h = (omega arith, tt)
path_or_root-All (c ∷ s) h = h

-- The path and the query of a canonical URL are ASCII, and a second round of the percent encoding
-- changes neither: what was encoded is not encoded twice. The parts must consist of code points.
canonical-stable :
    (r : SplitResult) (host : Text) (p : Option ℕ)
    → All (λ c. c < 0x110000) r.path
    → All (λ c. c < 0x110000) r.query
    → IsQuoted path_safe (canonical r host p).path × IsQuoted query_safe (canonical r host p).query
unfolding IsQuoted canonical
canonical-stable r host p path query = (
  quote_idem path_safe percent_in_path (path_or_root r.path) (path_or_root-All r.path path),
  quote_idem query_safe percent_in_query r.query query,
)
