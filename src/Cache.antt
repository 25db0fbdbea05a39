-- ===== src/Cache.antt =====
-- `CacheStore` of browser_fetch_router/cache.py. A file of the cache is the dict that its JSON text
-- decodes to; the files are a dict by their keys. Times are numbers of microseconds.
pub mod Expiry
pub mod Lock
use browser_fetch_router.Prelude.{
  ℕ, ◌+◌, ◌*◌, Bool, true, false, not, ◌||◌, ltb, Option, none, some, List, [], ◌∷◌, keep,
  if◌then◌else◌,
}
use browser_fetch_router.Prelude.Text.{Text, codes, text_eq}
use browser_fetch_router.Prelude.Dict.{get, put}
use browser_fetch_router.UrlSafety.Result.{type_error, Result, ok, err}
use browser_fetch_router.Json.{
  Json, null, boolean, integer, real, string, array, object, Fields, as_dict, lookup, equals_text,
  members,
}
use browser_fetch_router.Schema.{schema_version}

abbrev pub CacheFiles : Type 0
CacheFiles = List (Text × Fields)

abbrev pub route_ttls : List (Text × ℕ)
route_ttls =
    (codes "fxtwitter", 300)
    ∷ (codes "reddit-json", 120)
    ∷ (codes "jina-reader", 600)
    ∷ (codes "parallel", 3600)
    ∷ []

-- A number that is no bool, as a sign and microseconds.
unfoldable pub as_time : Json → Option (Bool × ℕ)
as_time (integer sign n) = some (sign, n * 1000000)
as_time (real sign n) = some (sign, n)
as_time null = none
as_time (boolean b) = none
as_time (string s) = none
as_time (array a) = none
as_time (object d) = none

-- `_is_valid_cache_record`, with the two fields that it tests.
unfoldable pub valid_parts : Option (Bool × ℕ) → Option Fields → Option ((Bool × ℕ) × Fields)
valid_parts (some expires) (some envelope) = some (expires, envelope)
valid_parts (some expires) none = none
valid_parts none envelope = none

unfoldable pub valid_record : Fields → Option ((Bool × ℕ) × Fields)
unfolding valid_parts
valid_record record_ =
    valid_parts (as_time (lookup (codes "expires_at") record_))
      (as_dict (lookup (codes "envelope") record_))

-- `data["expires_at"] < time.time()`.
unfoldable pub is_expired : Bool × ℕ → ℕ → Bool
is_expired (true, n) now = ltb 0 n || ltb 0 now
is_expired (false, n) now = ltb n now

-- `data["schema_version"] != SCHEMA_VERSION`; a key that is missing raises.
unfoldable pub has_version : Fields → Result Bool
has_version record_ = elim (get (codes "schema_version") record_) [
  | none ↦ err type_error
  | some v ↦ ok (equals_text v schema_version)
]

unfoldable pub unless_expired : (Bool × ℕ) × Fields → ℕ → Result Bool → Result (Option Fields)
unless_expired (expires, envelope) now (err e) = err e
unless_expired (expires, envelope) now (ok false) = ok none
unless_expired (expires, envelope) now (ok true) =
    ok (if is_expired expires now then none else some envelope)

-- A file that `backup_corrupt_file` moves away.
unfoldable pub without_key : Text → CacheFiles → CacheFiles
without_key key files = keep (λ (f : Text × Fields). not (text_eq f.0 key)) files

unfoldable pub read_record :
    Text
    → ℕ
    → CacheFiles
    → Fields
    → Option ((Bool × ℕ) × Fields)
    → Result (Option Fields) × CacheFiles
unfolding unless_expired
read_record key now files record_ none = (ok none, without_key key files)
read_record key now files record_ (some parts) =
    (unless_expired parts now (has_version record_), files)

unfoldable pub read_file :
    Text → ℕ → CacheFiles → Option Fields → Result (Option Fields) × CacheFiles
unfolding read_record
read_file key now files none = (ok none, files)
read_file key now files (some []) = (ok none, files)
read_file key now files (some (kv ∷ rest)) =
    read_record key now files (kv ∷ rest) (valid_record (kv ∷ rest))

-- What is read, or raised, and the files behind it.
unfoldable pub read : Text → ℕ → CacheFiles → Result (Option Fields) × CacheFiles
unfolding read_file
read key now files = read_file key now files (get key files)

unfoldable pub new_record : Fields → ℕ → ℕ → Fields
new_record payload ttl_seconds now =
    (codes "schema_version", string schema_version)
    ∷ (codes "created_at", real false now)
    ∷ (codes "expires_at", real false (now + ttl_seconds * 1000000))
    ∷ (codes "envelope", object (members payload))
    ∷ []

-- A time to live below zero is zero here.
unfoldable pub write : Text → Fields → ℕ → ℕ → CacheFiles → CacheFiles
unfolding new_record
write key payload ttl_seconds now files = put key (new_record payload ttl_seconds now) files
