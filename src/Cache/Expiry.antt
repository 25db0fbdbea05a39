-- ===== src/Cache/Expiry.antt =====
-- What is read back from the cache, and until when.
use browser_fetch_router.Prelude.{
  ℕ, ◌+◌, ◌*◌, ◌≡◌, refl, inl, inr, ap, ◌∙◌, Bool, true, false, ltb, Option, none, some, List, [],
  ◌∷◌, if◌then◌else◌, Bool-cases, arith,
}
use browser_fetch_router.Prelude.Text.{Text, codes, text_eq, text_eq_refl, eq_of_text_eq}
use browser_fetch_router.Prelude.Dict.{get, put}
use browser_fetch_router.UrlSafety.Result.{Result, ok}
use browser_fetch_router.Json.{Json, Fields, fields, members, as_dict, lookup, as_text, equals_text}
use browser_fetch_router.Cache.{
  CacheFiles, as_time, valid_record, valid_parts, is_expired, has_version, unless_expired,
  read_record, read_file, read, new_record, write,
}

pub get-put {ℓ} : {A : Type ℓ} (k : Text) (v : A) (d : List (Text × A)) → get k (put k v d) ≡ some v
unfolding get put
get-put k v [] = rw (text_eq_refl k) refl
get-put k v ((j, w) ∷ d) = elim (Bool-cases (text_eq j k)) [
  | inl e ↦ rw (e, put) (rw e refl)
  | inr e ↦ rw (e, put) (rw e (get-put k v d))
]

pub get-put-other {ℓ} :
    {A : Type ℓ} (j k : Text) (v : A) (d : List (Text × A))
    → text_eq k j ≡ false
    → get j (put k v d) ≡ get j d
unfolding get put
get-put-other j k v [] h = rw h refl
get-put-other j k v ((i, w) ∷ d) h = elim (Bool-cases (text_eq i k)) [
  | inl e ↦ rw (e, put) (rw (rw (← eq_of_text_eq i k e) at h) refl)
  | inr e ↦ rw (e, put) (ground (arith, get-put-other j k v d h))
]

pub fields-members : (d : Fields) → fields (members d) ≡ d
unfolding fields members
fields-members [] = refl
fields-members ((k, v) ∷ d) = ap (λ l. (k, v) ∷ l) (fields-members d)

-- A record that was just written is valid, and has its version.
new_record-valid :
    (payload : Fields) (ttl now : ℕ)
    → valid_record (new_record payload ttl now) ≡ some ((false, now + ttl * 1000000), payload)
unfolding valid_record valid_parts new_record lookup get text_eq codes as_time as_dict
new_record-valid payload ttl now =
    ap (λ (d : Fields). some ((false, now + ttl * 1000000), d)) (fields-members payload)

new_record-has_version :
    (payload : Fields) (ttl now : ℕ) → has_version (new_record payload ttl now) ≡ ok true
unfolding has_version new_record get text_eq codes equals_text as_text
new_record-has_version payload ttl now = refl

read_valid :
    (key : Text) (later expires : ℕ) (files : CacheFiles) (r payload : Fields)
    → valid_record r ≡ some ((false, expires), payload)
    → has_version r ≡ ok true
    → (read_record key later files r (valid_record r)).0
      ≡ ok (if ltb expires later then none else some payload)
unfolding is_expired read_record unless_expired
read_valid key later expires files r payload valid version = rw (valid, version) refl

read_some :
    (key : Text) (later : ℕ) (files : CacheFiles) (kv : Text × Json) (rest : Fields)
    → read_file key later files (some (kv ∷ rest))
      ≡ read_record key later files (kv ∷ rest) (valid_record (kv ∷ rest))
unfolding read_file
read_some key later files kv rest = refl

read-new_record :
    (key : Text) (later : ℕ) (files : CacheFiles) (payload : Fields) (ttl now : ℕ)
    → (read_file key later files (some (new_record payload ttl now))).0
      ≡ ok (if ltb (now + ttl * 1000000) later then none else some payload)
unfolding new_record
read-new_record key later files payload ttl now =
    ap (λ (p : Result (Option Fields) × CacheFiles). p.0) (read_some key later files _ _)
    ∙ read_valid key later (now + ttl * 1000000) files (new_record payload ttl now) payload
        (new_record-valid payload ttl now) (new_record-has_version payload ttl now)

record-result :
    (key : Text) (now : ℕ) (files more : CacheFiles) (r : Fields) (o : Option ((Bool × ℕ) × Fields))
    → (read_record key now files r o).0 ≡ (read_record key now more r o).0
unfolding read_record
record-result key now files more r none = refl
record-result key now files more r (some parts) = refl

file-result :
    (key : Text) (now : ℕ) (files more : CacheFiles) (o : Option Fields)
    → (read_file key now files o).0 ≡ (read_file key now more o).0
unfolding read_file
file-result key now files more none = refl
file-result key now files more (some []) = refl
file-result key now files more (some (kv ∷ rest)) =
    record-result key now files more (kv ∷ rest) (valid_record (kv ∷ rest))

-- After a payload is written under a key, a read of that key gives the payload until its time to live
-- has passed, and nothing after that; a read of another key gives what it gave before.
pub read-write :
    (j k : Text) (payload : Fields) (ttl now later : ℕ) (files : CacheFiles)
    → (read j later (write k payload ttl now files)).0 ≡ (
        if text_eq k j
        then ok (if ltb (now + ttl * 1000000) later then none else some payload)
        else (read j later files).0)
unfolding read write
read-write j k payload ttl now later files = elim (Bool-cases (text_eq k j)) [
  | inl e ↦ rw e (
      rw (← eq_of_text_eq k j e, get-put k (new_record payload ttl now) files)
        (read-new_record k later _ payload ttl now))
  | inr e ↦ rw e (
      rw (get-put-other j k (new_record payload ttl now) files e)
        (file-result j later _ files (get j files)))
]
