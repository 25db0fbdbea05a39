-- ===== src/Approvals/Scopes.antt =====
-- `normalize_scope`, `approval_matches` and `can_read_url` of browser_fetch_router/approvals.py.
-- `InvalidScope` and `UnsafeUrl` are subclasses of ValueError, so `except (InvalidScope, ValueError)`
-- takes every error of `normalize_scope`.
pub mod Precedence
use browser_fetch_router.Prelude.{
  ℕ, Bool, true, false, not, ◌&&◌, ◌||◌, Option, none, some, List, [], ◌∷◌, ◌++◌, drop, any, ◌==◌,
  if◌then◌else◌,
}
use browser_fetch_router.Prelude.Text.{
  Text, codes, text_eq, one_of, has_char, strip, rstrip_by, lower, partition, starts_with,
  ends_with,
}
use browser_fetch_router.UrlSafety.Result.{
  BadScope, empty_scope_value, invalid_glob_prefix, scope_value_only_dots, leading_dot_in_scope,
  port_in_scope, non_hostname_char_in_scope, invalid_hostname_in_scope, missing_kind_separator,
  empty_exact_scope_value, unknown_scope_kind, Result, ok, err, invalid_scope, refuse_scope_if,
  ◌>>=◌, ◌>>◌,
}
use browser_fetch_router.UrlSafety.SplitUrl.{Unicode, SplitResult, urlsplit, hostname}
use browser_fetch_router.UrlSafety.Encode.{encode_idna}
use browser_fetch_router.UrlSafety.Normalize.{is_http, is_https, normalize_and_validate_url}
use browser_fetch_router.Approvals.DefaultDeny.{is_default_denied}

-- `_idna`: a name that has no IDNA form is only put in lower case.
unfoldable pub idna_or_lower : Unicode → Text → Text
idna_or_lower u host = elim (encode_idna u host) [ some ascii ↦ lower ascii | none ↦ lower host ]

strip_glob : Text → Text
strip_glob v = if starts_with v (codes "*.") then drop 2 v else v

is_stop : ℕ → Bool
is_stop c = c == b'/' || (c == b'?' || (c == b'#' || (c == b'@' || (c == b' ' || c == 9))))

unfoldable pub canonicalize_hostname_scope : Unicode → Text → Result Text
unfolding strip_glob is_stop
canonicalize_hostname_scope u value =
    let v = strip_glob (strip value) in
    let w = rstrip_by (λ c. c == b'.') v in
    (do
      refuse_scope_if (text_eq v []) empty_scope_value
      refuse_scope_if (starts_with v (codes "*")) invalid_glob_prefix
      refuse_scope_if (text_eq w []) scope_value_only_dots
      refuse_scope_if (starts_with w (codes ".")) leading_dot_in_scope
      refuse_scope_if (has_char b':' w) port_in_scope
      refuse_scope_if (any is_stop w) non_hostname_char_in_scope
      elim (encode_idna u w) [
        | some ascii ↦ ok (lower ascii)
        | none ↦ err (invalid_scope invalid_hostname_in_scope)
      ])

scope_of : Text → Text → Text
scope_of kind value = kind ++ (codes ":" ++ value)

is_web : SplitResult → Bool
is_web r = is_http r || is_https r

unfoldable pub exact_value : Unicode → Text → Result Text
unfolding is_web
exact_value u raw = do
  refuse_scope_if (text_eq raw []) empty_exact_scope_value
  r ← urlsplit u raw
  if is_web r then normalize_and_validate_url u true raw else ok raw

unfoldable pub normalize_kind : Unicode → Text → Text → Result Text
unfolding scope_of
normalize_kind u kind value =
    if one_of kind (codes "hostname" ∷ codes "wildcard" ∷ [])
    then (do v ← canonicalize_hostname_scope u value; ok (scope_of kind v))
    else if text_eq kind (codes "exact")
    then (do v ← exact_value u (strip value); ok (scope_of kind v))
    else err (invalid_scope unknown_scope_kind)

unfoldable pub normalize_scope : Unicode → Text → Result Text
normalize_scope u scope =
    let p = partition b':' scope in
    if p.found
    then normalize_kind u (lower (strip p.before)) p.after
    else err (invalid_scope missing_kind_separator)

-- `normalize_scope(f"exact:{url}") == f"exact:{value}"`, with False for an error.
exact_matches : Unicode → Text → Text → Bool
exact_matches u value url = elim (normalize_scope u (codes "exact:" ++ url)) [
  | ok s ↦ text_eq s (codes "exact:" ++ value)
  | err e ↦ false
]

-- The three kinds, on the parts of a scope in its normal form.
unfoldable pub kind_matches : Unicode → Text → Text → Text → Text → Bool
unfolding exact_matches
kind_matches u kind value host url =
    if text_eq kind (codes "exact")
    then exact_matches u value url
    else if text_eq kind (codes "hostname")
    then text_eq host value
    else if text_eq kind (codes "wildcard")
    then text_eq host value || ends_with host (b'.' ∷ value)
    else false

-- What follows once the scope is in its normal form; `urlsplit(url)` may raise.
unfoldable pub normal_matches : Unicode → Text → Text → Result Bool
normal_matches u scope url =
    let p = partition b':' scope in
    if p.found && one_of p.before (codes "exact" ∷ codes "hostname" ∷ codes "wildcard" ∷ [])
    then (do
      r ← urlsplit u url
      ok (kind_matches u p.before p.after (idna_or_lower u (hostname r)) url))
    else ok false

unfoldable pub approval_matches : Unicode → Text → Text → Result Bool
approval_matches u scope url = elim (normalize_scope u scope) [
  | ok s ↦ normal_matches u s url
  | err e ↦ ok false
]

is_exact : Unicode → Text → Bool
is_exact u scope = elim (normalize_scope u scope) [
  | ok s ↦ starts_with s (codes "exact:")
  | err e ↦ false
]

-- `any` over tests that may raise: it stops at the first that holds.
unfoldable pub any_matches : Unicode → List Text → Text → Result Bool
any_matches u [] url = ok false
any_matches u (scope ∷ scopes) url =
    let rest = any_matches u scopes url in
    approval_matches u scope url >>= λ matches. if matches then ok true else rest

-- The loop over the one-time approvals.
unfoldable pub any_exact : Unicode → List Text → Text → Result Bool
unfolding is_exact
any_exact u [] url = ok false
any_exact u (scope ∷ scopes) url =
    let rest = any_exact u scopes url in
    if is_exact u scope
    then (approval_matches u scope url >>= λ matches. if matches then ok true else rest)
    else rest

unfoldable pub can_read_url : Unicode → Text → List Text → List Text → Result Bool
can_read_url u url persistent_scopes exact_one_time = do
  once ← any_exact u exact_one_time url
  if once
      then ok true
      else (is_default_denied u url >>= λ denied.
          if denied then ok false else any_matches u persistent_scopes url)
