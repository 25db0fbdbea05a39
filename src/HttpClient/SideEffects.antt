-- ===== src/HttpClient/SideEffects.antt =====
-- The side-effect policy of browser_fetch_router/http_client.py. `unquote` of the standard library, which decodes
-- percent escapes, is a parameter.
pub mod Policy
use browser_fetch_router.Prelude.{
  ℕ, Bool, true, false, not, ◌&&◌, ◌||◌, Option, none, some, List, [], ◌∷◌, map, any, ◌==◌,
  if◌then◌else◌,
}
use browser_fetch_router.Prelude.Text.{Text, codes, one_of, lower, split, partition}
use browser_fetch_router.UrlSafety.Result.{Result, ok, err, ◌>>=◌}
use browser_fetch_router.UrlSafety.SplitUrl.{Unicode, SplitResult, urlsplit}

abbrev pub action_path_parts : List Text
action_path_parts = map codes (
    "delete" ∷ "destroy" ∷ "unsubscribe" ∷ "confirm" ∷ "transfer" ∷ "purchase" ∷ "checkout"
    ∷ "logout" ∷ "remove" ∷ "cancel" ∷ "purge" ∷ "drop" ∷ [])

abbrev pub token_query_names : List Text
token_query_names = map codes (
    "token" ∷ "confirm" ∷ "confirmation" ∷ "signature" ∷ "sig" ∷ "key" ∷ "code" ∷ "state" ∷ "nonce"
    ∷ [])

abbrev pub action_query_values : List Text
action_query_values = map codes (
    "delete" ∷ "destroy" ∷ "remove" ∷ "unsubscribe" ∷ "confirm" ∷ "transfer" ∷ "purchase"
    ∷ "checkout" ∷ "logout" ∷ "cancel" ∷ [])

pub record SideEffectPolicy : Type 0 where
  pub strict : Bool
  pub allow : Bool

-- An empty part is no action, so the filter `if part` changes nothing.
unfoldable pub path_has_action : SplitResult → Bool
path_has_action r = any (λ part. one_of (lower part) action_path_parts) (split b'/' r.path)

plus_to_space : ℕ → ℕ
plus_to_space c = if c == b'+' then b' ' else c

module _ (unquote : Text → Text) where
  -- parse_qsl(query, keep_blank_values=True)
  decode : Text → Text
  unfolding plus_to_space
  decode s = unquote (map plus_to_space s)

  pairs_of : List Text → List (Text × Text)
  unfolding decode
  pairs_of [] = []
  pairs_of ([] ∷ pieces) = pairs_of pieces
  pairs_of ((c ∷ s) ∷ pieces) =
      let p = partition b'=' (c ∷ s) in (decode p.before, decode p.after) ∷ pairs_of pieces

  unfoldable pub parse_qsl : Text → List (Text × Text)
  unfolding pairs_of
  parse_qsl query = pairs_of (split b'&' query)

  unfoldable pub query_has_one_time_token : SplitResult → Bool
  query_has_one_time_token r =
      any (λ ((name, value) : Text × Text). one_of (lower name) token_query_names)
        (parse_qsl r.query)

  unfoldable pub query_has_action : SplitResult → Bool
  query_has_action r =
      any
        (λ ((name, value) : Text × Text).
          one_of (lower name) action_query_values || one_of (lower value) action_query_values)
        (parse_qsl r.query)

  -- `should_block_side_effect_redirect` and `side_effect_warning`, of a URL that was split.
  unfoldable pub should_block : SideEffectPolicy → SplitResult → Bool
  should_block policy r =
      if policy.allow
      then false
      else if policy.strict
          && (path_has_action r || query_has_action r || query_has_one_time_token r)
      then true
      else path_has_action r && query_has_one_time_token r

  unfoldable pub warns : SideEffectPolicy → SplitResult → Bool
  warns policy r =
      if policy.allow
      then false
      else path_has_action r || query_has_action r || query_has_one_time_token r

  module _ (u : Unicode) where
    unfoldable pub should_block_side_effect_redirect : SideEffectPolicy → Text → Result Bool
    unfolding should_block
    should_block_side_effect_redirect policy url =
        if policy.allow then ok false else (do r ← urlsplit u url; ok (should_block policy r))

    unfoldable pub side_effect_warning : SideEffectPolicy → Text → Result Bool
    unfolding warns
    side_effect_warning policy url =
        if policy.allow then ok false else (do r ← urlsplit u url; ok (warns policy r))
