-- ===== src/HttpClient/SideEffects/Policy.antt =====
-- How the three settings of the policy are ordered.
use browser_fetch_router.Prelude.{◌≡◌, ◌&&◌, ◌||◌, arith}
use browser_fetch_router.Prelude.Text.{Text}
use browser_fetch_router.UrlSafety.SplitUrl.{SplitResult}
use browser_fetch_router.HttpClient.SideEffects.{
  SideEffectPolicy, path_has_action, query_has_one_time_token, should_block, warns,
}

module _ (unquote : Text → Text) (policy : SideEffectPolicy) (r : SplitResult) where
  -- A redirect is blocked exactly if the policy does not allow side effects and either the URL
  -- would be warned of under the strict policy, or its path names an action and its query has a
  -- one-time token. So nothing is blocked that would not be warned of, and under the strict policy
  -- all that is warned of is blocked.
  should_block-warns :
      (should_block unquote policy r ≡ (
        warns unquote policy r
        && (policy.strict || (path_has_action r && query_has_one_time_token unquote r))))
  unfolding should_block warns
  should_block-warns = ground arith
