-- ===== src/Interactive/Dispatch.antt =====
-- `run_interactive_browser` of browser_fetch_router/interactive.py.
use browser_fetch_router.Prelude.{
  Bool, true, not, ◌&&◌, Option, none, some, [], ◌∷◌, ◌++◌, if◌then◌else◌,
}
use browser_fetch_router.Prelude.Text.{Text, codes, text_eq, one_of}
use browser_fetch_router.UrlSafety.Result.{ok}
use browser_fetch_router.Json.{string, object, Fields, members}
use browser_fetch_router.Schema.{envelope, approval_field}
use browser_fetch_router.Cost.Ledger.{Amount, Ledger}
use browser_fetch_router.Interactive.Hosted.{command, Setting, Ran}
use browser_fetch_router.Interactive.Runs.{
  Tier, classify_action, require_action_confirmation, default_provider, browserbase, cloud,
  run_hosted, uncalled,
}

-- The arguments of a command, with the patterns and the providers.
pub record Task : Type 0 where
  pub task : Text
  pub provider : Option Text
  pub allow_hosted_browser : Bool
  pub confirm_irreversible : Option Text
  pub max_cost_usd : Amount
  pub stdin_is_tty : Bool
  pub in_tier_c : Text → Bool
  pub in_tier_b : Text → Bool
  pub in_tier_a : Text → Bool
  pub browserbase_task : Text → Option Fields
  pub cloud_task : Text → Option Fields

abbrev pub tier_of : Task → Tier
tier_of t = classify_action t.in_tier_c t.in_tier_b t.in_tier_a t.task

-- `provider or _default_provider()`.
unfoldable pub selected_provider : Setting → Option Text → Text
selected_provider s none = default_provider s.environ
selected_provider s (some []) = default_provider s.environ
selected_provider s (some (c ∷ name)) = c ∷ name

local_not_advertised : Fields
local_not_advertised = envelope command (codes "usage_error") (
    (
      codes "error",
      object (
          members (
            (codes "code", string (codes "provider_not_advertised"))
            ∷ (codes "provider", string (codes "local"))
            ∷ (
              codes "message",
              string (codes "Local interactive mode is not a daily-use provider in this build."),
            )
            ∷ [])),
    )
    ∷ [])

opt_in_needed : Text → Fields
opt_in_needed selected = envelope command (codes "approval_required") (
    (
      codes "error",
      object (
          members (
            (codes "code", string (codes "hosted_browser_requires_opt_in"))
            ∷ (
              codes "message",
              string (codes "Pass --allow-hosted-browser to use a hosted provider"),
            )
            ∷ [])),
    )
    ∷ (codes "approval", approval_field true (string (codes "hosted-browser:" ++ selected)))
    ∷ [])

unknown_provider : Text → Fields
unknown_provider selected = envelope command (codes "usage_error") (
    (
      codes "error",
      object (
          members (
            (codes "code", string (codes "unknown_provider"))
            ∷ (codes "provider", string selected)
            ∷ [])),
    )
    ∷ [])

module _ (s : Setting) (others : Ledger → Ledger) (t : Task) where
  unfoldable pub run_selected : Text → Ledger → Ran
  unfolding local_not_advertised opt_in_needed unknown_provider
  run_selected selected l =
      if text_eq selected (codes "local")
      then uncalled l (ok local_not_advertised)
      else if one_of selected (codes "browserbase" ∷ codes "cloud" ∷ [])
          && not t.allow_hosted_browser
      then uncalled l (ok (opt_in_needed selected))
      else if text_eq selected (codes "browserbase")
      then run_hosted s others (browserbase t.browserbase_task) t.max_cost_usd l
      else if text_eq selected (codes "cloud")
      then run_hosted s others (cloud t.cloud_task) t.max_cost_usd l
      else uncalled l (ok (unknown_provider selected))

  unfoldable pub run_confirmed : Option Fields → Ledger → Ran
  run_confirmed (some confirm) l = uncalled l (ok confirm)
  run_confirmed none l = run_selected (selected_provider s t.provider) l

  unfoldable pub run_interactive_browser : Ledger → Ran
  unfolding run_confirmed
  run_interactive_browser l =
      run_confirmed (require_action_confirmation (tier_of t) t.stdin_is_tty t.confirm_irreversible)
        l
