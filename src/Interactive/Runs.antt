-- ===== src/Interactive/Runs.antt =====
-- `_run_browserbase`, `_run_cloud`, `require_action_confirmation` and `run_interactive_browser` of
-- browser_fetch_router/interactive.py. The three lists of patterns are parameters, as tests on a task.
-- While a provider runs, other processes commit to the ledger: `others` is what they do to it.
use browser_fetch_router.Prelude.{ℕ, Bool, true, false, Option, none, some, [], ◌∷◌, if◌then◌else◌}
use browser_fetch_router.Prelude.Text.{Text, codes, text_eq, strip}
use browser_fetch_router.Prelude.Dict.{get}
use browser_fetch_router.UrlSafety.Result.{
  value_error, operational, invalid_session_id, Result, ok, err,
}
use browser_fetch_router.Json.{Json, null, string, array, object, Fields, members, array_of}
use browser_fetch_router.Schema.{envelope, approval_field}
use browser_fetch_router.Environment.{Environ, provider_env}
use browser_fetch_router.Lifecycle.SessionId.{
  Current, session, no_session, invalid_session_id as bad_session, current_session_id,
}
use browser_fetch_router.Cost.Ledger.{
  Amount, finite, Ledger, Caps, Request, Reply, reserved, refused, integrity_error, not_finite,
  is_negative, reserve,
}
use browser_fetch_router.Interactive.Hosted.{
  command, Setting, Hosted, Ran, code_error, cost_cap_exceeded, hosted_cost_cap,
  hosted_daily_cost_cap, finish,
}

-- A run that ends before the provider is called.
abbrev pub uncalled : Ledger → Result Fields → Ran
uncalled l result = record { result = result; ledger = l; called = false }

failure : Text → Json → Fields
failure status error = envelope command status ((codes "error", error) ∷ [])

module _ (s : Setting) (others : Ledger → Ledger) where
  unfoldable pub request_of : Hosted → Text → ℕ → Request
  request_of h session_id cost_cap = record {
    session_id = session_id;
    provider = h.provider;
    amount = finite cost_cap;
    today = s.today;
    audit_id = s.audit_id;
    created_at = s.now;
  }

  unfoldable pub caps_of : ℕ → ℕ → Caps
  caps_of cost_cap daily_cap = record {
    request = finite cost_cap;
    session = finite cost_cap;
    daily = finite daily_cap;
  }

  -- What follows `reserve`.
  unfoldable pub on_reply : Hosted → Text → Text → ℕ → Reply × Ledger → Ran
  on_reply h api_key session_id cost_cap (reserved handle, l) =
      finish s h session_id handle cost_cap (h.run_task api_key) (others l)
  on_reply h api_key session_id cost_cap (refused, l) = uncalled l (
      ok (
        cost_cap_exceeded h.provider session_id (s.show_amount (finite cost_cap))
          (codes "paid_session_disabled_or_cap_exceeded") []))
  on_reply h api_key session_id cost_cap (integrity_error, l) = uncalled l (err operational)
  on_reply h api_key session_id cost_cap (not_finite label, l) = uncalled l (err value_error)
  on_reply h api_key session_id cost_cap (is_negative label, l) = uncalled l (err value_error)

  unfoldable pub on_session : Hosted → Text → ℕ → ℕ → Current → Ledger → Ran
  unfolding on_reply request_of caps_of
  on_session h api_key cost_cap daily_cap (session session_id is_new) l =
      on_reply h api_key session_id cost_cap
        (reserve (caps_of cost_cap daily_cap) (request_of h session_id cost_cap) l)
  on_session h api_key cost_cap daily_cap bad_session l = uncalled l (err invalid_session_id)
  on_session h api_key cost_cap daily_cap no_session l = uncalled l (err invalid_session_id)

  unfoldable pub on_limits : Hosted → Text → Amount → Option ℕ → Option ℕ → Ledger → Ran
  unfolding on_session failure
  on_limits h api_key max_cost none daily l = uncalled l (
      ok (
        failure (codes "usage_error") (
          object (
            members (
              (codes "code", string (codes "invalid_max_cost_usd"))
              ∷ (codes "value", s.show_amount max_cost)
              ∷ [])))))
  on_limits h api_key max_cost (some cost_cap) none l = uncalled l (
      ok (
        failure (codes "usage_error") (
          object (
            members (
              (codes "code", string (codes "invalid_daily_cost_cap"))
              ∷ (codes "env", string (codes "BFR_HOSTED_BROWSER_DAILY_COST_CAP_USD"))
              ∷ [])))))
  on_limits h api_key max_cost (some cost_cap) (some daily_cap) l =
      on_session h api_key cost_cap daily_cap
        (current_session_id false (get (codes "BFR_SESSION_ID") s.environ) s.uuid) l

  unfoldable pub on_key : Hosted → Amount → Option Text → Ledger → Ran
  unfolding on_limits failure
  on_key h max_cost none l =
      uncalled l (ok (failure (codes "quota_or_key_missing") (code_error h.missing_code)))
  on_key h max_cost (some []) l =
      uncalled l (ok (failure (codes "quota_or_key_missing") (code_error h.missing_code)))
  on_key h max_cost (some (c ∷ key)) l =
      on_limits h (c ∷ key) max_cost (hosted_cost_cap max_cost) (hosted_daily_cost_cap s) l

  -- `_run_browserbase` and `_run_cloud` on their providers.
  unfoldable pub run_hosted : Hosted → Amount → Ledger → Ran
  unfolding on_key
  run_hosted h max_cost l = on_key h max_cost (get h.key (provider_env (h.key ∷ []) s.environ)) l

unfoldable pub browserbase : (Text → Option Fields) → Hosted
browserbase run_task = record {
  provider = codes "browserbase";
  key = codes "BROWSERBASE_API_KEY";
  missing_code = codes "browserbase_credentials_missing";
  exception_code = codes "browserbase_exception";
  release_unreported_success = false;
  run_task = run_task;
}

unfoldable pub cloud : (Text → Option Fields) → Hosted
cloud run_task = record {
  provider = codes "browser-use-cloud";
  key = codes "BROWSER_USE_API_KEY";
  missing_code = codes "browser_use_cloud_key_missing";
  exception_code = codes "browser_use_cloud_exception";
  release_unreported_success = true;
  run_task = run_task;
}

pub data Tier : Type 0 where
  tier_a tier_b tier_c : Tier

-- The most dangerous tier wins, and a task that fits none is of the most dangerous one.
unfoldable pub classify_action : (Text → Bool) → (Text → Bool) → (Text → Bool) → Text → Tier
classify_action in_c in_b in_a task =
    if text_eq (strip task) []
    then tier_c
    else if in_c task
    then tier_c
    else if in_b task
    then tier_b
    else if in_a task
    then tier_a
    else tier_c

confirmation_needed : Bool → Fields
confirmation_needed stdin_is_tty = envelope command (codes "approval_required") (
    (
      codes "error",
      object (
          members (
            (
              codes "code",
              string (
                  if stdin_is_tty
                  then codes "tier_c_requires_confirmation"
                  else codes "tier_c_noninteractive"),
            )
            ∷ (
              codes "requires",
              array (array_of (string (codes "--confirm-irreversible <action-id>") ∷ [])),
            )
            ∷ (
              codes "message",
              string (
                  if stdin_is_tty
                  then codes "Tier C action requires explicit confirmation"
                  else codes
                      "Tier C action attempted with no TTY; pass --confirm-irreversible to authorize"),
            )
            ∷ [])),
    )
    ∷ (codes "approval", approval_field true null)
    ∷ [])

unfoldable pub is_given : Option Text → Bool
is_given none = false
is_given (some []) = false
is_given (some (c ∷ s)) = true

-- `none` is that the task may proceed.
unfoldable pub require_action_confirmation : Tier → Bool → Option Text → Option Fields
unfolding confirmation_needed is_given
require_action_confirmation tier_a stdin_is_tty confirmation = none
require_action_confirmation tier_b stdin_is_tty confirmation = none
require_action_confirmation tier_c stdin_is_tty confirmation =
    if is_given confirmation then none else some (confirmation_needed stdin_is_tty)

-- `key in os.environ`.
has_key : Text → Environ → Bool
has_key key environ = elim (get key environ) [ none ↦ false | some value ↦ true ]

unfoldable pub default_provider : Environ → Text
unfolding has_key
default_provider environ =
    if has_key (codes "BROWSER_USE_API_KEY") environ
    then codes "cloud"
    else if has_key (codes "BROWSERBASE_API_KEY") environ
    then codes "browserbase"
    else codes "cloud"
