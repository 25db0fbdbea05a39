-- ===== src/Statuses.antt =====
-- browser_fetch_router/status.py, and the last step of browser_fetch_router/cli.py that turns the
-- status of a payload into the exit code of the process.
use browser_fetch_router.Prelude.{ℕ, Option, none, some, List, [], ◌∷◌}
use browser_fetch_router.Prelude.Text.{Text, codes}
use browser_fetch_router.Prelude.Dict.{get}
use browser_fetch_router.Json.{as_text, Fields, lookup}

abbrev pub internal_error_code : ℕ
internal_error_code = 70

abbrev pub status_exit_codes : List (Text × ℕ)
status_exit_codes =
    (codes "ok", 0)
    ∷ (codes "blocked", 1)
    ∷ (codes "private_or_deleted", 1)
    ∷ (codes "blocked_needs_browser", 1)
    ∷ (codes "auth_required", 1)
    ∷ (codes "paywalled", 1)
    ∷ (codes "insufficient_content", 1)
    ∷ (codes "provider_unavailable", 1)
    ∷ (codes "captcha_required", 1)
    ∷ (codes "tool_setup_failed", 3)
    ∷ (codes "quota_or_key_missing", 3)
    ∷ (codes "unsafe_url_blocked", 4)
    ∷ (codes "approval_required", 2)
    ∷ (codes "approval_denied", 2)
    ∷ (codes "cost_cap_exceeded", 5)
    ∷ (codes "rate_limited", 5)
    ∷ (codes "usage_error", 64)
    ∷ (codes "internal_error", internal_error_code)
    ∷ (codes "interrupted", 130)
    ∷ []

exit_code_of : Option ℕ → ℕ
exit_code_of none = internal_error_code
exit_code_of (some code) = code

-- A status that is not in the table, or that is no text, has the code of an internal error.
unfoldable pub exit_code_for_payload : Fields → ℕ
unfolding exit_code_of
exit_code_for_payload payload = elim (as_text (lookup (codes "status") payload)) [
  | none ↦ internal_error_code
  | some status ↦ exit_code_of (get status status_exit_codes)
]
