-- ===== src/Tests/Hosting.antt =====
-- Hosted browsers, the environment of a provider, and the cost of a run.
use browser_fetch_router.Prelude.{
  not, ◌&&◌, if◌then◌else◌, ℕ, ◌+◌, ◌≤◌, ◌<◌, ◌≡◌, ◌≢◌, refl, true, false, Option, none, some, List,
  [], ◌∷◌, All, any, all, keep, arith,
}
use browser_fetch_router.Prelude.Text.{Text, codes, text_eq, one_of, strip, lstrip_by, rstrip_by}
use browser_fetch_router.Prelude.Dict.{get, put}
use browser_fetch_router.UrlSafety.Result.{ok}
use browser_fetch_router.Json.{
  Json, string, integer, object, Fields, members, fields, as_dict, as_text, lookup, equals_text,
}
use browser_fetch_router.Environment.{Environ, add_keys, with_key, provider_env}
use browser_fetch_router.Environment.Allowed.{IsAllowed, provider_env-IsAllowed}
use browser_fetch_router.Lifecycle.SessionId.{validate_session_id, current_session_id}
use browser_fetch_router.Cost.Ledger.{
  Amount, finite, Ledger, Caps, Request, reserved, session_total, daily_total, is_paid_disabled,
  reserve_transaction, reserve_racing, reserve, has_id, settle,
}
use browser_fetch_router.Cost.Ledger.Steps.{here}
use browser_fetch_router.Cost.Ledger.Bounds.{WithinCaps}
use browser_fetch_router.Interactive.Hosted.{
  Setting, Hosted, provider_result_envelope, hosted_cost_cap, hosted_daily_cost_cap, reported_cost,
  finalize, finish,
}
use browser_fetch_router.Interactive.Runs.{
  tier_c, is_given, classify_action, require_action_confirmation, default_provider, request_of,
  caps_of, on_reply, on_session, on_limits, on_key, run_hosted, browserbase,
}
use browser_fetch_router.Interactive.Dispatch.{
  Task, tier_of, selected_provider, run_selected, run_confirmed, run_interactive_browser,
}
use browser_fetch_router.Interactive.Budget.{AreFair, run_hosted-WithinCaps}
use browser_fetch_router.Interactive.Outcomes.{finish-reserve}
use browser_fetch_router.Interactive.Consent.{
  IsAllowed as IsConsented, run_interactive_browser-IsAllowed,
}

abbrev environ : Environ
environ =
    (codes "HOME", codes "/home/u")
    ∷ (codes "OPENAI_API_KEY", codes "sk-1")
    ∷ (codes "BROWSERBASE_API_KEY", codes "bb-1")
    ∷ (codes "BFR_SESSION_ID", codes "s1")
    ∷ []

abbrev required : List Text
required = codes "BROWSERBASE_API_KEY" ∷ codes "OPENAI_API_KEY" ∷ []

provider_env-IsAllowed_example : All (IsAllowed required environ) (provider_env required environ)
provider_env-IsAllowed_example = provider_env-IsAllowed required environ

-- A result that reports twenty cents.
abbrev result : Fields
result =
    (codes "status", string (codes "ok"))
    ∷ (codes "evidence", object (members ((codes "total_cost_usd", integer false 20) ∷ [])))
    ∷ []

abbrev amount_of : Json → Option Amount
amount_of (integer false n) = some (finite n)
amount_of v = none

abbrev setting : Setting
setting = record {
  environ = environ;
  default_daily_cap = 500;
  read_float = λ raw. none;
  read_decimal = amount_of;
  show_amount = λ a. string [];
  uuid = codes "u";
  audit_id = codes "a1";
  today = codes "2026-01-01";
  now = codes "2026-01-01T00:00:00";
}

abbrev hosted : Hosted
hosted = browserbase (λ key. some result)

abbrev empty : Ledger
empty = record { costs = []; disabled = []; mirror = [] }

abbrev nobody : Ledger → Ledger
nobody l = l

fair : AreFair setting nobody hosted 25 500
fair = record { commits = λ l. here; leave = λ l h. h }

cost_cap : hosted_cost_cap (finite 25) ≡ some 25
unfolding hosted_cost_cap
cost_cap = refl

daily_cap : hosted_daily_cost_cap setting ≡ some 500
unfolding hosted_daily_cost_cap get text_eq codes
daily_cap = refl

empty-WithinCaps : WithinCaps 25 500 empty
unfolding session_total daily_total
empty-WithinCaps = record { sessions = λ sid. omega arith; days = λ day. omega arith }

run_hosted-WithinCaps_example :
    WithinCaps 25 500 (run_hosted setting nobody hosted (finite 25) empty).ledger
run_hosted-WithinCaps_example =
    run_hosted-WithinCaps setting nobody hosted 25 500 fair (finite 25) empty cost_cap daily_cap
      empty-WithinCaps

abbrev caps : Caps
caps = record { request = finite 25; session = finite 25; daily = finite 500 }

abbrev asked : Request
asked = record {
  session_id = codes "s1";
  provider = codes "browserbase";
  amount = finite 25;
  today = codes "2026-01-01";
  audit_id = codes "a1";
  created_at = codes "2026-01-01T00:00:00";
}

asked_granted : (reserve caps asked empty).0 ≡ reserved asked.audit_id
unfolding reserve reserve_racing reserve_transaction session_total daily_total is_paid_disabled any
asked_granted = refl

asked_named : asked.audit_id ≢ []
unfolding codes
asked_named e = cc

finish-reserve_example :
    let booked = (reserve caps asked empty).1 in
    let run = λ (answer : Option Fields).
      finish setting hosted asked.session_id asked.audit_id 25 answer booked in
    ((run none).ledger.costs ≡ [])
    × ((result : Fields) (cost : ℕ)
        → reported_cost setting result ≡ some cost
        → 25 < cost
        → ((run (some result)).ledger.costs ≡ [])
          × (is_paid_disabled asked.session_id (run (some result)).ledger ≡ true))
    × ((result : Fields) (cost : ℕ)
        → reported_cost setting result ≡ some cost
        → cost ≤ 25
        → ((run (some result)).result ≡ ok (provider_result_envelope result))
          × (session_total asked.session_id (run (some result)).ledger.costs
              ≡ session_total asked.session_id [] + cost)
          × (daily_total asked.today (run (some result)).ledger.costs
              ≡ daily_total asked.today [] + cost))
    × ((result : Fields)
        → reported_cost setting result ≡ none
        → ((run (some result)).result ≡ ok (provider_result_envelope result))
          × ((run (some result)).ledger.costs ≡ (
              if equals_text (lookup (codes "status") result) (codes "ok")
                && not hosted.release_unreported_success
              then booked.costs
              else [])))
finish-reserve_example = finish-reserve setting hosted caps asked empty 25 asked_granted asked_named

abbrev task : Task
task = record {
  task = codes "delete my account";
  provider = some (codes "browserbase");
  allow_hosted_browser = true;
  confirm_irreversible = some (codes "a-1");
  max_cost_usd = finite 25;
  stdin_is_tty = false;
  in_tier_c = λ s. true;
  in_tier_b = λ s. false;
  in_tier_a = λ s. false;
  browserbase_task = λ key. some result;
  cloud_task = λ key. none;
}

task_called : (run_interactive_browser setting nobody task empty).called ≡ true
unfolding run_interactive_browser run_confirmed run_selected selected_provider default_provider
    require_action_confirmation is_given classify_action strip lstrip_by rstrip_by one_of text_eq
    codes any all keep run_hosted on_key on_limits on_session on_reply request_of caps_of
    browserbase provider_env add_keys with_key get put hosted_cost_cap hosted_daily_cost_cap
    current_session_id validate_session_id reserve reserve_racing reserve_transaction session_total
    daily_total is_paid_disabled finish finalize reported_cost lookup as_dict as_text equals_text
    fields members settle has_id
task_called = refl

run_interactive_browser-IsAllowed_example :
    IsConsented setting nobody task (selected_provider setting task.provider)
    × (tier_of task ≡ tier_c → is_given task.confirm_irreversible ≡ true)
run_interactive_browser-IsAllowed_example =
    run_interactive_browser-IsAllowed setting nobody task empty task_called
