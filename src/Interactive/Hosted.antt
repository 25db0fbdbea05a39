-- ===== src/Interactive/Hosted.antt =====
-- A run on a hosted browser: the limits, the reservation and what becomes of it, of `_hosted_limits`,
-- `_reserve_hosted_or_error`, `_finalize_hosted_result`, `_finalize_hosted_failure`, `_run_browserbase` and
-- `_run_cloud` of browser_fetch_router/interactive.py. The provider's `run_task` is a parameter, and so
-- are `float` of a text and `Decimal(str(v))` of a value. Amounts are exact.
use browser_fetch_router.Prelude.{
  ℕ, Bool, true, false, ltb, Option, none, some, [], ◌∷◌, if◌then◌else◌,
}
use browser_fetch_router.Prelude.Text.{Text, codes}
use browser_fetch_router.Prelude.Dict.{get}
use browser_fetch_router.UrlSafety.Result.{Result, ok}
use browser_fetch_router.Json.{
  Json, null, string, object, Fields, members, as_dict, equals_text, lookup, update,
}
use browser_fetch_router.Schema.{envelope, envelope_of}
use browser_fetch_router.Environment.{Environ}
use browser_fetch_router.Cost.Ledger.{
  Amount, finite, negative, non_finite, Ledger, disable_session, release, settle,
}

abbrev pub command : Text
command = codes "interactive-browser"

-- What a run finds: the environment, the default of the daily cap in the unit of amounts, the parsers
-- and the printer of amounts, and the ids and times that it will draw.
pub record Setting : Type 0 where
  pub environ : Environ
  pub default_daily_cap : ℕ
  pub read_float : Text → Option Amount
  pub read_decimal : Json → Option Amount
  pub show_amount : Amount → Json
  pub uuid : Text
  pub audit_id : Text
  pub today : Text
  pub now : Text

-- A hosted provider: its names, its key, the code of its exception, whether a success that reports no
-- cost releases the reservation, and what it answers. `none` is an exception.
pub record Hosted : Type 0 where
  pub provider : Text
  pub key : Text
  pub missing_code : Text
  pub exception_code : Text
  pub release_unreported_success : Bool
  pub run_task : Text → Option Fields

-- What a run leaves: its payload, the ledger, and whether the provider was called.
pub record Ran : Type 0 where
  pub result : Result Fields
  pub ledger : Ledger
  pub called : Bool

unfoldable pub code_error : Text → Json
code_error code = object (members ((codes "code", string code) ∷ []))

-- `_cost_cap_exceeded`.
unfoldable pub cost_cap_exceeded : Text → Text → Json → Text → Fields → Fields
unfolding members
cost_cap_exceeded provider session_id max_cost reason more =
    envelope command (codes "cost_cap_exceeded") (
      (codes "provider", string provider)
      ∷ (
        codes "error",
        object (
            members (
              (codes "code", string (codes "cost_cap_exceeded"))
              ∷ (
                codes "message",
                string (
                    codes
                      "Hosted browser cost cap reached; paid calls are disabled for this session."),
              )
              ∷ [])),
      )
      ∷ (
        codes "evidence",
        object (
            members (
              update
                ((codes "provider", string provider)
                  ∷ (codes "session_id", string session_id)
                  ∷ (codes "max_cost_usd", max_cost)
                  ∷ (codes "reason", string reason)
                  ∷ [])
                more)),
      )
      ∷ [])

-- `result.get("status", "provider_unavailable")`.
status_or_unavailable : Option Json → Json
status_or_unavailable none = string (codes "provider_unavailable")
status_or_unavailable (some v) = v

unfoldable pub provider_result_envelope : Fields → Fields
unfolding status_or_unavailable
provider_result_envelope result =
    envelope_of command (status_or_unavailable (get (codes "status") result)) (
      (codes "route", string command)
      ∷ (codes "provider", lookup (codes "provider") result)
      ∷ (codes "content_markdown", lookup (codes "content_markdown") result)
      ∷ (codes "evidence", lookup (codes "evidence") result)
      ∷ (codes "error", lookup (codes "error") result)
      ∷ [])

-- `_hosted_cost_cap`.
unfoldable pub hosted_cost_cap : Amount → Option ℕ
hosted_cost_cap (finite n) = some n
hosted_cost_cap negative = none
hosted_cost_cap non_finite = none

cap_of : Option Amount → Option ℕ
cap_of none = none
cap_of (some a) = hosted_cost_cap a

-- A positive amount or zero of the evidence.
finite_of : Option Amount → Option ℕ
finite_of none = none
finite_of (some (finite n)) = some n
finite_of (some negative) = none
finite_of (some non_finite) = none

module _ (s : Setting) where
  -- `_hosted_daily_cost_cap`.
  unfoldable pub hosted_daily_cost_cap : Option ℕ
  unfolding cap_of
  hosted_daily_cost_cap = elim (get (codes "BFR_HOSTED_BROWSER_DAILY_COST_CAP_USD") s.environ) [
    | none ↦ some s.default_daily_cap
    | some [] ↦ some s.default_daily_cap
    | some (c ∷ raw) ↦ cap_of (s.read_float (c ∷ raw))
  ]

  -- `_reported_cost` of the evidence of a result.
  unfoldable pub reported_cost : Fields → Option ℕ
  unfolding finite_of
  reported_cost result = elim (as_dict (lookup (codes "evidence") result)) [
    | none ↦ none
    | some evidence ↦ elim (lookup (codes "total_cost_usd") evidence) [
      | null ↦ none
      | raw ↦ finite_of (s.read_decimal raw)
    ]
  ]

  module _ (h : Hosted) (session_id handle : Text) (cost_cap : ℕ) where
    unfoldable pub capped : Text → Fields → Fields
    capped reason more =
        cost_cap_exceeded h.provider session_id (s.show_amount (finite cost_cap)) reason more

    -- `_record_reported_hosted_cost`, and the result where it gives no error.
    unfoldable pub settled : Fields → Bool × Ledger → Ran
    unfolding capped
    settled result (true, l) = record {
      result = ok (provider_result_envelope result);
      ledger = l;
      called = true;
    }
    settled result (false, l) = record {
      result = ok (capped (codes "cost_record_failed") []);
      ledger = disable_session session_id (codes "cost_record_failed") s.now l;
      called = true;
    }

    unfoldable pub unreported : Fields → Bool → Ledger → Ran
    unreported result releases l = record {
      result = ok (provider_result_envelope result);
      ledger = if releases then (release handle l).1 else l;
      called = true;
    }

    unfoldable pub overrun : Fields → ℕ → Ledger → Ran
    unfolding capped
    overrun result cost l = record {
      result = ok (
          capped (codes "provider_reported_overrun") (
            (codes "reported_total_cost_usd", s.show_amount (finite cost))
            ∷ (codes "provider_evidence", lookup (codes "evidence") result)
            ∷ []));
      ledger = disable_session session_id (codes "provider_overrun") s.now (release handle l).1;
      called = true;
    }

    -- `_finalize_hosted_result`, with `_finalize_hosted_failure`: a failure that reports no cost always
    -- releases.
    unfoldable pub finalize : Fields → Option ℕ → Ledger → Ran
    unfolding settled unreported overrun
    finalize result none l =
        unreported result
          (if equals_text (lookup (codes "status") result) (codes "ok")
            then h.release_unreported_success
            else true)
          l
    finalize result (some cost) l =
        if ltb cost_cap cost
        then overrun result cost l
        else settled result (settle handle (finite cost) l)

    unfoldable pub exception_result : Fields
    exception_result =
        (codes "status", string (codes "provider_unavailable"))
        ∷ (codes "provider", string h.provider)
        ∷ (codes "error", code_error h.exception_code)
        ∷ (
          codes "evidence",
          object (
              members (
                (codes "provider", string h.provider)
                ∷ (codes "session_id", string session_id)
                ∷ (codes "reason", string (codes "provider_exception"))
                ∷ [])),
        )
        ∷ []

    -- What follows the call of the provider.
    unfoldable pub finish : Option Fields → Ledger → Ran
    unfolding exception_result
    finish none l = record {
      result = ok (provider_result_envelope exception_result);
      ledger = (release handle l).1;
      called = true;
    }
    finish (some result) l = finalize result (reported_cost result) l
