-- ===== src/Interactive/Consent.antt =====
-- What has to be said before a provider is called.
use browser_fetch_router.Prelude.{◌≡◌, refl, ◌⊎◌, Bool, true, Option, none, some, any, arith}
use browser_fetch_router.Prelude.Text.{Text, codes, one_of, eq_of_text_eq}
use browser_fetch_router.Json.{Fields}
use browser_fetch_router.Cost.Ledger.{Ledger}
use browser_fetch_router.Interactive.Hosted.{Setting}
use browser_fetch_router.Interactive.Runs.{
  Tier, tier_a, tier_b, tier_c, is_given, require_action_confirmation,
}
use browser_fetch_router.Interactive.Dispatch.{
  Task, tier_of, selected_provider, run_selected, run_confirmed, run_interactive_browser,
}

confirmed :
    (tier : Tier) (tty : Bool) (confirmation : Option Text)
    → require_action_confirmation tier tty confirmation ≡ none
    → tier ≡ tier_c
    → is_given confirmation ≡ true
unfolding require_action_confirmation
confirmed tier_a tty confirmation h e = absurd (cc)
confirmed tier_b tty confirmation h e = absurd (cc)
confirmed tier_c tty confirmation h e = ground arith

module _ (s : Setting) (others : Ledger → Ledger) (t : Task) where
  -- The provider is hosted, and its use is allowed.
  abbrev pub IsAllowed : Text → Type 0
  IsAllowed selected =
      (t.allow_hosted_browser ≡ true)
      × ((selected ≡ codes "browserbase") ⊎ (selected ≡ codes "cloud"))

  selected-IsAllowed :
      (selected : Text) (l : Ledger)
      → (run_selected s others t selected l).called ≡ true
      → IsAllowed selected
  unfolding run_selected one_of any
  selected-IsAllowed selected l h =
      ground (
        arith,
        eq_of_text_eq selected (codes "browserbase"),
        eq_of_text_eq selected (codes "cloud"),
      )

  confirmed-IsAllowed :
      (confirm : Option Fields) (l : Ledger)
      → (run_confirmed s others t confirm l).called ≡ true
      → (confirm ≡ none) × IsAllowed (selected_provider s t.provider)
  unfolding run_confirmed
  confirmed-IsAllowed none l h = (refl, selected-IsAllowed (selected_provider s t.provider) l h)
  confirmed-IsAllowed (some confirm) l h = absurd (cc)

  -- If the run of a task calls a provider, hosted browsers were allowed, the provider is one of the two
  -- hosted ones, and a task of the irreversible tier was confirmed.
  pub run_interactive_browser-IsAllowed :
      (l : Ledger)
      → (run_interactive_browser s others t l).called ≡ true
      → IsAllowed (selected_provider s t.provider)
        × (tier_of t ≡ tier_c → is_given t.confirm_irreversible ≡ true)
  unfolding run_interactive_browser
  run_interactive_browser-IsAllowed l h =
      let both = confirmed-IsAllowed _ l h in
      (both.1, confirmed (tier_of t) t.stdin_is_tty t.confirm_irreversible both.0)
