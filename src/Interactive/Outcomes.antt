-- ===== src/Interactive/Outcomes.antt =====
-- What becomes of a reservation, branch by branch.
use browser_fetch_router.Prelude.{
  ℕ, ◌+◌, ◌≤◌, ◌<◌, ◌≡◌, ◌≢◌, refl, ◌∙◌, Bool, true, false, not, ◌&&◌, if◌then◌else◌, Option, none,
  some, [], any, lt→ltb, le→not_ltb,
}
use browser_fetch_router.Prelude.Text.{Text, codes, text_eq_refl}
use browser_fetch_router.UrlSafety.Result.{ok}
use browser_fetch_router.Json.{Fields, lookup, equals_text}
use browser_fetch_router.Cost.Ledger.{
  finite, Ledger, Caps, Request, reserved, session_total, daily_total, is_paid_disabled,
  disable_session, reserve, release, settle,
}
use browser_fetch_router.Cost.Ledger.Rows.{release-reserve, settle-reserve}
use browser_fetch_router.Interactive.Hosted.{
  Setting, Hosted, Ran, provider_result_envelope, reported_cost, settled, overrun, unreported,
  finalize, finish,
}

disable_session-costs :
    (sid reason now : Text) (l : Ledger) → (disable_session sid reason now l).costs ≡ l.costs
unfolding disable_session
disable_session-costs sid reason now l = refl

disable_session-disabled :
    (sid reason now : Text) (l : Ledger)
    → is_paid_disabled sid (disable_session sid reason now l) ≡ true
unfolding disable_session is_paid_disabled any
disable_session-disabled sid reason now l = rw (text_eq_refl sid) refl

settled_kept :
    (s : Setting) (h : Hosted) (session_id handle : Text) (cap : ℕ) (result : Fields)
    (p : Bool × Ledger)
    → p.0 ≡ true
    → settled s h session_id handle cap result p
      ≡ record { result = ok (provider_result_envelope result); ledger = p.1; called = true }
unfolding settled
settled_kept s h session_id handle cap result (true, m) e = refl
settled_kept s h session_id handle cap result (false, m) e = absurd (cc)

module _ (s : Setting) (h : Hosted) (caps : Caps) (q : Request) (l : Ledger) (cap : ℕ) where
  abbrev booked : Ledger
  booked = (reserve caps q l).1

  abbrev run : Option Fields → Ran
  run answer = finish s h q.session_id q.audit_id cap answer booked

  silent :
      (success releases : Bool)
      → (release q.audit_id booked).1.costs ≡ l.costs
      → (if (if success then releases else true)
          then (release q.audit_id booked).1
          else booked).costs
        ≡ (if success && not releases then booked.costs else l.costs)
  silent false releases e = e
  silent true true e = e
  silent true false e = refl

  -- Behind a reservation that was granted: an exception of the provider puts the rows of the ledger
  -- back; a result that reports more than the cap does so too, and disables the session; and a result
  -- that reports at most the cap is passed on and adds what it reports to the totals of the session and
  -- of the day. A result that reports no cost is passed on; its reservation stays if it is a success of a
  -- provider whose unreported successes are not released, and the rows are put back if it is not.
  pub finish-reserve :
      (reserve caps q l).0 ≡ reserved q.audit_id
      → q.audit_id ≢ []
      → ((run none).ledger.costs ≡ l.costs)
        × ((result : Fields) (cost : ℕ)
            → reported_cost s result ≡ some cost
            → cap < cost
            → ((run (some result)).ledger.costs ≡ l.costs)
              × (is_paid_disabled q.session_id (run (some result)).ledger ≡ true))
        × ((result : Fields) (cost : ℕ)
            → reported_cost s result ≡ some cost
            → cost ≤ cap
            → ((run (some result)).result ≡ ok (provider_result_envelope result))
              × (session_total q.session_id (run (some result)).ledger.costs
                  ≡ session_total q.session_id l.costs + cost)
              × (daily_total q.today (run (some result)).ledger.costs
                  ≡ daily_total q.today l.costs + cost))
        × ((result : Fields)
            → reported_cost s result ≡ none
            → ((run (some result)).result ≡ ok (provider_result_envelope result))
              × ((run (some result)).ledger.costs ≡ (
                  if equals_text (lookup (codes "status") result) (codes "ok")
                    && not h.release_unreported_success
                  then booked.costs
                  else l.costs)))
  unfolding finish finalize overrun unreported
  finish-reserve granted named =
      let back = release-reserve caps q l granted named in
      (
        back.1,
        λ result cost e over.
            rw (e, finalize, lt→ltb cap cost over)
              (
                disable_session-costs q.session_id (codes "provider_overrun") s.now
                      (release q.audit_id booked).1
                    ∙ back.1,
                disable_session-disabled q.session_id (codes "provider_overrun") s.now
                    (release q.audit_id booked).1,
              ),
        λ result cost e fits.
            let paid = settle-reserve caps q cost l granted named in
            rw (e, finalize, le→not_ltb cap cost fits)
              (rw
                (settled_kept s h q.session_id q.audit_id cap result
                  (settle q.audit_id (finite cost) booked) paid.0)
                (refl, paid.1, paid.2)),
        λ result e.
            rw (e, finalize)
              (
                refl,
                silent (equals_text (lookup (codes "status") result) (codes "ok"))
                    h.release_unreported_success back.1,
              ),
      )
