-- ===== src/Interactive/Budget.antt =====
-- A run on a hosted browser stays within the caps, whatever other processes commit meanwhile.
use browser_fetch_router.Prelude.{ℕ, ◌≡◌, refl, ap, ◌∙◌, Option, none, some, [], ◌∷◌}
use browser_fetch_router.Prelude.Text.{Text}
use browser_fetch_router.Lifecycle.SessionId.{Current, session, no_session, invalid_session_id}
use browser_fetch_router.Cost.Ledger.{
  Amount, finite, Ledger, Caps, Reply, reserved, refused, integrity_error, not_finite, is_negative,
  reserve,
}
use browser_fetch_router.Cost.Ledger.Steps.{NotAbove, reserving, Reach, here, next}
use browser_fetch_router.Cost.Ledger.Bounds.{WithinCaps, Reach-WithinCaps}
use browser_fetch_router.Cost.Ledger.Rows.{reserve-handle}
use browser_fetch_router.Interactive.Hosted.{
  Setting, Hosted, hosted_cost_cap, hosted_daily_cost_cap,
}
use browser_fetch_router.Interactive.Runs.{
  request_of, caps_of, on_reply, on_session, on_limits, on_key, run_hosted,
}
use browser_fetch_router.Interactive.Spending.{reserved-NotAbove, Reach-trans, finish-Reach}

module _ (s : Setting) (others : Ledger → Ledger) (h : Hosted) (n d : ℕ) where
  abbrev caps : Caps
  caps = caps_of s others n d

  -- What is assumed of other processes: they commit operations under the same caps, and they do not
  -- lower the row of this run's reservation.
  pub record AreFair : Type 0 where
    pub commits : (l : Ledger) → Reach (caps_of s others n d) l (others l)
    pub leave :
        (l : Ledger) → NotAbove s.audit_id n l.costs → NotAbove s.audit_id n (others l).costs

  module _ (fair : AreFair) where
    reserve_step :
        (session_id : Text) (l : Ledger)
        → Reach caps l (reserve caps (request_of s others h session_id n) l).1
    unfolding reserve
    reserve_step session_id l = next here (reserving (request_of s others h session_id n) l l)

    granted_run :
        (api_key session_id handle : Text) (l m : Ledger)
        → reserve caps (request_of s others h session_id n) l ≡ (reserved handle, m)
        → Reach caps l m
        → Reach caps l (on_reply s others h api_key session_id n (reserved handle, m)).ledger
    unfolding on_reply caps_of request_of
    granted_run api_key session_id handle l m e r =
        let q = request_of s others h session_id n in
        let first : (reserve caps q l).0 ≡ reserved handle = ap (λ (p : Reply × Ledger). p.0) e in
        let same : handle ≡ s.audit_id = reserve-handle n n d q l handle first in
        let kept : NotAbove s.audit_id n m.costs =
          rw (← ap (λ (p : Reply × Ledger). p.1) e)
            (reserved-NotAbove caps q n l refl (first ∙ ap reserved same)) in
        Reach-trans caps (Reach-trans caps r (fair.commits m)) (
          finish-Reach s h caps session_id handle n (h.run_task api_key) (others m)
            (rw same (fair.leave m kept)))

    reply_run :
        (api_key session_id : Text) (l : Ledger) (reply : Reply × Ledger)
        → reserve caps (request_of s others h session_id n) l ≡ reply
        → Reach caps l reply.1
        → Reach caps l (on_reply s others h api_key session_id n reply).ledger
    unfolding on_reply
    reply_run api_key session_id l (reserved handle, m) e r =
        granted_run api_key session_id handle l m e r
    reply_run api_key session_id l (refused, m) e r = r
    reply_run api_key session_id l (integrity_error, m) e r = r
    reply_run api_key session_id l (not_finite label, m) e r = r
    reply_run api_key session_id l (is_negative label, m) e r = r

    session_run :
        (api_key : Text) (current : Current) (l : Ledger)
        → Reach caps l (on_session s others h api_key n d current l).ledger
    unfolding on_session
    session_run api_key (session session_id is_new) l =
        reply_run api_key session_id l _ refl (reserve_step session_id l)
    session_run api_key invalid_session_id l = here
    session_run api_key no_session l = here

    limits_run :
        (api_key : Text) (max_cost : Amount) (l : Ledger)
        → Reach caps l (on_limits s others h api_key max_cost (some n) (some d) l).ledger
    unfolding on_limits
    limits_run api_key max_cost l = session_run api_key _ l

    key_run :
        (max_cost : Amount) (key : Option Text) (l : Ledger)
        → hosted_cost_cap max_cost ≡ some n
        → hosted_daily_cost_cap s ≡ some d
        → Reach caps l (on_key s others h max_cost key l).ledger
    unfolding on_key
    key_run max_cost none l e f = here
    key_run max_cost (some []) l e f = here
    key_run max_cost (some (c ∷ key)) l e f = rw (e, f) (limits_run (c ∷ key) max_cost l)

    -- If the session and daily totals are within the caps before a run on a hosted browser, they are
    -- within them behind it, whatever the provider answers or reports, also where other processes
    -- commit operations under the same caps while it runs and leave the row of its reservation.
    pub run_hosted-WithinCaps :
        (max_cost : Amount) (l : Ledger)
        → hosted_cost_cap max_cost ≡ some n
        → hosted_daily_cost_cap s ≡ some d
        → WithinCaps n d l
        → WithinCaps n d (run_hosted s others h max_cost l).ledger
    unfolding run_hosted caps_of
    run_hosted-WithinCaps max_cost l e f w =
        Reach-WithinCaps (finite n) n d w (key_run max_cost _ l e f)
