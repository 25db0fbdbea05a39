-- ===== src/Cost/Ledger/Bounds.antt =====
-- The caps hold whatever the processes commit, and in whatever order.
use browser_fetch_router.Prelude.{
  ℕ, ◌≤◌, inl, inr, Bool, not, List, [], ◌∷◌, arith, ltb, keep, Bool-cases,
}
use browser_fetch_router.Prelude.Text.{Text, text_eq, text_eq_iff}
use browser_fetch_router.Cost.Ledger.{
  Amount, finite, negative, non_finite, CostRow, Ledger, Caps, Request, session_total, daily_total,
  is_paid_disabled, disable_session, reserve_transaction, within_caps, reserve_racing, release,
  set_amount, settle,
}
use browser_fetch_router.Cost.Ledger.Steps.{
  NotAbove, Step, reserving, releasing, settling, disabling, Reach, here, next,
}

-- A selection of the rows counts for no more than all of them.
session_total-keep :
    (p : CostRow → Bool) (sid : Text) (rows : List CostRow)
    → session_total sid (keep p rows) ≤ session_total sid rows
unfolding session_total keep
session_total-keep p sid [] = omega arith
session_total-keep p sid (r ∷ rows) = ground (arith, session_total-keep p sid rows)

daily_total-keep :
    (p : CostRow → Bool) (day : Text) (rows : List CostRow)
    → daily_total day (keep p rows) ≤ daily_total day rows
unfolding daily_total keep
daily_total-keep p day [] = omega arith
daily_total-keep p day (r ∷ rows) = ground (arith, daily_total-keep p day rows)

session_total-set_amount :
    (id : Text) (amount : ℕ) (sid : Text) (rows : List CostRow)
    → NotAbove id amount rows
    → session_total sid (set_amount id amount rows) ≤ session_total sid rows
unfolding session_total set_amount
session_total-set_amount id amount sid [] h = omega arith
session_total-set_amount id amount sid (r ∷ rows) h =
    ground (arith, h.0, session_total-set_amount id amount sid rows h.1)

daily_total-set_amount :
    (id : Text) (amount : ℕ) (day : Text) (rows : List CostRow)
    → NotAbove id amount rows
    → daily_total day (set_amount id amount rows) ≤ daily_total day rows
unfolding daily_total set_amount
daily_total-set_amount id amount day [] h = omega arith
daily_total-set_amount id amount day (r ∷ rows) h =
    ground (arith, h.0, daily_total-set_amount id amount day rows h.1)

pub record WithinCaps (per_session per_day : ℕ) (l : Ledger) : Type 0 where
  pub sessions : (sid : Text) → session_total sid l.costs ≤ per_session
  pub days : (day : Text) → daily_total day l.costs ≤ per_day

module _ (per_session per_day : ℕ) where
  reserve_transaction-WithinCaps :
      (q : Request) (amount : ℕ) (l : Ledger)
      → WithinCaps per_session per_day l
      → WithinCaps per_session per_day (reserve_transaction q amount per_session per_day l).1
  unfolding reserve_transaction session_total daily_total
  reserve_transaction-WithinCaps q amount l w = record {
    sessions = λ sid. ground (arith, text_eq_iff q.session_id sid, w.sessions sid);
    days = λ day. ground (arith, text_eq_iff q.today day, w.days day);
  }

  within_caps-WithinCaps :
      (q : Request) (amount : Amount) (per_request : ℕ) (seen l : Ledger)
      → WithinCaps per_session per_day l
      → WithinCaps per_session per_day
          (within_caps q amount per_request per_session per_day seen l).1
  unfolding within_caps
  within_caps-WithinCaps q (finite amount) per_request seen l w =
      elim (Bool-cases (ltb per_request amount)) [
        | inl e ↦ rw e w
        | inr e ↦ elim (Bool-cases (is_paid_disabled q.session_id seen)) [
          | inl d ↦ rw (e, d) w
          | inr d ↦ rw (e, d) (reserve_transaction-WithinCaps q amount l w)
        ]
      ]
  within_caps-WithinCaps q _ per_request seen l w = w

  release-WithinCaps :
      (handle : Text) (l : Ledger)
      → WithinCaps per_session per_day l
      → WithinCaps per_session per_day (release handle l).1
  unfolding release
  release-WithinCaps [] l w = w
  release-WithinCaps (c ∷ h) l w = record {
    sessions = λ sid. ground (
      arith,
      w.sessions sid,
      session_total-keep (λ (r : CostRow). not (text_eq r.audit_id (c ∷ h))) sid l.costs,
    );
    days = λ day. ground (
      arith,
      w.days day,
      daily_total-keep (λ (r : CostRow). not (text_eq r.audit_id (c ∷ h))) day l.costs,
    );
  }

  settle-WithinCaps :
      (handle : Text) (amount : ℕ) (l : Ledger)
      → NotAbove handle amount l.costs
      → WithinCaps per_session per_day l
      → WithinCaps per_session per_day (settle handle (finite amount) l).1
  unfolding settle
  settle-WithinCaps [] amount l h w = w
  settle-WithinCaps (c ∷ t) amount l h w = record {
    sessions = λ sid.
        ground (arith, w.sessions sid, session_total-set_amount (c ∷ t) amount sid l.costs h);
    days = λ day. ground (arith, w.days day, daily_total-set_amount (c ∷ t) amount day l.costs h);
  }

  disable_session-WithinCaps :
      (sid reason now : Text) (l : Ledger)
      → WithinCaps per_session per_day l
      → WithinCaps per_session per_day (disable_session sid reason now l)
  unfolding disable_session
  disable_session-WithinCaps sid reason now l w = record { sessions = w.sessions; days = w.days }

module _ (per_request : Amount) (per_session per_day : ℕ) where
  abbrev caps : Caps
  caps = record { request = per_request; session = finite per_session; daily = finite per_day }

  reserve_racing-WithinCaps :
      (q : Request) (seen l : Ledger)
      → WithinCaps per_session per_day l
      → WithinCaps per_session per_day (reserve_racing caps q seen l).1
  unfolding reserve_racing
  reserve_racing-WithinCaps q seen l w = go per_request
    where
      go :
          (request : Amount)
          → WithinCaps per_session per_day
              (reserve_racing (record caps { request = request }) q seen l).1
      go (finite n) = within_caps-WithinCaps per_session per_day q q.amount n seen l w
      go negative = w
      go non_finite = w

  Step-WithinCaps :
      {l m : Ledger}
      → Step caps l m
      → WithinCaps per_session per_day l
      → WithinCaps per_session per_day m
  Step-WithinCaps (reserving q seen l) w = reserve_racing-WithinCaps q seen l w
  Step-WithinCaps (releasing h l) w = release-WithinCaps per_session per_day h l w
  Step-WithinCaps (settling h a l ok) w = settle-WithinCaps per_session per_day h a l ok w
  Step-WithinCaps (disabling sid reason now l) w =
      disable_session-WithinCaps per_session per_day sid reason now l w

  -- Whatever processes with these caps commit, in any order and with stale first tests, no total of
  -- a session passes the session cap and no total of a day the daily cap, if that held at the
  -- start and every settlement is at most its reservation.
  pub Reach-WithinCaps :
      {l m : Ledger}
      → WithinCaps per_session per_day l
      → Reach caps l m
      → WithinCaps per_session per_day m
  Reach-WithinCaps w here = w
  Reach-WithinCaps w (next r st) = Step-WithinCaps st (Reach-WithinCaps w r)
