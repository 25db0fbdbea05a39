-- ===== src/Cost/Ledger.antt =====
-- `CostLedger` of browser_fetch_router/cost.py: the tables `costs` and `paid_disabled_sessions`, and
-- the mirror log. A float is exact: a natural number of some small unit, or one of the two kinds
-- that the guards turn away. Ids and times are arguments: uuid4 and the clock choose them.
pub mod Steps
pub mod Bounds
pub mod Lockout
pub mod Rows
use browser_fetch_router.Prelude.{
  ℕ, ◌+◌, Bool, true, false, not, List, [], ◌∷◌, ◌++◌, ltb, any, keep, if◌then◌else◌,
}
use browser_fetch_router.Prelude.Text.{Text, codes, text_eq}

pub data Amount : Type 0 where
  finite : ℕ → Amount
  negative non_finite : Amount

pub record CostRow : Type 0 where
  pub audit_id : Text
  pub session_id : Text
  pub day : Text
  pub provider : Text
  pub amount : ℕ
  pub created_at : Text

pub record DisabledRow : Type 0 where
  pub session_id : Text
  pub reason : Text
  pub created_at : Text

-- The events that `_mirror` appends to the log.
pub data Event : Type 0 where
  reserve_event : CostRow → Event
  release_event : Text → Event
  settle_event : Text → ℕ → Event
  paid_disabled_event : Text → Text → Event

pub record Ledger : Type 0 where
  pub costs : List CostRow
  pub disabled : List DisabledRow
  pub mirror : List Event

-- What `reserve` raises or returns.
pub data CapLabel : Type 0 where
  request_cap session_cap daily_cap : CapLabel

pub data Reply : Type 0 where
  not_finite : CapLabel → Reply
  is_negative : CapLabel → Reply
  integrity_error : Reply
  refused : Reply
  reserved : Text → Reply

pub record Caps : Type 0 where
  pub request : Amount
  pub session : Amount
  pub daily : Amount

pub record Request : Type 0 where
  pub session_id : Text
  pub provider : Text
  pub amount : Amount
  pub today : Text
  pub audit_id : Text
  pub created_at : Text

-- SELECT COALESCE(SUM(estimated_cost_usd), 0) FROM costs WHERE session_id = ?
unfoldable pub session_total : Text → List CostRow → ℕ
session_total sid [] = 0
session_total sid (r ∷ rows) =
    let rest = session_total sid rows in if text_eq r.session_id sid then r.amount + rest else rest

unfoldable pub daily_total : Text → List CostRow → ℕ
daily_total today [] = 0
daily_total today (r ∷ rows) =
    let rest = daily_total today rows in if text_eq r.day today then r.amount + rest else rest

-- SELECT 1 FROM paid_disabled_sessions WHERE session_id = ? LIMIT 1
unfoldable pub is_paid_disabled : Text → Ledger → Bool
unfolding any
is_paid_disabled sid l = any (λ (r : DisabledRow). text_eq r.session_id sid) l.disabled

mirrored : Event → Ledger → Ledger
mirrored e l = record l { mirror = l.mirror ++ (e ∷ []) }

-- INSERT OR REPLACE INTO paid_disabled_sessions.
insert_disabled : Text → Text → Text → List DisabledRow → List DisabledRow
unfolding keep
insert_disabled sid reason now rows =
    record { session_id = sid; reason = reason; created_at = now }
    ∷ keep (λ (r : DisabledRow). not (text_eq r.session_id sid)) rows

unfoldable pub disable_session : Text → Text → Text → Ledger → Ledger
unfolding insert_disabled mirrored
disable_session sid reason now l =
    mirrored (paid_disabled_event sid reason)
      (record l { disabled = insert_disabled sid reason now l.disabled })

-- The transaction of `reserve`, for an amount and caps that passed the guards. The primary key
-- refuses an id that is taken, and the connection then closes on an open transaction.
unfoldable pub reserve_transaction : Request → ℕ → ℕ → ℕ → Ledger → Reply × Ledger
unfolding is_paid_disabled insert_disabled mirrored
reserve_transaction q amount per_session per_day l =
    if is_paid_disabled q.session_id l
    then (refused, l)
    else if ltb per_session (session_total q.session_id l.costs + amount)
    then (
      refused,
      record l {
        disabled =
            insert_disabled q.session_id (codes "session_cap_exceeded") q.created_at l.disabled;
      },
    )
    else if ltb per_day (daily_total q.today l.costs + amount)
    then (refused, l)
    else if any (λ (r : CostRow). text_eq r.audit_id q.audit_id) l.costs
    then (integrity_error, l)
    else (reserved q.audit_id, mirrored (reserve_event row) (record l { costs = row ∷ l.costs }))
  where
    row : CostRow
    row = record {
      audit_id = q.audit_id;
      session_id = q.session_id;
      day = q.today;
      provider = q.provider;
      amount = amount;
      created_at = q.created_at;
    }

-- `reserve` behind the tests on the caps. The test outside the transaction reads the ledger as it
-- is then; `later` is the ledger that the transaction finds, after what others committed.
within_caps : Request → Amount → ℕ → ℕ → ℕ → Ledger → Ledger → Reply × Ledger
within_caps q (finite amount) per_request per_session per_day l later =
    if ltb per_request amount
    then (refused, later)
    else if is_paid_disabled q.session_id l
    then (refused, later)
    else reserve_transaction q amount per_session per_day later
within_caps q negative per_request per_session per_day l later = (refused, later)
within_caps q non_finite per_request per_session per_day l later = (refused, later)

check_caps : Amount → Amount → Amount → (ℕ → ℕ → ℕ → Reply × Ledger) → Ledger → Reply × Ledger
check_caps (finite a) (finite b) (finite c) next l = next a b c
check_caps (finite a) (finite b) negative next l = (is_negative daily_cap, l)
check_caps (finite a) (finite b) non_finite next l = (not_finite daily_cap, l)
check_caps (finite a) negative _ next l = (is_negative session_cap, l)
check_caps (finite a) non_finite _ next l = (not_finite session_cap, l)
check_caps negative _ _ next l = (is_negative request_cap, l)
check_caps non_finite _ _ next l = (not_finite request_cap, l)

unfoldable pub reserve_racing : Caps → Request → Ledger → Ledger → Reply × Ledger
unfolding within_caps check_caps
reserve_racing caps q l later =
    check_caps caps.request caps.session caps.daily
      (λ request session daily. within_caps q q.amount request session daily l later) later

-- With no other process between the two tests.
unfoldable pub reserve : Caps → Request → Ledger → Reply × Ledger
unfolding reserve_racing
reserve caps q l = reserve_racing caps q l l

unfoldable pub has_id : Text → List CostRow → Bool
unfolding any
has_id id rows = any (λ (r : CostRow). text_eq r.audit_id id) rows

-- DELETE FROM costs WHERE audit_id = ?; the result is `rowcount > 0`.
unfoldable pub release : Text → Ledger → Bool × Ledger
unfolding has_id mirrored keep
release [] l = (false, l)
release (c ∷ h) l =
    let handle : Text = c ∷ h in
    let costs = keep (λ (r : CostRow). not (text_eq r.audit_id handle)) l.costs in
    if has_id handle l.costs
    then (true, mirrored (release_event handle) (record l { costs = costs }))
    else (false, l)

set_amount : Text → ℕ → List CostRow → List CostRow
set_amount id amount [] = []
set_amount id amount (r ∷ rows) =
    (if text_eq r.audit_id id then record r { amount = amount } else r) ∷ set_amount id amount rows

-- UPDATE costs SET estimated_cost_usd = ? WHERE audit_id = ?.
unfoldable pub settle : Text → Amount → Ledger → Bool × Ledger
unfolding has_id set_amount mirrored
settle [] amount l = (false, l)
settle (c ∷ h) negative l = (false, l)
settle (c ∷ h) non_finite l = (false, l)
settle (c ∷ h) (finite amount) l =
    let handle : Text = c ∷ h in
    if has_id handle l.costs
    then (
      true,
      mirrored (settle_event handle amount) (record l { costs = set_amount handle amount l.costs }),
    )
    else (false, l)
