-- ===== src/Cost/Ledger/Rows.antt =====
-- What a reservation leaves behind after it is released or settled.
use browser_fetch_router.Prelude.{
  ℕ, ◌+◌, ◌≡◌, ◌≢◌, refl, inl, inr, true, false, not, List, [], ◌∷◌, arith, keep, ltb, Bool-cases,
}
use browser_fetch_router.Prelude.Text.{Text, text_eq, text_eq_refl, text_eq_iff}
use browser_fetch_router.Cost.Ledger.{
  Amount, finite, CostRow, Ledger, Caps, Request, reserved, session_total, daily_total, has_id,
  reserve_transaction, within_caps, is_paid_disabled, reserve, release, set_amount, settle,
}

abbrev pub row_of : Request → ℕ → CostRow
row_of q amount = record {
  audit_id = q.audit_id;
  session_id = q.session_id;
  day = q.today;
  provider = q.provider;
  amount = amount;
  created_at = q.created_at;
}

keep-other_ids :
    (id : Text) (rows : List CostRow)
    → has_id id rows ≡ false
    → keep (λ (r : CostRow). not (text_eq r.audit_id id)) rows ≡ rows
unfolding keep has_id
keep-other_ids id [] h = refl
keep-other_ids id (r ∷ rows) h = ground (arith, keep-other_ids id rows)

set_amount-other_ids :
    (id : Text) (amount : ℕ) (rows : List CostRow)
    → has_id id rows ≡ false
    → set_amount id amount rows ≡ rows
unfolding set_amount has_id
set_amount-other_ids id amount [] h = refl
set_amount-other_ids id amount (r ∷ rows) h = ground (arith, set_amount-other_ids id amount rows)

-- Both find the row in front, and no other.
release-front :
    (id : Text) (l : Ledger) (r : CostRow) (rows : List CostRow)
    → id ≢ []
    → r.audit_id ≡ id
    → l.costs ≡ r ∷ rows
    → has_id id rows ≡ false
    → ((release id l).0 ≡ true) × ((release id l).1.costs ≡ rows)
unfolding release has_id keep
release-front [] l r rows named e costs fresh = absurd (named refl)
release-front (c ∷ t) l r rows named e costs fresh =
    rw costs (ground (arith, text_eq_iff r.audit_id (c ∷ t), keep-other_ids (c ∷ t) rows fresh))

settle-front :
    (id : Text) (amount : ℕ) (l : Ledger) (r : CostRow) (rows : List CostRow)
    → id ≢ []
    → r.audit_id ≡ id
    → l.costs ≡ r ∷ rows
    → has_id id rows ≡ false
    → let out = settle id (finite amount) l in
      (out.0 ≡ true)
      × (session_total r.session_id out.1.costs ≡ session_total r.session_id rows + amount)
      × (daily_total r.day out.1.costs ≡ daily_total r.day rows + amount)
unfolding settle has_id session_total daily_total
settle-front [] amount l r rows named e costs fresh = absurd (named refl)
settle-front (c ∷ t) amount l r rows named e costs fresh = rw costs (
    ground (
      arith,
      text_eq_iff r.audit_id (c ∷ t),
      text_eq_refl r.session_id,
      text_eq_refl r.day,
      set_amount-other_ids (c ∷ t) amount rows fresh,
    ))

-- What a transaction that grants a reservation did.
pub record Granted (q : Request) (amount : ℕ) (l after : Ledger) : Type 0 where
  pub fits : q.amount ≡ finite amount
  pub costs : after.costs ≡ row_of q amount ∷ l.costs
  pub fresh : has_id q.audit_id l.costs ≡ false

transaction-Granted :
    (q : Request) (amount s d : ℕ) (l : Ledger)
    → q.amount ≡ finite amount
    → (reserve_transaction q amount s d l).0 ≡ reserved q.audit_id
    → Granted q amount l (reserve_transaction q amount s d l).1
unfolding reserve_transaction has_id
transaction-Granted q amount s d l e h = record {
  fits = e;
  costs = ground arith;
  fresh = ground arith;
}

within_caps-Granted :
    (q : Request) (amount : Amount) (r s d : ℕ) (l : Ledger)
    → q.amount ≡ amount
    → (within_caps q amount r s d l l).0 ≡ reserved q.audit_id
    → (a : ℕ) × Granted q a l (within_caps q amount r s d l l).1
unfolding within_caps
within_caps-Granted q (finite a) r s d l e h = elim (Bool-cases (ltb r a)) [
  | inl over ↦ absurd (cc (rw over at h))
  | inr fits ↦ elim (Bool-cases (is_paid_disabled q.session_id l)) [
    | inl off ↦ absurd (cc (rw (fits, off) at h))
    | inr on ↦ (a, rw (fits, on) (transaction-Granted q a s d l e (rw (fits, on) at h)))
  ]
]
within_caps-Granted q _ r s d l e h = absurd (cc)

pub reserve-Granted :
    (caps : Caps) (q : Request) (l : Ledger)
    → (reserve caps q l).0 ≡ reserved q.audit_id
    → (a : ℕ) × Granted q a l (reserve caps q l).1
unfolding reserve
reserve-Granted caps q l h = go caps.request caps.session caps.daily h
  where
    go :
        (r s d : Amount)
        → (reserve (record { request = r; session = s; daily = d }) q l).0 ≡ reserved q.audit_id
        → (a : ℕ) × Granted q a l (reserve (record { request = r; session = s; daily = d }) q l).1
    go (finite r) (finite s) (finite d) h = within_caps-Granted q q.amount r s d l refl h
    go (finite r) (finite s) _ h = absurd (cc)
    go (finite r) _ _ h = absurd (cc)
    go _ _ _ h = absurd (cc)

-- Releasing a reservation that was just granted reports success and puts the rows back as they were.
pub release-reserve :
    (caps : Caps) (q : Request) (l : Ledger)
    → (reserve caps q l).0 ≡ reserved q.audit_id
    → q.audit_id ≢ []
    → ((release q.audit_id (reserve caps q l).1).0 ≡ true)
      × ((release q.audit_id (reserve caps q l).1).1.costs ≡ l.costs)
release-reserve caps q l h named =
    let (a, g) = reserve-Granted caps q l h in
    release-front q.audit_id (reserve caps q l).1 (row_of q a) l.costs named refl g.costs g.fresh

-- Settling a reservation that was just granted reports success and makes the totals of its session
-- and of its day what they were before it, and the settled amount more.
pub settle-reserve :
    (caps : Caps) (q : Request) (amount : ℕ) (l : Ledger)
    → (reserve caps q l).0 ≡ reserved q.audit_id
    → q.audit_id ≢ []
    → let out = settle q.audit_id (finite amount) (reserve caps q l).1 in
      (out.0 ≡ true)
      × (session_total q.session_id out.1.costs ≡ session_total q.session_id l.costs + amount)
      × (daily_total q.today out.1.costs ≡ daily_total q.today l.costs + amount)
settle-reserve caps q amount l h named =
    let (a, g) = reserve-Granted caps q l h in
    settle-front q.audit_id amount (reserve caps q l).1 (row_of q a) l.costs named refl g.costs
      g.fresh

-- A handle is the id of the request.
transaction-handle :
    (q : Request) (amount s d : ℕ) (l : Ledger) (handle : Text)
    → (reserve_transaction q amount s d l).0 ≡ reserved handle
    → handle ≡ q.audit_id
unfolding reserve_transaction
transaction-handle q amount s d l handle h = ground arith

within_caps-handle :
    (q : Request) (amount : Amount) (r s d : ℕ) (l : Ledger) (handle : Text)
    → (within_caps q amount r s d l l).0 ≡ reserved handle
    → handle ≡ q.audit_id
unfolding within_caps
within_caps-handle q (finite a) r s d l handle h =
    ground (arith, transaction-handle q a s d l handle)
within_caps-handle q _ r s d l handle h = absurd (cc)

pub reserve-handle :
    (r s d : ℕ) (q : Request) (l : Ledger) (handle : Text)
    → (reserve (record { request = finite r; session = finite s; daily = finite d }) q l).0
      ≡ reserved handle
    → handle ≡ q.audit_id
unfolding reserve
reserve-handle r s d q l handle h = within_caps-handle q q.amount r s d l handle h
