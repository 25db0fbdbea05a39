-- ===== src/Cost/Ledger/Lockout.antt =====
-- A session that asked for more than its cap is locked out of paid calls for good.
use browser_fetch_router.Prelude.{
  ℕ, ◌+◌, ◌<◌, ◌≤◌, ◌≡◌, refl, inl, inr, Bool, true, false, not, ◌||◌, List, [], ◌∷◌, arith, keep,
  any, Bool-cases, ap, lt→ltb, le→not_ltb,
}
use browser_fetch_router.Prelude.Text.{Text, codes, text_eq, text_eq_iff, text_eq_refl}
use browser_fetch_router.Cost.Ledger.{
  Amount, finite, negative, non_finite, DisabledRow, Ledger, Caps, Request, refused, session_total,
  is_paid_disabled, insert_disabled, disable_session, reserve_transaction, within_caps,
  reserve_racing, reserve, release, settle,
}
use browser_fetch_router.Cost.Ledger.Steps.{
  reserving, releasing, settling, disabling, Reach, here, next,
}

abbrev holds_row : Text → DisabledRow → Bool
holds_row sid r = text_eq r.session_id sid

-- Dropping the rows of another session leaves the test for `sid` as it was.
any-keep_other :
    (sid other : Text) (rows : List DisabledRow)
    → text_eq other sid ≡ false
    → any (holds_row sid) (keep (λ r. not (holds_row other r)) rows) ≡ any (holds_row sid) rows
unfolding any keep
any-keep_other sid other [] h = refl
any-keep_other sid other (r ∷ rows) h = ground (
  arith,
  any-keep_other sid other rows h,
  text_eq_iff r.session_id other,
  text_eq_iff r.session_id sid,
  text_eq_iff other sid,
)

any-insert_disabled :
    (sid other reason now : Text) (rows : List DisabledRow)
    → any (holds_row sid) (insert_disabled other reason now rows)
      ≡ (text_eq other sid || any (holds_row sid) rows)
unfolding any insert_disabled
any-insert_disabled sid other reason now rows = elim (Bool-cases (text_eq other sid)) [
  | inl same ↦ rw same
  | inr differ ↦ rw differ (any-keep_other sid other rows differ)
]

module _ (sid : Text) where
  disable_session-keeps :
      (other reason now : Text) (l : Ledger)
      → is_paid_disabled sid l ≡ true
      → is_paid_disabled sid (disable_session other reason now l) ≡ true
  unfolding disable_session is_paid_disabled
  disable_session-keeps other reason now l h =
      ground (arith, any-insert_disabled sid other reason now l.disabled)

  reserve_transaction-keeps :
      (q : Request) (amount s d : ℕ) (l : Ledger)
      → is_paid_disabled sid l ≡ true
      → is_paid_disabled sid (reserve_transaction q amount s d l).1 ≡ true
  unfolding reserve_transaction is_paid_disabled
  reserve_transaction-keeps q amount s d l h = ground (
    arith,
    any-insert_disabled sid q.session_id (codes "session_cap_exceeded") q.created_at l.disabled,
  )

  reserve_racing-keeps :
      (caps : Caps) (q : Request) (seen l : Ledger)
      → is_paid_disabled sid l ≡ true
      → is_paid_disabled sid (reserve_racing caps q seen l).1 ≡ true
  unfolding reserve_racing
  reserve_racing-keeps caps q seen l h = grind (arith, reserve_transaction-keeps)

  release-keeps :
      (handle : Text) (l : Ledger)
      → is_paid_disabled sid l ≡ true
      → is_paid_disabled sid (release handle l).1 ≡ true
  unfolding release is_paid_disabled
  release-keeps [] l h = h
  release-keeps (c ∷ t) l h = ground arith

  settle-keeps :
      (handle : Text) (amount : Amount) (l : Ledger)
      → is_paid_disabled sid l ≡ true
      → is_paid_disabled sid (settle handle amount l).1 ≡ true
  unfolding settle is_paid_disabled
  settle-keeps [] amount l h = h
  settle-keeps (c ∷ t) amount l h = ground arith

  Reach-keeps :
      {caps : Caps} {l m : Ledger}
      → Reach caps l m
      → is_paid_disabled sid l ≡ true
      → is_paid_disabled sid m ≡ true
  Reach-keeps here h = h
  Reach-keeps (next r (reserving q seen l)) h = reserve_racing-keeps _ q seen l (Reach-keeps r h)
  Reach-keeps (next r (releasing t l)) h = release-keeps t l (Reach-keeps r h)
  Reach-keeps (next r (settling t a l ok)) h = settle-keeps t (finite a) l (Reach-keeps r h)
  Reach-keeps (next r (disabling o why now l)) h =
      disable_session-keeps o why now l (Reach-keeps r h)

  refused_when_disabled :
      (q : Request) (amount s d : ℕ) (l : Ledger)
      → q.session_id ≡ sid
      → is_paid_disabled sid l ≡ true
      → reserve_transaction q amount s d l ≡ (refused, l)
  unfolding reserve_transaction
  refused_when_disabled q amount s d l e h = ground arith

disabled_after :
    (sid now : Text) (l : Ledger)
    → is_paid_disabled sid
        (record l { disabled = insert_disabled sid (codes "session_cap_exceeded") now l.disabled })
      ≡ true
unfolding is_paid_disabled
disabled_after sid now l = ground (
  arith,
  any-insert_disabled sid sid (codes "session_cap_exceeded") now l.disabled,
  text_eq_refl sid,
)

transaction-exceeds :
    (q : Request) (amount s d : ℕ) (l : Ledger)
    → s < session_total q.session_id l.costs + amount
    → ((reserve_transaction q amount s d l).0 ≡ refused)
      × (is_paid_disabled q.session_id (reserve_transaction q amount s d l).1 ≡ true)
unfolding reserve_transaction
transaction-exceeds q amount s d l over = elim (Bool-cases (is_paid_disabled q.session_id l)) [
  | inl e ↦ rw e (refl, e)
  | inr e ↦ rw (e, lt→ltb _ _ over) (refl, disabled_after q.session_id q.created_at l)
]

within_caps-exceeds :
    (q : Request) (amount r s d : ℕ) (l : Ledger)
    → amount ≤ r
    → s < session_total q.session_id l.costs + amount
    → ((within_caps q (finite amount) r s d l l).0 ≡ refused)
      × (is_paid_disabled q.session_id (within_caps q (finite amount) r s d l l).1 ≡ true)
unfolding within_caps
within_caps-exceeds q amount r s d l fits over =
    rw (le→not_ltb r amount fits) (elim (Bool-cases (is_paid_disabled q.session_id l)) [
      | inl e ↦ rw e (refl, e)
      | inr e ↦ rw e (transaction-exceeds q amount s d l over)
    ])

module _ (per_request per_session per_day : ℕ) where
  abbrev caps : Caps
  caps = record {
    request = finite per_request;
    session = finite per_session;
    daily = finite per_day;
  }

  reserve_racing_when_disabled :
      (q : Request) (seen l : Ledger)
      → is_paid_disabled q.session_id l ≡ true
      → reserve_racing caps q seen l ≡ (refused, l)
  unfolding reserve_racing
  reserve_racing_when_disabled q seen l h = go q.amount
    where
      go :
          (amount : Amount)
          → within_caps q amount per_request per_session per_day seen l ≡ (refused, l)
      go (finite n) =
          ground (arith, refused_when_disabled q.session_id q n per_session per_day l refl h)
      go negative = refl
      go non_finite = refl

  exceeding-disables :
      (q : Request) (amount : ℕ) (l : Ledger)
      → q.amount ≡ finite amount
      → amount ≤ per_request
      → per_session < session_total q.session_id l.costs + amount
      → ((reserve caps q l).0 ≡ refused)
        × (is_paid_disabled q.session_id (reserve caps q l).1 ≡ true)
  unfolding reserve
  exceeding-disables q amount l e fits over = ground (
    arith,
    ap (λ a. within_caps q a per_request per_session per_day l l) e,
    within_caps-exceeds q amount per_request per_session per_day l fits over,
  )

  -- A reservation of at most the request cap that would pass the session cap is refused, and from then on, whatever is
  -- committed in between, every reservation of that session is refused and changes nothing, however
  -- small it is and whatever its first test read.
  pub lockout :
      (q : Request) (amount : ℕ) (l : Ledger) {later : Ledger} (again : Request) (seen : Ledger)
      → q.amount ≡ finite amount
      → amount ≤ per_request
      → per_session < session_total q.session_id l.costs + amount
      → Reach caps (reserve caps q l).1 later
      → again.session_id ≡ q.session_id
      → ((reserve caps q l).0 ≡ refused) × (reserve_racing caps again seen later ≡ (refused, later))
  lockout q amount l again seen e fits over reach same =
      let out = exceeding-disables q amount l e fits over in
      (
        out.0,
        reserve_racing_when_disabled again seen _ (rw same (Reach-keeps q.session_id reach out.1)),
      )
