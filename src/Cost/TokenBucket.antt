-- ===== src/Cost/TokenBucket.antt =====
-- `TokenBucket` of browser_fetch_router/cost.py: one row of the table `token_buckets` for each
-- provider. The arithmetic of floats is a parameter, so that it may round as it does.
pub mod Rate
use browser_fetch_router.Prelude.{
  ℕ, Bool, true, false, Option, none, some, List, [], ◌∷◌, ◌==◌, if◌then◌else◌,
}
use browser_fetch_router.Prelude.Text.{Text, text_eq}

-- The finite floats, with the operations that the class uses. An operation that overflows is not
-- modelled: the times and tokens here are far from that.
pub record Arithmetic : Type 1 where
  pub Float : Type 0
  pub zero : Float
  pub one : Float
  pub of_nat : ℕ → Float
  pub add : Float → Float → Float
  pub sub : Float → Float → Float
  pub mul : Float → Float → Float
  pub div : Float → Float → Float
  pub maximum : Float → Float → Float
  pub minimum : Float → Float → Float
  pub le : Float → Float → Bool

module _ (a : Arithmetic) where
  pub record Bucket : Type 0 where
    pub provider : Text
    pub capacity : a.Float
    pub refill_seconds : a.Float

  -- `__init__`; a capacity below zero is zero here, and refused too.
  unfoldable pub new : Text → ℕ → a.Float → Option Bucket
  new provider capacity refill_seconds =
      if capacity == 0
      then none
      else if a.le refill_seconds a.zero
      then none
      else some (record {
        provider = provider;
        capacity = a.of_nat capacity;
        refill_seconds = refill_seconds;
      })

  pub record Row : Type 0 where
    pub tokens : a.Float
    pub updated_at : a.Float

  abbrev pub Table : Type 0
  Table = List (Text × Row)

  unfoldable pub select : Text → Table → Option Row
  select provider [] = none
  select provider ((p, r) ∷ rows) = if text_eq p provider then some r else select provider rows

  -- INSERT ... ON CONFLICT(provider) DO UPDATE.
  unfoldable pub upsert : Text → Row → Table → Table
  upsert provider row [] = (provider, row) ∷ []
  upsert provider row ((p, r) ∷ rows) =
      if text_eq p provider then (p, row) ∷ rows else (p, r) ∷ upsert provider row rows

  -- A provider without a row has a full bucket.
  unfoldable pub row_or_full : Bucket → a.Float → Option Row → Row
  row_or_full b now none = record { tokens = b.capacity; updated_at = now }
  row_or_full b now (some r) = r

  -- The tokens at the time `now`.
  unfoldable pub refilled : Bucket → a.Float → Row → a.Float
  refilled b now r =
      let elapsed = a.maximum a.zero (a.sub now r.updated_at) in
      a.minimum b.capacity (a.add r.tokens (a.div (a.mul elapsed b.capacity) b.refill_seconds))

  -- One call: whether a token was there, and the row that is stored.
  unfoldable pub take_one : Bucket → a.Float → Option Row → Bool × Row
  unfolding refilled row_or_full
  take_one b now old =
      let tokens = refilled b now (row_or_full b now old) in
      if a.le a.one tokens
      then (true, record { tokens = a.sub tokens a.one; updated_at = now })
      else (false, record { tokens = tokens; updated_at = now })

  unfoldable pub consume : Bucket → a.Float → Table → Bool × Table
  unfolding take_one select upsert
  consume b now table =
      let (granted, row) = take_one b now (select b.provider table) in
      (granted, upsert b.provider row table)

  unfoldable pub retry_after_seconds : Bucket → a.Float → Table → a.Float
  unfolding refilled select
  retry_after_seconds b now table = elim (select b.provider table) [
    | none ↦ a.zero
    | some r ↦
        let tokens = refilled b now r in
        if a.le a.one tokens
        then a.zero
        else a.div (a.mul (a.sub a.one tokens) b.refill_seconds) b.capacity
  ]
