-- ===== src/Cost/TokenBucket/Rate.antt =====
-- What the calls of a bucket leave of its rows, and a call whose time is older than its row.
use browser_fetch_router.Prelude.{
  ◌≡◌, refl, ap, ◌∙◌, Bool, true, false, some, [], ◌∷◌, arith, if◌then◌else◌,
}
use browser_fetch_router.Prelude.Text.{Text, text_eq, text_eq_iff, text_eq_refl}
use browser_fetch_router.Cost.TokenBucket.{
  Arithmetic, Bucket, Row, Table, select, upsert, refilled, row_or_full, take_one, consume,
}

-- What is relied on of the floats. Zeros are not told apart by their sign.
pub record IsFloat (a : Arithmetic) : Type 0 where
  pub sub_self : (x : a.Float) → a.sub x x ≡ a.zero
  pub max_zero : a.maximum a.zero a.zero ≡ a.zero
  pub max_sub : (x y : a.Float) → a.le x y ≡ true → a.maximum a.zero (a.sub x y) ≡ a.zero
  pub zero_mul : (x : a.Float) → a.mul a.zero x ≡ a.zero
  pub zero_div : (x : a.Float) → a.le x a.zero ≡ false → a.div a.zero x ≡ a.zero
  pub add_zero : (x : a.Float) → a.add x a.zero ≡ x
  pub min_right : (x y : a.Float) → a.le y x ≡ true → a.minimum x y ≡ y
  pub le_min : (x y z : a.Float) → a.le x y ≡ true → a.le x z ≡ true → a.le x (a.minimum y z) ≡ true
  pub le_through : (x y z : a.Float) → a.le x y ≡ false → a.le x z ≡ true → a.le y z ≡ true

module _ (a : Arithmetic) where
  -- The row that was stored is the one that is found, and no other provider's row changes.
  select-upsert :
      (p q : Text) (row : Row a) (table : Table a)
      → select a q (upsert a p row table) ≡ (if text_eq p q then some row else select a q table)
  unfolding select upsert
  select-upsert p q row [] = refl
  select-upsert p q row ((k, r) ∷ table) =
      ground (arith, select-upsert p q row table, text_eq_iff k p, text_eq_iff k q, text_eq_iff p q)

  -- A call on a table, as a call on the row of the bucket.
  consume-row :
      (b : Bucket a) (now : a.Float) (table : Table a)
      → let out = take_one a b now (select a b.provider table) in
        ((consume a b now table).0 ≡ out.0)
        × (select a b.provider (consume a b now table).1 ≡ some out.1)
  unfolding consume
  consume-row b now table = (refl, rw select-upsert (rw (text_eq_refl b.provider)))

  module _ (f : IsFloat a) (b : Bucket a) (positive : a.le b.refill_seconds a.zero ≡ false) where
    no_time :
        (elapsed : a.Float)
        → elapsed ≡ a.zero
        → a.div (a.mul elapsed b.capacity) b.refill_seconds ≡ a.zero
    no_time elapsed e = rw (e, f.zero_mul b.capacity) (f.zero_div b.refill_seconds positive)

    refilled-early :
        (r : Row a) (t : a.Float)
        → a.maximum a.zero (a.sub t r.updated_at) ≡ a.zero
        → a.le r.tokens b.capacity ≡ true
        → refilled a b t r ≡ r.tokens
    unfolding refilled
    refilled-early r t e fits =
        ap (λ x. a.minimum b.capacity (a.add r.tokens x)) (no_time _ e)
        ∙ ap (λ x. a.minimum b.capacity x) (f.add_zero r.tokens)
        ∙ f.min_right b.capacity r.tokens fits

    take_one-low :
        (r : Row a) (now tokens : a.Float)
        → refilled a b now r ≡ tokens
        → a.le a.one tokens ≡ false
        → take_one a b now (some r) ≡ (false, record { tokens = tokens; updated_at = now })
    unfolding take_one row_or_full
    take_one-low r now tokens e low = rw (e, low) refl

    take_one-enough :
        (r : Row a) (now : a.Float)
        → a.le a.one (refilled a b now r) ≡ true
        → (take_one a b now (some r)).0 ≡ true
    unfolding take_one row_or_full
    take_one-enough r now enough = rw enough refl

    -- A call with an older time than the stored row finds no more tokens than the row has, and sets the
    -- clock of the row back. A call at the row's own time finds less than a token without it, and behind
    -- it takes one, on tokens for time that did not pass, if the time between them is worth what is
    -- missing.
    pub backdated-credit :
        (r : Row a) (early : a.Float)
        → a.le early r.updated_at ≡ true
        → a.le a.one r.tokens ≡ false
        → a.le a.one b.capacity ≡ true
        → a.le a.one (
            a.add r.tokens (
              a.div
                (a.mul (a.maximum a.zero (a.sub r.updated_at early)) b.capacity)
                b.refill_seconds))
          ≡ true
        → ((take_one a b r.updated_at (some r)).0 ≡ false)
          × ((take_one a b r.updated_at (some (take_one a b early (some r)).1)).0 ≡ true)
    unfolding refilled
    backdated-credit r early older low full enough =
        let fits = f.le_through a.one r.tokens b.capacity low full in
        let same =
          refilled-early r r.updated_at (ap (λ x. a.maximum a.zero x) (f.sub_self _) ∙ f.max_zero)
            fits in
        let before = refilled-early r early (f.max_sub early r.updated_at older) fits in
        (
          ap (λ (out : Bool × Row a). out.0) (take_one-low r r.updated_at r.tokens same low),
          rw (take_one-low r early r.tokens before low)
              (take_one-enough _ r.updated_at (f.le_min a.one b.capacity _ full enough)),
        )
