-- ===== src/Tests/Spending.antt =====
-- Runs of the cost ledger, the token bucket and the circuit breaker.
use native.Mathlib.Nat.{zero-div}
use browser_fetch_router.Prelude.{
  ◌-◌, ◌/◌, max, min, ℕ, ◌+◌, ◌*◌, ◌<◌, ◌≡◌, ◌&&◌, refl, true, false, some, List, [], ◌∷◌, any, ltb,
  leb, arith,
}
use browser_fetch_router.Prelude.Text.{Text, codes, text_eq}
use browser_fetch_router.Cost.Ledger.{
  finite, Ledger, Caps, Request, refused, reserved, session_total, daily_total, is_paid_disabled,
  reserve_transaction, reserve_racing, reserve,
}
use browser_fetch_router.Cost.Ledger.Steps.{reserving, here, next}
use browser_fetch_router.Cost.Ledger.Bounds.{WithinCaps, Reach-WithinCaps}
use browser_fetch_router.Cost.Ledger.Lockout.{lockout}
use browser_fetch_router.Cost.TokenBucket
use browser_fetch_router.Cost.TokenBucket.{Arithmetic, Bucket, take_one}
use browser_fetch_router.Cost.TokenBucket.Rate.{IsFloat, backdated-credit}
use browser_fetch_router.Cost.CircuitBreaker.{Key, threshold, open_seconds, is_open}
use browser_fetch_router.Cost.CircuitBreaker.Opening.{
  Call, failure, success, run, in_a_row, last_failure, is_open-run,
}

abbrev caps : Caps
caps = record { request = finite 50; session = finite 100; daily = finite 500 }

abbrev empty_ledger : Ledger
empty_ledger = record { costs = []; disabled = []; mirror = [] }

abbrev ask : Text → ℕ → Request
ask id amount = record {
  session_id = codes "s1";
  provider = codes "parallel";
  amount = finite amount;
  today = codes "2026-05-06";
  audit_id = id;
  created_at = codes "2026-05-06T10:00:00";
}

abbrev first : Request
first = ask (codes "a1") 40

abbrev third : Request
third = ask (codes "a3") 40

abbrev after_first : Ledger
after_first = (reserve caps first empty_ledger).1

abbrev after_second : Ledger
after_second = (reserve caps (ask (codes "a2") 40) after_first).1

first_reserved : (reserve caps first empty_ledger).0 ≡ reserved (codes "a1")
unfolding reserve reserve_racing reserve_transaction is_paid_disabled session_total daily_total any
    codes text_eq
first_reserved = refl

third_over : 100 < session_total (codes "s1") after_second.costs + 40
unfolding reserve reserve_racing reserve_transaction is_paid_disabled session_total daily_total any
    codes text_eq
third_over = omega arith

empty_WithinCaps : WithinCaps 100 500 empty_ledger
unfolding session_total daily_total
empty_WithinCaps = record { sessions = λ sid. omega arith; days = λ day. omega arith }

Reach-WithinCaps_example :
    WithinCaps 100 500
      (reserve_racing caps third empty_ledger
        (reserve_racing caps first empty_ledger empty_ledger).1).1
Reach-WithinCaps_example = Reach-WithinCaps (finite 50) 100 500 empty_WithinCaps (
    next (next here (reserving first empty_ledger empty_ledger))
      (reserving third empty_ledger (reserve_racing caps first empty_ledger empty_ledger).1))

lockout_example :
    ((reserve caps third after_second).0 ≡ refused)
    × (reserve_racing caps (ask (codes "a4") 1) empty_ledger (reserve caps third after_second).1
        ≡ (refused, (reserve caps third after_second).1))
lockout_example =
    lockout 50 100 500 third 40 after_second (ask (codes "a4") 1) empty_ledger refl (omega arith)
      third_over here refl

a1_named : codes "a1" ≡ [] → ⊥
unfolding codes
a1_named e = cc

-- Whole numbers stand for floats.
abbrev whole : Arithmetic
whole = record {
  Float = ℕ;
  zero = 0;
  one = 1;
  of_nat = λ n. n;
  add = λ x y. x + y;
  sub = λ x y. x - y;
  mul = λ x y. x * y;
  div = λ x y. x / y;
  maximum = max;
  minimum = min;
  le = leb;
}

whole-IsFloat : IsFloat whole
whole-IsFloat = record {
  sub_self = λ x. omega arith;
  max_zero = omega arith;
  max_sub = λ x y h. ground arith;
  zero_mul = λ x. omega arith;
  zero_div = λ x h. zero-div x;
  add_zero = λ x. omega arith;
  min_right = λ x y h. ground arith;
  le_min = λ x y z h k. ground arith;
  le_through = λ x y z h k. ground arith;
}

abbrev bucket : Bucket whole
bucket = record { provider = codes "jina"; capacity = 2; refill_seconds = 10 }

abbrev drained : TokenBucket.Row whole
drained = record { tokens = 0; updated_at = 100 }

backdated-credit_example :
    ((take_one whole bucket 100 (some drained)).0 ≡ false)
    × ((take_one whole bucket 100 (some (take_one whole bucket 90 (some drained)).1)).0 ≡ true)
backdated-credit_example =
    backdated-credit whole whole-IsFloat bucket refl drained 90 refl refl refl refl

abbrev key : Key
key = record { session_id = codes "s1"; provider = codes "parallel" }

abbrev other : Key
other = record { session_id = codes "s2"; provider = codes "parallel" }

abbrev calls : List Call
calls = failure key 30 ∷ success other ∷ failure key 20 ∷ failure key 10 ∷ []

is_open-run_example :
    is_open key 100 (run calls)
    ≡ (leb threshold (in_a_row key calls) && ltb 100 (last_failure key calls + open_seconds))
is_open-run_example = is_open-run key 100 calls
