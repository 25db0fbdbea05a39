-- ===== src/Cost/CircuitBreaker/Opening.antt =====
-- When a breaker is open, told from the history of its calls alone.
use browser_fetch_router.Prelude.{
  ℕ, suc, zero, ◌+◌, ◌≡◌, ◌↔◌, refl, true, ◌&&◌, Option, none, some, List, [], ◌∷◌, arith, ltb, leb,
  if◌then◌else◌, Bool-cases, inl, inr,
}
use native.Mathlib.Numerals.{towards_suc}
use browser_fetch_router.Prelude.Text.{text_eq_iff}
use browser_fetch_router.Cost.CircuitBreaker.{
  threshold, open_seconds, Key, key_eq, Row, Table, select, upsert, delete, open_at, open_row,
  is_open, failures_of, failed_row, record_failure, record_success,
}

pub data Call : Type 0 where
  failure : Key → ℕ → Call
  success : Key → Call

-- The table after the calls, the latest first, of all sessions.
pub run : List Call → Table
run [] = []
run (failure key now ∷ calls) = (record_failure key now (run calls)).1
run (success key ∷ calls) = record_success key (run calls)

-- The failures of the key since its last success.
pub in_a_row : Key → List Call → ℕ
in_a_row key [] = 0
in_a_row key (failure k now ∷ calls) =
    let n = in_a_row key calls in if key_eq k key then n + 1 else n
in_a_row key (success k ∷ calls) = let n = in_a_row key calls in if key_eq k key then 0 else n

-- The time of the latest failure of the key.
pub last_failure : Key → List Call → ℕ
last_failure key [] = 0
last_failure key (failure k now ∷ calls) =
    let t = last_failure key calls in if key_eq k key then now else t
last_failure key (success k ∷ calls) = last_failure key calls

key_eq_iff : (a b : Key) → (key_eq a b ≡ true) ↔ (a ≡ b)
unfolding key_eq
key_eq_iff a b =
    ground (arith, text_eq_iff a.session_id b.session_id, text_eq_iff a.provider b.provider)

select-upsert :
    (key k : Key) (row : Row) (table : Table)
    → select key (upsert k row table) ≡ (if key_eq k key then some row else select key table)
unfolding select upsert
select-upsert key k row [] = refl
select-upsert key k row ((j, r) ∷ table) =
    ground
      (arith, select-upsert key k row table, key_eq_iff j k, key_eq_iff j key, key_eq_iff k key)

select-delete :
    (key k : Key) (table : Table)
    → select key (delete k table) ≡ (if key_eq k key then none else select key table)
unfolding select delete
select-delete key k [] = ground arith
select-delete key k ((j, r) ∷ table) =
    ground (arith, select-delete key k table, key_eq_iff j k, key_eq_iff j key, key_eq_iff k key)

-- The row that the history calls for.
expected : ℕ → ℕ → Option Row
expected zero last = none
expected (suc n) last =
    some (failed_row last (some (record { consecutive_failures = n; opened_until = none })))

nothing-stored : (key : Key) → select key [] ≡ expected 0 0
unfolding select expected
nothing-stored key = refl

expected-add_one : (n now last : ℕ) → expected (n + 1) now ≡ some (failed_row now (expected n last))
unfolding expected failed_row failures_of
expected-add_one zero now last = refl
expected-add_one (suc n) now last = simp towards_suc

-- One more failure, of this key or of another.
failure-step :
    (key k : Key) (now n last : ℕ) (table : Table)
    → select key table ≡ expected n last
    → select key (record_failure k now table).1
      ≡ (if key_eq k key then expected (n + 1) now else expected n last)
unfolding record_failure
failure-step key k now n last table h = rw select-upsert (elim (Bool-cases (key_eq k key)) [
  | inl e ↦ rw e (ground (arith, key_eq_iff k key, expected-add_one n now last))
  | inr e ↦ rw e h
])

success-step :
    (key k : Key) (n last : ℕ) (table : Table)
    → select key table ≡ expected n last
    → select key (record_success k table) ≡ expected (if key_eq k key then 0 else n) last
unfolding record_success expected
success-step key k n last table h = rw select-delete (ground arith)

select-run :
    (key : Key) (calls : List Call)
    → select key (run calls) ≡ expected (in_a_row key calls) (last_failure key calls)
unfolding run in_a_row last_failure
select-run key [] = nothing-stored key
select-run key (failure k now ∷ calls) =
    ground (arith, failure-step key k now _ _ _ (select-run key calls))
select-run key (success k ∷ calls) = ground (arith, success-step key k _ _ _ (select-run key calls))

expected-open :
    (n last now : ℕ)
    → open_row now (expected n last) ≡ (leb threshold n && ltb now (last + open_seconds))
unfolding open_row open_at expected failed_row failures_of
expected-open zero last now = ground arith
expected-open (suc n) last now = ground arith

-- After any calls of any sessions, a breaker is open exactly while the latest three or more calls
-- of its own session and provider failed and the last failure is less than 300 seconds old. What
-- other sessions and providers did plays no part.
pub is_open-run :
    (key : Key) (now : ℕ) (calls : List Call)
    → is_open key now (run calls)
      ≡ (leb threshold (in_a_row key calls) && ltb now (last_failure key calls + open_seconds))
unfolding is_open
is_open-run key now calls = rw select-run (expected-open _ _ now)

failures_of-expected : (n last : ℕ) → failures_of (expected n last) ≡ n
unfolding failures_of expected failed_row
failures_of-expected zero last = refl
failures_of-expected (suc n) last = omega arith

-- What `record_failure` reports is whether the breaker is open right after it.
record_failure-is_open :
    (key : Key) (now : ℕ) (calls : List Call)
    → (record_failure key now (run calls)).0 ≡ is_open key now (run (failure key now ∷ calls))
unfolding record_failure in_a_row last_failure
record_failure-is_open key now calls =
    rw (is_open-run key now (failure key now ∷ calls), select-run key calls, failures_of-expected)
      (ground (arith, key_eq_iff key key))
