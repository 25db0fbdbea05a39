-- ===== src/Cost/CircuitBreaker.antt =====
-- `CircuitBreaker` of browser_fetch_router/cost.py: one row of the table `circuit_breakers` for each
-- session and provider. Times are natural numbers of seconds.
pub mod Opening
use browser_fetch_router.Prelude.{
  ℕ, suc, ◌+◌, Bool, true, false, ◌&&◌, ◌||◌, Option, none, some, List, [], ◌∷◌, ltb, leb, ◌==◌,
  not, keep, if◌then◌else◌,
}
use browser_fetch_router.Prelude.Text.{Text, text_eq}

abbrev pub threshold : ℕ
threshold = 3

abbrev pub open_seconds : ℕ
open_seconds = 300

pub record Key : Type 0 where
  pub session_id : Text
  pub provider : Text

unfoldable pub key_eq : Key → Key → Bool
key_eq a b = text_eq a.session_id b.session_id && text_eq a.provider b.provider

pub record Row : Type 0 where
  pub consecutive_failures : ℕ
  pub opened_until : Option ℕ

abbrev pub Table : Type 0
Table = List (Key × Row)

unfoldable pub select : Key → Table → Option Row
select key [] = none
select key ((k, r) ∷ rows) = if key_eq k key then some r else select key rows

unfoldable pub upsert : Key → Row → Table → Table
upsert key row [] = (key, row) ∷ []
upsert key row ((k, r) ∷ rows) =
    if key_eq k key then (k, row) ∷ rows else (k, r) ∷ upsert key row rows

-- DELETE ... WHERE session_id = ? AND provider = ?.
unfoldable pub delete : Key → Table → Table
delete key [] = []
delete key ((k, r) ∷ rows) =
    let rest = delete key rows in if key_eq k key then rest else (k, r) ∷ rest

-- `opened_until and opened_until > now`: a time of 0 is false too.
open_at : ℕ → Option ℕ → Bool
open_at now none = false
open_at now (some t) = not (t == 0) && ltb now t

open_row : ℕ → Option Row → Bool
open_row now none = false
open_row now (some r) = open_at now r.opened_until

unfoldable pub is_open : Key → ℕ → Table → Bool
unfolding open_at open_row select
is_open key now table = open_row now (select key table)

failures_of : Option Row → ℕ
failures_of none = 0
failures_of (some r) = r.consecutive_failures

failed_row : ℕ → Option Row → Row
failed_row now old =
    let failures = failures_of old + 1 in
    record {
      consecutive_failures = failures;
      opened_until = if leb threshold failures then some (now + open_seconds) else none;
    }

is_some : Option ℕ → Bool
is_some none = false
is_some (some t) = true

unfoldable pub record_failure : Key → ℕ → Table → Bool × Table
unfolding failures_of failed_row is_some select upsert
record_failure key now table =
    let row = failed_row now (select key table) in (is_some row.opened_until, upsert key row table)

unfoldable pub record_success : Key → Table → Table
unfolding delete
record_success key table = delete key table
