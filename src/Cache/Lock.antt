-- ===== src/Cache/Lock.antt =====
-- `InflightLock.acquire` of browser_fetch_router/cache.py. What `flock` answers in each round, and the
-- clock behind it, are parameters; times are numbers of microseconds.
use browser_fetch_router.Prelude.{
  ℕ, zero, suc, ◌+◌, ◌*◌, ◌≤◌, ◌<◌, ◌≡◌, refl, inl, inr, Bool, true, false, leb, Option, none, some,
  Bool-cases, arith, ◌⊎◌,
}
use browser_fetch_router.UrlSafety.Result.{operational, Result, ok, err}

pub data Attempt : Type 0 where
  locked busy failed : Attempt

module _ (flock : ℕ → Attempt) (clock : ℕ → ℕ) (deadline : ℕ) where
  -- What a round gives: `none` is to sleep and go on.
  unfoldable pub round : Attempt → ℕ → Option (Result Bool)
  round locked now = some (ok true)
  round failed now = some (err operational)
  round busy now = elim (leb deadline now) [ true ↦ some (ok false) | false ↦ none ]

  -- The loop from a round on: `none` is that the fuel has run out.
  unfoldable pub acquire : ℕ → ℕ → Option (Result Bool)
  unfolding round
  acquire zero i = none
  acquire (suc fuel) i = elim (round (flock i) (clock i)) [
    | some result ↦ some result
    | none ↦ acquire fuel (suc i)
  ]

  -- The loop gives up or returns at this round.
  pub data IsEnd (j : ℕ) : Result Bool → Type 0 where
    taken : flock j ≡ locked → IsEnd j (ok true)
    broken : flock j ≡ failed → IsEnd j (err operational)
    late : flock j ≡ busy → deadline ≤ clock j → IsEnd j (ok false)

  -- A round that goes on: the lock is held by another, and the deadline is ahead.
  abbrev pub GoesOn : ℕ → Type 0
  GoesOn j = (flock j ≡ busy) × (clock j < deadline)

  round-cases :
      (j : ℕ) (attempt : Attempt)
      → flock j ≡ attempt
      → ((round attempt (clock j) ≡ none) × GoesOn j)
        ⊎ ((r : Result Bool) × (round attempt (clock j) ≡ some r) × IsEnd j r)
  unfolding round
  round-cases j locked e = inr (ok true, refl, taken e)
  round-cases j failed e = inr (err operational, refl, broken e)
  round-cases j busy e = elim (Bool-cases (leb deadline (clock j))) [
    | inl k ↦ rw (k, round) (inr (ok false, refl, late e (ground arith)))
    | inr k ↦ rw (k, round) (inl (refl, (e, ground arith)))
  ]

  next_round : (i k : ℕ) → suc i + k ≡ i + suc k
  next_round i k = omega arith

  next-IsEnd : (i k : ℕ) (r : Result Bool) → IsEnd (suc i + k) r → IsEnd (i + suc k) r
  next-IsEnd i k r ends = rw (next_round i k) at ends

  this_round : (i : ℕ) → i + zero ≡ i
  this_round i = omega arith

  next_rounds :
      (i k : ℕ)
      → GoesOn i
      → ((j : ℕ) → j < k → GoesOn (suc i + j))
      → (j : ℕ) → j < suc k
      → GoesOn (i + j)
  next_rounds i k on rest zero below = rw (this_round i) on
  next_rounds i k on rest (suc j) below = rw (next_round i j) at (rest j (omega arith))

  -- Where each round takes at least one tick of time, the loop ends within as many rounds as there are
  -- ticks to the deadline, and one more. It returns at the first round at which it takes the lock, its
  -- file cannot be locked, or the lock is held by another and the deadline has come; at every round
  -- before that one the lock is held by another and the deadline is ahead.
  pub acquire-ends :
      (tick fuel i : ℕ)
      → ((j : ℕ) → clock j + tick ≤ clock (suc j))
      → deadline ≤ clock i + fuel * tick
      → (r : Result Bool) × (k : ℕ) × (acquire (suc fuel) i ≡ some r)
        × (k ≤ fuel)
        × IsEnd (i + k) r
        × ((j : ℕ) → j < k → GoesOn (i + j))
  unfolding acquire
  acquire-ends tick zero i ticks h = elim (round-cases i (flock i) refl) [
    | inl (e, (same, ahead)) ↦ absurd (omega arith)
    | inr (r, e, ends) ↦
        rw (e, acquire)
          (r, 0, refl, omega arith, rw (this_round i) ends, λ j below. absurd (omega arith))
  ]
  acquire-ends tick (suc fuel) i ticks h = elim (round-cases i (flock i) refl) [
    | inl (e, on) ↦
        let (r, k, same, bound, ends, before) =
          acquire-ends tick fuel (suc i) ticks (omega (arith, ticks i)) in
        rw (e, acquire)
          (r, suc k, same, omega arith, next-IsEnd i k r ends, next_rounds i k on before)
    | inr (r, e, ends) ↦
        rw (e, acquire)
          (r, 0, refl, omega arith, rw (this_round i) ends, λ j below. absurd (omega arith))
  ]
