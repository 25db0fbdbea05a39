-- ===== src/Interactive/Spending.antt =====
-- What a run on a hosted browser spends.
use browser_fetch_router.Prelude.{
  ℕ, ◌≤◌, ◌≡◌, sym, ◌∙◌, ap, inl, inr, Bool, true, false, ltb, Option, none, some, List, [], ◌∷◌,
  Bool-cases, arith, any,
}
use browser_fetch_router.Prelude.Text.{Text, codes}
use browser_fetch_router.Json.{Fields}
use browser_fetch_router.Cost.Ledger.{
  Amount, finite, negative, non_finite, CostRow, Ledger, Caps, Request, reserved, has_id, reserve,
  release, settle,
}
use browser_fetch_router.Cost.Ledger.Steps.{
  NotAbove, releasing, settling, disabling, Reach, here, next,
}
use browser_fetch_router.Cost.Ledger.Rows.{reserve-Granted}
use browser_fetch_router.Interactive.Hosted.{
  Setting, Hosted, reported_cost, settled, unreported, overrun, finalize, finish,
}

NotAbove-mono :
    (id : Text) (a b : ℕ) (rows : List CostRow) → a ≤ b → NotAbove id b rows → NotAbove id a rows
NotAbove-mono id a b [] h n = tt
NotAbove-mono id a b (r ∷ rows) h n =
    ((λ e. let m = n.0 e in omega arith), NotAbove-mono id a b rows h n.1)

NotAbove-absent :
    (id : Text) (a : ℕ) (rows : List CostRow) → has_id id rows ≡ false → NotAbove id a rows
unfolding has_id any
NotAbove-absent id a [] h = tt
NotAbove-absent id a (r ∷ rows) h =
    ((λ e. absurd (ground arith)), NotAbove-absent id a rows (ground arith))

finite_inj : {a b : ℕ} → finite a ≡ finite b → a ≡ b
finite_inj {a} h = ap (λ x. amount_or a x) h
  where
    amount_or : ℕ → Amount → ℕ
    amount_or d (finite n) = n
    amount_or d negative = d
    amount_or d non_finite = d

pub reserved-NotAbove :
    (caps : Caps) (q : Request) (n : ℕ) (l : Ledger)
    → q.amount ≡ finite n
    → (reserve caps q l).0 ≡ reserved q.audit_id
    → NotAbove q.audit_id n (reserve caps q l).1.costs
reserved-NotAbove caps q n l e h =
    let (a, g) = reserve-Granted caps q l h in
    let same : n ≡ a = finite_inj {a = n} (sym e ∙ g.fits) in
    rw g.costs
      ((λ k. let m : n ≤ a = omega arith in m), NotAbove-absent q.audit_id n l.costs g.fresh)

module _ (caps : Caps) where
  pub Reach-trans : {l m o : Ledger} → Reach caps l m → Reach caps m o → Reach caps l o
  Reach-trans r here = r
  Reach-trans r (next rest st) = next (Reach-trans r rest) st

module _ (s : Setting) (h : Hosted) (caps : Caps) (session_id handle : Text) (cost_cap : ℕ) where
  settled-Reach :
      (result : Fields) (l : Ledger) (p : Bool × Ledger)
      → Reach caps l p.1
      → Reach caps l (settled s h session_id handle cost_cap result p).ledger
  unfolding settled
  settled-Reach result l (true, m) r = r
  settled-Reach result l (false, m) r =
      next r (disabling session_id (codes "cost_record_failed") s.now m)

  released-Reach :
      (result : Fields) (releases : Bool) (l : Ledger)
      → Reach caps l (unreported s h session_id handle cost_cap result releases l).ledger
  unfolding unreported
  released-Reach result true l = next here (releasing handle l)
  released-Reach result false l = here

  finalize-Reach :
      (result : Fields) (cost : Option ℕ) (l : Ledger)
      → NotAbove handle cost_cap l.costs
      → Reach caps l (finalize s h session_id handle cost_cap result cost l).ledger
  unfolding finalize overrun
  finalize-Reach result none l n = released-Reach result _ l
  finalize-Reach result (some cost) l n = elim (Bool-cases (ltb cost_cap cost)) [
    | inl over ↦ rw over (
        next (next here (releasing handle l))
          (disabling session_id (codes "provider_overrun") s.now (release handle l).1))
    | inr fits ↦
        let below : cost ≤ cost_cap = ground arith in
        rw fits (
          settled-Reach result l (settle handle (finite cost) l) (
            next here
              (settling handle cost l (NotAbove-mono handle cost cost_cap l.costs below n))))
  ]

  pub finish-Reach :
      (answer : Option Fields) (l : Ledger)
      → NotAbove handle cost_cap l.costs
      → Reach caps l (finish s h session_id handle cost_cap answer l).ledger
  unfolding finish
  finish-Reach none l n = next here (releasing handle l)
  finish-Reach (some result) l n = finalize-Reach result (reported_cost s result) l n
