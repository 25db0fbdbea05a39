-- ===== src/Cost/Ledger/Steps.antt =====
-- What processes that share the file may commit, one transaction at a time, all with the same caps.
use browser_fetch_router.Prelude.{ℕ, ◌≤◌, ◌≡◌, true, List, All}
use browser_fetch_router.Prelude.Text.{Text, text_eq}
use browser_fetch_router.Cost.Ledger.{
  finite, CostRow, Ledger, Caps, Request, disable_session, reserve_racing, release, settle,
}

-- A settled amount is at most what was reserved under the id.
abbrev pub NotAbove : Text → ℕ → List CostRow → Type 0
NotAbove id amount = All (λ (r : CostRow). text_eq r.audit_id id ≡ true → amount ≤ r.amount)

-- `seen` is the ledger that the test outside the transaction read.
pub data Step (caps : Caps) : Ledger → Ledger → Type 0 where
  reserving : (q : Request) (seen l : Ledger) → Step caps l (reserve_racing caps q seen l).1
  releasing : (handle : Text) (l : Ledger) → Step caps l (release handle l).1
  settling :
      (handle : Text) (amount : ℕ) (l : Ledger)
      → NotAbove handle amount l.costs
      → Step caps l (settle handle (finite amount) l).1
  disabling : (sid reason now : Text) (l : Ledger) → Step caps l (disable_session sid reason now l)

pub data Reach (caps : Caps) (s : Ledger) : Ledger → Type 0 where
  here : Reach caps s s
  next : {t u : Ledger} → Reach caps s t → Step caps t u → Reach caps s u
