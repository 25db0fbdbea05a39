-- ===== src/Approvals/Store/Uniqueness.antt =====
-- A scope has one record at most.
use browser_fetch_router.Prelude.{
  ℕ, ◌≡◌, inl, inr, sym, ap, ◌∙◌, Bool, false, [], ◌∷◌, ◌++◌, All, All-append, All-keep, keep,
  Bool-cases,
}
use browser_fetch_router.Prelude.Text.{Text, text_eq, text_eq_refl, eq_of_text_eq}
use browser_fetch_router.UrlSafety.Result.{ok, of_bind_ok, ok_inj}
use browser_fetch_router.UrlSafety.SplitUrl.{Unicode}
use browser_fetch_router.Approvals.Scopes.{normalize_scope}
use browser_fetch_router.Approvals.Store.{Approval, Store, without, new_record, add_approval}

-- No two records have the same scope.
unfoldable pub IsUnique : Store → Type 0
IsUnique [] = Unit {0}
IsUnique (s ∷ store) =
    All (λ (t : Approval). text_eq t.scope s.scope ≡ false) store × IsUnique store

pub without-All :
    (scope : Text) (store : Store)
    → All (λ (t : Approval). text_eq t.scope scope ≡ false) (without scope store)
unfolding without keep
without-All scope [] = tt
without-All scope (s ∷ store) = elim (Bool-cases (text_eq s.scope scope)) [
  | inl e ↦ rw e (without-All scope store)
  | inr e ↦ rw e (e, without-All scope store)
]

without-IsUnique : (scope : Text) (store : Store) → IsUnique store → IsUnique (without scope store)
unfolding without keep IsUnique
without-IsUnique scope [] h = h
without-IsUnique scope (s ∷ store) h = elim (Bool-cases (text_eq s.scope scope)) [
  | inl e ↦ rw e (without-IsUnique scope store h.1)
  | inr e ↦ rw e (All-keep _ _ store h.0, without-IsUnique scope store h.1)
]

differ_sym : (s t : Text) → text_eq s t ≡ false → text_eq t s ≡ false
differ_sym s t h = elim (Bool-cases (text_eq t s)) [
  | inr e ↦ e
  | inl e ↦ absurd (same (eq_of_text_eq t s e))
]
  where
    same : t ≡ s → ⊥
    same e = let r = text_eq_refl s in cc (rw e at h)

append-IsUnique :
    (store : Store) (r : Approval)
    → All (λ (t : Approval). text_eq t.scope r.scope ≡ false) store
    → IsUnique store
    → IsUnique (store ++ (r ∷ []))
unfolding IsUnique
append-IsUnique [] r h unique = (tt, tt)
append-IsUnique (s ∷ store) r h unique = (
  All-append _ store (r ∷ []) unique.0 (differ_sym s.scope r.scope h.0, tt),
  append-IsUnique store r h.1 unique.1,
)

module _ (u : Unicode) (scope : Text) where
  -- `add_approval` keeps a store without two records of one scope so, and the record that it returns
  -- is the last of the store, under the normal form of the scope.
  pub add_approval-IsUnique :
      (session_id : Text) (persisted : Bool) (expires_seconds now : ℕ) (store store' : Store)
      (r : Approval)
      → IsUnique store
      → add_approval u scope session_id persisted expires_seconds now store ≡ ok (r, store')
      → (kept : Store) × (store' ≡ kept ++ (r ∷ []))
        × (normalize_scope u scope ≡ ok r.scope)
        × IsUnique store'
  unfolding add_approval new_record
  add_approval-IsUnique session_id persisted expires_seconds now store store' r unique h =
      of_bind_ok (normalize_scope u scope) _ h (λ normal is h1.
        let new = new_record normal session_id persisted expires_seconds now in
        let e = ok_inj {a = (new, without normal store ++ (new ∷ []))} {b = (r, store')} h1 in
        let er = ap (λ p. p.0) e in
        let es = ap (λ p. p.1) e in
        (
          without normal store,
          sym es ∙ ap (λ x. without normal store ++ (x ∷ [])) er,
          is ∙ ap (λ x. ok x.scope) er,
          rw (sym es) (
              append-IsUnique (without normal store) new (without-All normal store)
                (without-IsUnique normal store unique)),
        ))
