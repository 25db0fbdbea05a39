-- ===== src/Approvals/Store/Activity.antt =====
-- Which approvals apply after an approval was added or revoked.
use browser_fetch_router.Prelude.{
  ℕ, ◌+◌, ◌*◌, ltb, ◌&&◌, ◌||◌, ◌≡◌, inl, inr, refl, sym, ap, Bool, true, false, [], ◌∷◌, ◌++◌,
  keep, Bool-cases, if◌then◌else◌,
}
use browser_fetch_router.Prelude.Text.{Text, text_eq}
use browser_fetch_router.UrlSafety.Result.{ok, of_bind_ok, ok_inj}
use browser_fetch_router.UrlSafety.SplitUrl.{Unicode}
use browser_fetch_router.Approvals.Scopes.{normalize_scope}
use browser_fetch_router.Approvals.Store.{
  Approval, Store, without, new_record, add_approval, is_active, list_active_scopes,
}

list_active_scopes-append :
    (session_id : Text) (now : ℕ) (store : Store) (r : Approval)
    → list_active_scopes session_id now (store ++ (r ∷ []))
      ≡ list_active_scopes session_id now store
        ++ (if is_active session_id now r then r.scope ∷ [] else [])
unfolding list_active_scopes keep
list_active_scopes-append session_id now [] r = elim (Bool-cases (is_active session_id now r)) [
  | inl e ↦ rw e refl
  | inr e ↦ rw e refl
]
list_active_scopes-append session_id now (s ∷ store) r =
    let rest = list_active_scopes-append session_id now store r in
    elim (Bool-cases (is_active session_id now s)) [
      | inl e ↦ rw e (ap (λ l. s.scope ∷ l) rest)
      | inr e ↦ rw e rest
    ]

new-is_active :
    (scope session_id asking : Text) (persisted : Bool) (expires_seconds added now : ℕ)
    → is_active asking now (new_record scope session_id persisted expires_seconds added)
      ≡ (persisted || (ltb now (added + expires_seconds * 1000000) && text_eq session_id asking))
unfolding is_active new_record
new-is_active scope session_id asking true expires_seconds added now = refl
new-is_active scope session_id asking false expires_seconds added now = refl

module _ (u : Unicode) (scope : Text) (store : Store) (asking : Text) (now : ℕ) where
  -- After `add_approval`, the scopes that apply to a session are those of the other records and
  -- then the new one, which applies if it is persisted, or if the session is its own and it has
  -- not expired.
  pub add_approval-list :
      (session_id : Text) (persisted : Bool) (expires_seconds added : ℕ) (r : Approval)
      (store' : Store)
      → add_approval u scope session_id persisted expires_seconds added store ≡ ok (r, store')
      → list_active_scopes asking now store'
        ≡ list_active_scopes asking now (without r.scope store)
          ++ (if persisted
                || (ltb now (added + expires_seconds * 1000000) && text_eq session_id asking)
              then r.scope ∷ []
              else [])
  unfolding add_approval
  add_approval-list session_id persisted expires_seconds added r store' h =
      of_bind_ok (normalize_scope u scope) _ h (λ normal is h1.
        let new = new_record normal session_id persisted expires_seconds added in
        let e = ok_inj {a = (new, without normal store ++ (new ∷ []))} {b = (r, store')} h1 in
        rw
          (
            sym (ap (λ p. p.1) e),
            sym (ap (λ p. p.0) e),
            sym (new-is_active normal session_id asking persisted expires_seconds added now),
          )
          (list_active_scopes-append asking now (without normal store) new))
