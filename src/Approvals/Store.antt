-- ===== src/Approvals/Store.antt =====
-- The approval store of browser_fetch_router/approvals.py: `add_approval`, `list_active_scopes` and
-- `revoke_scope`. Each operation holds the store's lock while it reads and writes the file, so the
-- model is a function on the list of records; a file that is missing or cannot be read is the
-- empty list. Times are numbers of microseconds.
pub mod Uniqueness
pub mod Activity
use browser_fetch_router.Prelude.{
  ℕ, ◌+◌, ◌-◌, ◌*◌, Bool, true, false, not, ◌&&◌, ◌||◌, Option, none, some, List, [], ◌∷◌, ◌++◌,
  map, keep, length, ltb, if◌then◌else◌,
}
use browser_fetch_router.Prelude.Text.{Text, text_eq}
use browser_fetch_router.UrlSafety.Result.{Result, ok, err, ◌>>=◌}
use browser_fetch_router.UrlSafety.SplitUrl.{Unicode}
use browser_fetch_router.Approvals.Scopes.{normalize_scope}

-- `expires_at` as `datetime.fromisoformat` reads it.
pub data Expiry : Type 0 where
  never unreadable : Expiry
  at_time : ℕ → Expiry

pub record Approval : Type 0 where
  pub scope : Text
  pub session_id : Text
  pub persisted : Bool
  pub created_at : ℕ
  pub expires_at : Expiry

abbrev pub Store : Type 0
Store = List Approval

abbrev pub session_ttl_seconds : ℕ
session_ttl_seconds = 8 * 60 * 60

-- `[s for s in data["scopes"] if s.get("scope") != scope]`.
unfoldable pub without : Text → Store → Store
without scope store = keep (λ (s : Approval). not (text_eq s.scope scope)) store

unfoldable pub new_record : Text → Text → Bool → ℕ → ℕ → Approval
new_record scope session_id persisted expires_seconds now = record {
  scope = scope;
  session_id = session_id;
  persisted = persisted;
  created_at = now;
  expires_at = if persisted then never else at_time (now + expires_seconds * 1000000);
}

unfoldable pub add_approval :
    Unicode → Text → Text → Bool → ℕ → ℕ → Store → Result (Approval × Store)
unfolding without new_record
add_approval u scope session_id persisted expires_seconds now store = do
  scope ← normalize_scope u scope
  ok (
    new_record scope session_id persisted expires_seconds now,
    without scope store ++ (new_record scope session_id persisted expires_seconds now ∷ []),
  )

-- Whether a record applies to this session now.
unfoldable pub is_active : Text → ℕ → Approval → Bool
is_active session_id now s = if s.persisted then true else elim s.expires_at [
  | never ↦ false
  | unreadable ↦ false
  | at_time t ↦ ltb now t && text_eq s.session_id session_id
]

unfoldable pub list_active_scopes : Text → ℕ → Store → List Text
unfolding is_active
list_active_scopes session_id now store =
    map (λ (s : Approval). s.scope) (keep (is_active session_id now) store)

pub record Revoked : Type 0 where
  pub removed : ℕ
  pub scope : Text

-- The file is written only if something was removed; otherwise it has the same records anyway.
unfoldable pub revoke_scope : Unicode → Text → Store → Result (Revoked × Store)
unfolding without
revoke_scope u scope store = do
  scope ← normalize_scope u scope
  ok (
    record { removed = length store - length (without scope store); scope = scope },
    without scope store,
  )
