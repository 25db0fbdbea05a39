-- ===== src/Lifecycle/SessionId.antt =====
-- `validate_session_id` of browser_fetch_router/lifecycle.py and `current_session_id` of
-- browser_fetch_router/session.py. The environment variable and the new uuid are arguments.
use browser_fetch_router.Prelude.{
  ℕ, Bool, true, false, ◌&&◌, ◌||◌, Option, none, some, ◌++◌, length, leb, ◌==◌, all, if◌then◌else◌,
}
use browser_fetch_router.Prelude.Text.{Text, codes, is_alpha, is_digit}

is_id_char : ℕ → Bool
is_id_char c = is_alpha c || (is_digit c || (c == b'_' || c == b'-'))

-- `none` is InvalidSessionId.
unfoldable pub validate_session_id : Text → Option Text
unfolding is_id_char
validate_session_id s =
    if all is_id_char s && (leb 1 (length s) && leb (length s) 64) then some s else none

pub data Current : Type 0 where
  invalid_session_id no_session : Current
  -- the id, and whether it is a new one that is put in the environment
  session : Text → Bool → Current

of_valid : Option Text → Bool → Current
of_valid none is_new = invalid_session_id
of_valid (some s) is_new = session s is_new

unfoldable pub current_session_id : Bool → Option Text → Text → Current
unfolding of_valid
current_session_id optional (some value) uuid = of_valid (validate_session_id value) false
current_session_id optional none uuid =
    if optional then no_session else of_valid (validate_session_id (codes "bfr-" ++ uuid)) true
