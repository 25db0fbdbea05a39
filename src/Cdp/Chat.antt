-- ===== src/Cdp/Chat.antt =====
-- `_websocket_connect` and `_send_cdp_command` of browser_fetch_router/cdp.py. A socket is what the
-- next writes and reads give, and the commands that were written, last first.
use browser_fetch_router.Prelude.{
  ℕ, zero, suc, Bool, true, false, Option, none, some, List, [], ◌∷◌, if◌then◌else◌,
}
use browser_fetch_router.Prelude.Text.{Text, codes}
use browser_fetch_router.Prelude.Dict.{get}
use browser_fetch_router.UrlSafety.Result.{
  websocket_dependency_missing, websocket_unavailable, protocol_error, cdp, Result, ok, err,
}
use browser_fetch_router.Json.{Json, Fields, as_dict, lookup, equals_nat}

pub record Command : Type 0 where
  pub id : ℕ
  pub method : Text
  pub params : Option Fields

-- A write that fails is `false`, a read that raises `none`; past the end all of them do.
pub record Socket : Type 0 where
  pub writes : List Bool
  pub incoming : List (Option Text)
  pub sent : List Command

-- `connect` of the sync client: with two timeouts, or with the first alone.
pub data Attempt : Type 0 where
  opened : Socket → Attempt
  type_error raised : Attempt

-- An older client is called again, with fewer arguments.
unfoldable pub websocket_connect : Option (Bool → Text → Attempt) → Text → Result Socket
websocket_connect none ws_url = err (cdp websocket_dependency_missing)
websocket_connect (some connect) ws_url = elim (connect true ws_url) [
  | opened s ↦ ok s
  | raised ↦ err (cdp websocket_unavailable)
  | type_error ↦ elim (connect false ws_url) [
    | opened s ↦ ok s
    | raised ↦ err (cdp websocket_unavailable)
    | type_error ↦ err (cdp websocket_unavailable)
  ]
]

-- A conversation: what it returns or raises, and the socket behind it.
abbrev pub Chat {ℓ} : Type ℓ → Type ℓ
Chat A = Socket → Result A × Socket

unfoldable pub after {ℓ κ} :
    {A : Type ℓ} {B : Type κ} → Result A × Socket → (A → Chat B) → Result B × Socket
after (err e, s) rest = (err e, s)
after (ok a, s) rest = rest a s

infixl 5 ◌>>=◌
abbrev pub ◌>>=◌ {ℓ κ} : {A : Type ℓ} {B : Type κ} → Chat A → (A → Chat B) → Chat B
◌>>=◌ chat rest s = after (chat s) rest

-- A computation that leaves the socket alone.
abbrev pub lift {ℓ} : {A : Type ℓ} → Result A → Chat A
lift m s = (m, s)

abbrev pub max_drain_messages : ℕ
max_drain_messages = 100

-- The `result` of an answer.
unfoldable pub result_of : Fields → Result Fields
result_of answer = elim (as_dict (lookup (codes "result") answer)) [
  | none ↦ err (cdp protocol_error)
  | some result ↦ elim (get (codes "exceptionDetails") result) [
    | some details ↦ err (cdp protocol_error)
    | none ↦ ok result
  ]
]

-- A message that is a dict: `none` is that it is for another command.
unfoldable pub answer_of : ℕ → Fields → Option (Result Fields)
unfolding result_of
answer_of id message =
    if equals_nat (lookup (codes "id") message) id
    then some (elim (get (codes "error") message) [
      | some e ↦ err (cdp protocol_error)
      | none ↦ result_of message
    ])
    else none

module _ (loads : Text → Option Json) where
  unfoldable pub read_message : ℕ → Text → Option (Result Fields)
  unfolding answer_of
  read_message id raw = elim (loads raw) [
    | none ↦ some (err (cdp protocol_error))
    | some message ↦ elim (as_dict message) [ none ↦ none | some d ↦ answer_of id d ]
  ]

  -- The loop over the messages: what it returns or raises, and the messages that are left.
  unfoldable pub drain : ℕ → ℕ → List (Option Text) → Result Fields × List (Option Text)
  drain zero id incoming = (err (cdp protocol_error), incoming)
  drain (suc left) id [] = (err (cdp websocket_unavailable), [])
  drain (suc left) id (none ∷ incoming) = (err (cdp websocket_unavailable), incoming)
  drain (suc left) id (some raw ∷ incoming) = elim (read_message id raw) [
    | none ↦ drain left id incoming
    | some result ↦ (result, incoming)
  ]

  unfoldable pub write : Command → Socket → Result (Unit {0}) × Socket
  write command s = elim s.writes [
    | [] ↦ (err (cdp websocket_unavailable), s)
    | false ∷ writes ↦ (err (cdp websocket_unavailable), record s { writes = writes })
    | true ∷ writes ↦ (ok tt, record s { writes = writes; sent = command ∷ s.sent })
  ]

  unfoldable pub receive : ℕ → Chat Fields
  receive id s =
      let (result, incoming) = drain max_drain_messages id s.incoming in
      (result, record s { incoming = incoming })

  unfoldable pub send_cdp_command : ℕ → Text → Option Fields → Chat Fields
  unfolding write receive
  send_cdp_command id method params =
      write (record { id = id; method = method; params = params }) >>= λ done. receive id
