-- ===== src/Cdp/Draining.antt =====
-- The loop that waits for the answer to a command.
use browser_fetch_router.Prelude.{
  ℕ, zero, suc, ◌+◌, ◌≤◌, ◌<◌, ◌≡◌, refl, inl, inr, Bool, true, Option, none, some, List, [], ◌∷◌,
  ◌++◌, map, length, All, Option-cases, arith,
}
use browser_fetch_router.Prelude.Text.{Text}
use browser_fetch_router.UrlSafety.Result.{protocol_error, cdp, Result, err}
use browser_fetch_router.Json.{Json, Fields}
use browser_fetch_router.Cdp.Chat.{
  Socket, max_drain_messages, read_message, drain, write, receive, send_cdp_command, after,
}

module _ (loads : Text → Option Json) where
  -- A message that is JSON and no answer to this command.
  abbrev pub IsUnrelated : ℕ → Text → Type 0
  IsUnrelated id raw = read_message loads id raw ≡ none

  drain-length :
      (left id : ℕ) (incoming : List (Option Text))
      → length incoming ≤ length (drain loads left id incoming).1 + left
  unfolding drain
  drain-length zero id incoming = omega arith
  drain-length (suc left) id [] = omega arith
  drain-length (suc left) id (none ∷ incoming) = omega arith
  drain-length (suc left) id (some raw ∷ incoming) =
      elim (Option-cases (read_message loads id raw)) [
        | inl e ↦ rw (e, drain) (omega (arith, drain-length left id incoming))
        | inr (result, e) ↦ rw (e, drain) (omega arith)
      ]

  drain_found :
      (left id : ℕ) (skipped : List Text) (raw : Text) (result : Result Fields)
      (rest : List (Option Text))
      → length skipped < left
      → All (IsUnrelated id) skipped
      → read_message loads id raw ≡ some result
      → drain loads left id (map some skipped ++ (some raw ∷ rest)) ≡ (result, rest)
  unfolding drain
  drain_found zero id skipped raw result rest n h e = absurd (omega arith)
  drain_found (suc left) id [] raw result rest n h e = rw (e, drain) refl
  drain_found (suc left) id (m ∷ skipped) raw result rest n h e =
      rw (h.0, drain) (drain_found left id skipped raw result rest (omega arith) h.1 e)

  drain_silent :
      (left id : ℕ) (skipped : List Text) (rest : List (Option Text))
      → length skipped ≡ left
      → All (IsUnrelated id) skipped
      → drain loads left id (map some skipped ++ rest) ≡ (err (cdp protocol_error), rest)
  unfolding drain
  drain_silent zero id [] rest n h = refl
  drain_silent zero id (m ∷ skipped) rest n h = absurd (omega arith)
  drain_silent (suc left) id [] rest n h = absurd (omega arith)
  drain_silent (suc left) id (m ∷ skipped) rest n h =
      rw (h.0, drain) (drain_silent left id skipped rest (omega arith) h.1)

  -- Whatever arrives, a command reads at most a hundred messages before it returns or raises.
  pub send_cdp_command-length :
      (id : ℕ) (method : Text) (params : Option Fields) (s : Socket)
      → length s.incoming
        ≤ length (send_cdp_command loads id method params s).1.incoming + max_drain_messages
  unfolding send_cdp_command after write receive
  send_cdp_command-length id method params s =
      ground (arith, drain-length max_drain_messages id s.incoming)

  -- If the socket takes the command, and its answer arrives behind fewer than a hundred messages that
  -- are JSON and no answer to it, the command returns what the answer holds, and the messages behind
  -- the answer are left.
  pub send_cdp_command-answered :
      (id : ℕ) (method : Text) (params : Option Fields) (s : Socket) (writes : List Bool)
      (skipped : List Text) (raw : Text) (result : Result Fields) (rest : List (Option Text))
      → s.writes ≡ true ∷ writes
      → s.incoming ≡ map some skipped ++ (some raw ∷ rest)
      → length skipped < max_drain_messages
      → All (IsUnrelated id) skipped
      → read_message loads id raw ≡ some result
      → let out = send_cdp_command loads id method params s in
        (out.0 ≡ result)
        × (out.1.incoming ≡ rest)
        × (out.1.sent ≡ record { id = id; method = method; params = params } ∷ s.sent)
  unfolding send_cdp_command after write receive
  send_cdp_command-answered id method params s writes skipped raw result rest w i n h e =
      rw (w, i, drain_found max_drain_messages id skipped raw result rest n h e) (refl, refl, refl)

  -- If it takes the command and a hundred messages arrive that are no answer, it raises.
  pub send_cdp_command-silent :
      (id : ℕ) (method : Text) (params : Option Fields) (s : Socket) (writes : List Bool)
      (skipped : List Text) (rest : List (Option Text))
      → s.writes ≡ true ∷ writes
      → s.incoming ≡ map some skipped ++ rest
      → length skipped ≡ max_drain_messages
      → All (IsUnrelated id) skipped
      → (send_cdp_command loads id method params s).0 ≡ err (cdp protocol_error)
  unfolding send_cdp_command after write receive
  send_cdp_command-silent id method params s writes skipped rest w i n h =
      rw (w, i, drain_silent max_drain_messages id skipped rest n h) refl
