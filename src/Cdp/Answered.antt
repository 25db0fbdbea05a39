-- ===== src/Cdp/Answered.antt =====
-- Conversations in steps, and the messages that an answer comes from.
use mathlib.Core.List.{append_assoc}
use browser_fetch_router.Prelude.{
  ℕ, zero, suc, ◌≡◌, refl, sym, ap, ◌∙◌, inl, inr, Bool, true, false, Option, none, some, List, [],
  ◌∷◌, ◌++◌, All, Option-cases,
}
use browser_fetch_router.Prelude.Text.{Text}
use browser_fetch_router.UrlSafety.Result.{Error, Result, ok, err}
use browser_fetch_router.Json.{Json, Fields}
use browser_fetch_router.Cdp.Chat.{
  Command, Socket, max_drain_messages, Chat, after, ◌>>=◌, lift, read_message, drain, write,
  receive, send_cdp_command,
}

-- The two rules for a conversation in steps: all outcomes, and success.
pub of_chat {ℓ κ μ} :
    {A : Type ℓ} {B : Type κ} (Q : Result B × Socket → Type μ) (first : Chat A) (rest : A → Chat B)
    (s : Socket)
    → ((e : Error) (t : Socket) → first s ≡ (err e, t) → Q (err e, t))
    → ((a : A) (t : Socket) → first s ≡ (ok a, t) → Q (rest a t))
    → Q ((first >>= rest) s)
unfolding after
of_chat {A} {B} Q first rest s failed went = go (first s) refl
  where
    go : (r : Result A × Socket) → first s ≡ r → Q (after r rest)
    go (err e, t) h = failed e t h
    go (ok a, t) h = went a t h

pub of_chat_ok {ℓ κ μ} :
    {A : Type ℓ} {B : Type κ} {C : Type μ} (first : Chat A) (rest : A → Chat B) (s : Socket) {b : B}
    → ((first >>= rest) s).0 ≡ ok b
    → ((a : A) (t : Socket) → first s ≡ (ok a, t) → (rest a t).0 ≡ ok b → C)
    → C
unfolding after
of_chat_ok {A} {B} {C} first rest s {b} h next = go (first s) refl h
  where
    go : (r : Result A × Socket) → first s ≡ r → (after r rest).0 ≡ ok b → C
    go (err e, t) eq h = absurd (cc)
    go (ok a, t) eq h = next a t eq h

pub of_lift_ok {ℓ κ μ} :
    {A : Type ℓ} {B : Type κ} {C : Type μ} (m : Result A) (rest : A → Chat B) (s : Socket) {b : B}
    → ((lift m >>= rest) s).0 ≡ ok b
    → ((a : A) → m ≡ ok a → (rest a s).0 ≡ ok b → C)
    → C
unfolding after
of_lift_ok (ok a) rest s h next = next a refl h
of_lift_ok (err e) rest s h next = absurd (cc)

module _ (loads : Text → Option Json) where
  -- Messages that stand behind others.
  abbrev pub IsBehind : List (Option Text) → List (Option Text) → Type 0
  IsBehind later incoming = (front : List (Option Text)) × (incoming ≡ front ++ later)

  -- One of the messages is the answer to a command, with this result.
  pub record IsAnswer (id : ℕ) (result : Fields) (incoming : List (Option Text)) : Type 0 where
    pub raw : Text
    pub rest : List (Option Text)
    pub among : IsBehind (some raw ∷ rest) incoming
    pub read : read_message loads id raw ≡ some (ok result)

  pub IsBehind-trans : (a b c : List (Option Text)) → IsBehind b a → IsBehind c b → IsBehind c a
  IsBehind-trans a b c (front, h) (middle, k) =
      (front ++ middle, h ∙ (ap (λ l. front ++ l) k ∙ sym (append_assoc front middle c)))

  IsBehind-one : (x : Option Text) (a b : List (Option Text)) → IsBehind (x ∷ b) a → IsBehind b a
  IsBehind-one x a b h = IsBehind-trans a (x ∷ b) b h (x ∷ [], refl)

  pub IsAnswer-behind :
      (id : ℕ) (result : Fields) (a b : List (Option Text))
      → IsBehind b a
      → IsAnswer id result b
      → IsAnswer id result a
  IsAnswer-behind id result a b h r = record {
    raw = r.raw;
    rest = r.rest;
    among = IsBehind-trans a b (some r.raw ∷ r.rest) h r.among;
    read = r.read;
  }

  drain_ok :
      (left id : ℕ) (incoming rest : List (Option Text)) (result : Fields)
      → drain loads left id incoming ≡ (ok result, rest)
      → IsAnswer id result incoming × IsBehind rest incoming
  unfolding drain
  drain_ok zero id incoming rest result = λ h. absurd (cc)
  drain_ok (suc left) id [] rest result = λ h. absurd (cc)
  drain_ok (suc left) id (none ∷ incoming) rest result = λ h. absurd (cc)
  drain_ok (suc left) id (some raw ∷ incoming) rest result =
      let one : IsBehind incoming (some raw ∷ incoming) = (some raw ∷ [], refl) in
      elim (Option-cases (read_message loads id raw)) [
        | inl e ↦
            rw (e, drain)
              λ h.
                let more = drain_ok left id incoming rest result h in
                (
                  IsAnswer-behind id result (some raw ∷ incoming) incoming one more.0,
                  IsBehind-trans (some raw ∷ incoming) incoming rest one more.1,
                )
        | inr (r, e) ↦
            rw (e, drain)
              λ h. (
                record {
                  raw = raw;
                  rest = incoming;
                  among = ([], refl);
                  read = rw e (ap some (ap (λ p. p.0) h));
                },
                rw (← ap (λ (p : Result Fields × List (Option Text)). p.1) h) one,
              )
      ]

  -- A command that succeeds has read its answer.
  pub send_cdp_command-IsAnswer :
      (id : ℕ) (method : Text) (params : Option Fields) (s t : Socket) (result : Fields)
      → send_cdp_command loads id method params s ≡ (ok result, t)
      → IsAnswer id result s.incoming × IsBehind t.incoming s.incoming
  unfolding send_cdp_command after write receive
  send_cdp_command-IsAnswer id method params s t result h = go s.writes refl h
    where
      go :
          (w : List Bool)
          → s.writes ≡ w
          → after
              (write loads (record { id = id; method = method; params = params }) s)
              (λ done. receive loads id)
            ≡ (ok result, t)
          → IsAnswer id result s.incoming × IsBehind t.incoming s.incoming
      go [] e = rw (e, write) λ h. absurd (cc)
      go (false ∷ w) e = rw (e, write) λ h. absurd (cc)
      go (true ∷ w) e =
          rw (e, write)
            λ h.
              drain_ok max_drain_messages id s.incoming t.incoming result
                (ap (λ (p : Result Fields × Socket). (p.0, p.1.incoming)) h)

  -- What is sent: one command at most.
  pub send_cdp_command-All {κ} :
      (P : Command → Type κ) (id : ℕ) (method : Text) (params : Option Fields) (s : Socket)
      → P (record { id = id; method = method; params = params })
      → All P s.sent
      → All P (send_cdp_command loads id method params s).1.sent
  unfolding send_cdp_command after write receive
  send_cdp_command-All P id method params s p h = go s.writes refl
    where
      go :
          (w : List Bool)
          → s.writes ≡ w
          → All P
              (after
                (write loads (record { id = id; method = method; params = params }) s)
                (λ done. receive loads id)).1.sent
      go [] e = rw (e, write) h
      go (false ∷ w) e = rw (e, write) h
      go (true ∷ w) e = rw (e, write) (p, h)

  pub of_send_ok {κ μ} :
      {B : Type κ} {C : Type μ} (id : ℕ) (method : Text) (params : Option Fields)
      (rest : Fields → Chat B) (s : Socket) {b : B}
      → ((send_cdp_command loads id method params >>= rest) s).0 ≡ ok b
      → ((a : Fields) (t : Socket)
          → IsAnswer id a s.incoming
          → IsBehind t.incoming s.incoming
          → (rest a t).0 ≡ ok b
          → C)
      → C
  of_send_ok id method params rest s h next =
      of_chat_ok (send_cdp_command loads id method params) rest s h λ a t e k.
        let read = send_cdp_command-IsAnswer id method params s t a e in next a t read.0 read.1 k
