-- ===== src/HttpClient/Requests/Trace.antt =====
-- An invariant of the redirect loop holds of all that is sent.
use browser_fetch_router.Prelude.{
  ℕ, zero, suc, ◌≤◌, ◌≡◌, inl, inr, refl, ◌∙◌, ap, none, some, [], ◌∷◌, All, length, arith,
}
use browser_fetch_router.UrlSafety.Result.{ok, Result-cases, of_bind_ok, ok_inj}
use browser_fetch_router.HttpClient.Transport.{Wire, SafeResponse, prepare, receive}
use browser_fetch_router.HttpClient.Requests.{
  Client, Options, State, Sent, next_state, exchange, run_hops,
}

module _ (client : Client) (options : Options) where
  exchange-next :
      (hop : ℕ) (s next : State) (wire : Wire) (response : SafeResponse)
      → exchange client options hop s wire ≡ ok (response, some next)
      → (r : SafeResponse) × (next_state client options s r ≡ ok (some next))
  unfolding exchange
  exchange-next hop s next wire response h =
      of_bind_ok
        (receive client.network client.loopback_ok client.unicode options.max_bytes hop s.call wire)
        _ h
        (λ r received h1. of_bind_ok (next_state client options s r) _ h1 (λ n is h2.
          (r, is ∙ ap (λ p. ok p.1) (ok_inj {a = (r, n)} {b = (response, some next)} h2))))

  abbrev sent_of : ℕ → State → Wire → Sent
  sent_of hop s wire = record { hop = hop; call = s.call; wire = wire }

  -- The three ways in which a hop goes on.
  data Hop (left hop : ℕ) (s : State) : Type 0 where
    refused : (run_hops client options (suc left) hop s).1 ≡ [] → Hop left hop s
    last :
        (wire : Wire)
        → prepare client.network client.loopback_ok client.unicode hop s.call ≡ ok wire
        → (run_hops client options (suc left) hop s).1 ≡ sent_of hop s wire ∷ []
        → Hop left hop s
    followed :
        (wire : Wire) (response : SafeResponse) (next : State)
        → prepare client.network client.loopback_ok client.unicode hop s.call ≡ ok wire
        → next_state client options s response ≡ ok (some next)
        → (run_hops client options (suc left) hop s).1
          ≡ sent_of hop s wire ∷ (run_hops client options left (suc hop) next).1
        → Hop left hop s

  Hop-cases : (left hop : ℕ) (s : State) → Hop left hop s
  unfolding run_hops
  Hop-cases left hop s =
      elim (Result-cases (prepare client.network client.loopback_ok client.unicode hop s.call)) [
        | inr (e, bad) ↦ refused (rw (run_hops, bad) refl)
        | inl (wire, sends) ↦ elim (Result-cases (exchange client options hop s wire)) [
          | inr (e, bad) ↦ last wire sends (rw (run_hops, sends, bad) refl)
          | inl ((response, none), done) ↦ last wire sends (rw (run_hops, sends, done) refl)
          | inl ((response, some next), more) ↦
              let (r, is) = exchange-next hop s next wire response more in
              followed wire r next sends is (rw (run_hops, sends, more) refl)
        ]
      ]

  pub run_hops-All {ℓ} :
      (I : State → Type 0) (Q : Sent → Type ℓ)
      → ((hop : ℕ) (s : State) (wire : Wire)
          → I s
          → prepare client.network client.loopback_ok client.unicode hop s.call ≡ ok wire
          → Q (record { hop = hop; call = s.call; wire = wire }))
      → ((s next : State) (response : SafeResponse)
          → I s
          → next_state client options s response ≡ ok (some next)
          → I next)
      → (left hop : ℕ) (s : State) → I s
      → All Q (run_hops client options left hop s).1
  unfolding run_hops
  run_hops-All I Q sends steps zero hop s i = tt
  run_hops-All I Q sends steps (suc left) hop s i = elim (Hop-cases left hop s) [
    | refused e ↦ rw e tt
    | last wire p e ↦ rw e (sends hop s wire i p, tt)
    | followed wire response next p n e ↦ rw e (
      sends hop s wire i p,
      run_hops-All I Q sends steps left (suc hop) next (steps s next response i n),
    )
  ]

  pub run_hops-length :
      (left hop : ℕ) (s : State) → length (run_hops client options left hop s).1 ≤ left
  unfolding run_hops
  run_hops-length zero hop s = omega arith
  run_hops-length (suc left) hop s = elim (Hop-cases left hop s) [
    | refused e ↦ rw e (omega arith)
    | last wire p e ↦ rw e (omega arith)
    | followed wire response next p n e ↦ rw e (omega (arith, run_hops-length left (suc hop) next))
  ]

  pub run_hops-single :
      ((s next : State) (response : SafeResponse)
        → ¬ (next_state client options s response ≡ ok (some next)))
      → (left hop : ℕ) (s : State) → length (run_hops client options left hop s).1 ≤ 1
  unfolding run_hops
  run_hops-single stays zero hop s = omega arith
  run_hops-single stays (suc left) hop s = elim (Hop-cases left hop s) [
    | refused e ↦ rw e (omega arith)
    | last wire p e ↦ rw e (omega arith)
    | followed wire response next p n e ↦ absurd (stays s next response n)
  ]
