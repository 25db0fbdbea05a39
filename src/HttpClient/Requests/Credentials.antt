-- ===== src/HttpClient/Requests/Credentials.antt =====
-- What redirects do to the method, the body and the headers that name a user.
use browser_fetch_router.Prelude.{
  or_false, ℕ, ◌≡◌, ◌⊎◌, inl, inr, refl, sym, ap, ◌∙◌, Bool, false, not, Option, none, some, [],
  ◌∷◌, All, keep, any, arith, Bool-cases,
}
use browser_fetch_router.Prelude.Text.{Text, codes, text_eq, eq_of_text_eq, lower, upper}
use browser_fetch_router.UrlSafety.Result.{ok, ok_inj}
use browser_fetch_router.UrlSafety.SplitUrl.{SplitResult, urlsplit, hostname}
use browser_fetch_router.UrlSafety.Normalize.{normalize_and_validate_url}
use browser_fetch_router.HttpClient.Headers.{Headers}
use browser_fetch_router.HttpClient.Transport.{Bytes, Wire, Call, SafeResponse, prepare}
use browser_fetch_router.HttpClient.Transport.Pinned.{prepare-IsPinned}
use browser_fetch_router.HttpClient.Requests.{
  Client, Options, State, Sent, advance, drops_body, is_secret, host_headers, next_state, request,
}
use browser_fetch_router.HttpClient.Requests.Follow.{next_state-IsFollowed, request-All}
use browser_fetch_router.HttpClient.Requests.Trace.{run_hops-All}

-- Whether an Authorization or Cookie header is among the headers.
pub has_secret : Headers → Bool
has_secret headers = any (λ ((k, v) : Text × Text). is_secret k) headers

has_secret-keep_public :
    (headers : Headers)
    → has_secret (keep (λ ((k, v) : Text × Text). not (is_secret k)) headers) ≡ false
unfolding has_secret any keep
has_secret-keep_public [] = refl
has_secret-keep_public ((k, v) ∷ headers) = elim (Bool-cases (is_secret k)) [
  | inl e ↦ rw e (has_secret-keep_public headers)
  | inr e ↦ rw e (rw e (has_secret-keep_public headers))
]

has_secret-keep :
    (p : Text × Text → Bool) (headers : Headers)
    → has_secret headers ≡ false
    → has_secret (keep p headers) ≡ false
unfolding has_secret any keep
has_secret-keep p [] h = refl
has_secret-keep p ((k, v) ∷ headers) h =
    let (here, rest) = or_false (is_secret k) _ h in
    elim (Bool-cases (p (k, v))) [
      | inl e ↦ rw e (rw here (has_secret-keep p headers rest))
      | inr e ↦ rw e (has_secret-keep p headers rest)
    ]

host_headers-public :
    (last new host : Text) (headers : Headers)
    → (has_secret headers ≡ false) ⊎ (lower last ≡ lower host)
    → (has_secret (host_headers last new headers) ≡ false) ⊎ (lower new ≡ lower host)
unfolding host_headers
host_headers-public last new host headers h = elim (Bool-cases (text_eq (lower new) (lower last))) [
  | inr other ↦ inl (rw other (has_secret-keep_public headers))
  | inl same ↦ elim h [
    | inl public ↦ inl (rw same public)
    | inr stays ↦ inr (eq_of_text_eq (lower new) (lower last) same ∙ stays)
  ]
]

advance-public :
    (s : State) (status : ℕ) (url new : Text)
    → has_secret (host_headers s.last_host new s.call.headers) ≡ false
    → has_secret (advance s status url new).call.headers ≡ false
unfolding advance
advance-public s status url new h = elim (Bool-cases (drops_body status)) [
  | inl e ↦ rw e (has_secret-keep _ (host_headers s.last_host new s.call.headers) h)
  | inr e ↦ rw e h
]

advance-url :
    (s : State) (status : ℕ) (url host : Text) → (advance s status url host).call.url ≡ url
unfolding advance
advance-url s status url host = ground arith

advance-last_host :
    (s : State) (status : ℕ) (url host : Text) → (advance s status url host).last_host ≡ host
unfolding advance
advance-last_host s status url host = refl

module _ (client : Client) (options : Options) where
  record Secrecy (host : Text) (s : State) : Type 0 where
    pub parts : SplitResult
    pub split : urlsplit client.unicode s.call.url ≡ ok parts
    pub current : s.last_host ≡ hostname parts
    pub kept : (has_secret s.call.headers ≡ false) ⊎ (lower s.last_host ≡ lower host)

  step-Secrecy :
      (host : Text) (s next : State) (response : SafeResponse)
      → Secrecy host s
      → next_state client options s response ≡ ok (some next)
      → Secrecy host next
  step-Secrecy host s next response i n =
      let f = next_state-IsFollowed client options s next response n in
      let status = response.status_code in
      let new = hostname f.parts in
      rw f.result (record {
        parts = f.parts;
        split = rw (advance-url s status f.new_url new) f.split;
        current = advance-last_host s status f.new_url new;
        kept = elim (host_headers-public s.last_host new host s.call.headers i.kept) [
          | inl public ↦ inl (advance-public s status f.new_url new public)
          | inr same ↦ inr (rw (advance-last_host s status f.new_url new) same)
        ];
      })

  sent_host :
      (host : Text) (hop : ℕ) (t : State) (wire : Wire)
      → Secrecy host t
      → prepare client.network client.loopback_ok client.unicode hop t.call ≡ ok wire
      → (has_secret t.call.headers ≡ false) ⊎ (lower wire.hostname ≡ lower host)
  sent_host host hop t wire i p =
      let pinned =
        prepare-IsPinned client.network client.loopback_ok client.unicode hop t.call wire p in
      elim i.kept [
        | inl public ↦ inl public
        | inr stays ↦ inr (
            ap lower (
              pinned.named
              ∙ ap hostname (ok_inj {a = pinned.parts} {b = i.parts} (sym pinned.split ∙ i.split))
              ∙ sym i.current)
            ∙ stays)
      ]

  same_parts :
      (first url : Text) (r parts : SplitResult)
      → first ≡ url
      → urlsplit client.unicode first ≡ ok r
      → urlsplit client.unicode url ≡ ok parts
      → parts ≡ r
  same_parts first url r parts e split split' =
      ok_inj {a = parts} {b = r} (sym split' ∙ ap (urlsplit client.unicode) (sym e) ∙ split)

  -- No Authorization or Cookie header is sent to a host other than that of the first URL: a request
  -- either carries none, or its host is that host, in any case of its letters. A header that was
  -- dropped at a redirect does not come back on a later one.
  pub request-secret :
      (method url : Text) (body : Option Bytes) (headers : Headers) (first : Text) (r : SplitResult)
      → normalize_and_validate_url client.unicode client.loopback_ok url ≡ ok first
      → urlsplit client.unicode first ≡ ok r
      → All
          (λ (s : Sent).
            (has_secret s.call.headers ≡ false) ⊎ (lower s.wire.hostname ≡ lower (hostname r)))
          (request client options method url body headers).sent
  request-secret method url body headers first r valid split =
      request-All client options
        (λ (s : Sent).
          (has_secret s.call.headers ≡ false) ⊎ (lower s.wire.hostname ≡ lower (hostname r)))
        method url body headers
        (λ warning s admitted.
          run_hops-All client options (Secrecy (hostname r))
            (λ (s : Sent).
              (has_secret s.call.headers ≡ false) ⊎ (lower s.wire.hostname ≡ lower (hostname r)))
            (λ hop t wire i p. sent_host (hostname r) hop t wire i p)
            (λ t next response i n. step-Secrecy (hostname r) t next response i n) 10 0 s
            (record {
              parts = admitted.parts;
              split = admitted.split;
              current = admitted.host;
              kept = inr (
                  ap lower (
                    admitted.host
                    ∙ ap hostname (
                        same_parts first s.call.url r admitted.parts
                          (ok_inj (sym valid ∙ admitted.valid)) split admitted.split)));
            }))

  -- The caller's method and body, or GET without one.
  IsCallers : Text → Option Bytes → Call → Type 0
  IsCallers method body call =
      ((call.method ≡ method) × (call.body ≡ body))
      ⊎ ((call.method ≡ codes "GET") × (call.body ≡ none))

  advance-IsCallers :
      (method : Text) (body : Option Bytes) (s : State) (status : ℕ) (url new : Text)
      → IsCallers method body s.call
      → IsCallers method body (advance s status url new).call
  unfolding IsCallers advance
  advance-IsCallers method body s status url new h = elim (Bool-cases (drops_body status)) [
    | inl e ↦ rw e (inr (refl, refl))
    | inr e ↦ rw e h
  ]

  -- The body is sent with the caller's own method or not at all: each request has the caller's
  -- method and body, or it is a GET without a body.
  pub request-body :
      (method url : Text) (body : Option Bytes) (headers : Headers)
      → All
          (λ (s : Sent).
            ((s.call.method ≡ upper method) × (s.wire.body ≡ body))
            ⊎ ((s.call.method ≡ codes "GET") × (s.wire.body ≡ none)))
          (request client options method url body headers).sent
  unfolding IsCallers
  request-body method url body headers =
      request-All client options _ method url body headers (λ warning s admitted.
        run_hops-All client options (λ t. IsCallers (upper method) body t.call)
          (λ (t : Sent).
            ((t.call.method ≡ upper method) × (t.wire.body ≡ body))
            ⊎ ((t.call.method ≡ codes "GET") × (t.wire.body ≡ none)))
          (λ hop t wire i p.
            let kept =
              (prepare-IsPinned client.network client.loopback_ok client.unicode hop t.call wire
                p).body_kept in
            elim i [ inl (m, b) ↦ inl (m, kept ∙ b) | inr (m, b) ↦ inr (m, kept ∙ b) ])
          (λ t next response i n.
            let f = next_state-IsFollowed client options t next response n in
            rw f.result (
              advance-IsCallers (upper method) body t response.status_code f.new_url
                (hostname f.parts) i))
          10 0 s (inl (admitted.method_kept, admitted.body_kept)))
