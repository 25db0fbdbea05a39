-- ===== src/HttpClient/Requests/Follow.antt =====
-- What one turn of the redirect loop has tested, and what the tests before the loop have.
use browser_fetch_router.Prelude.{
  ℕ, ◌≡◌, ◌⊎◌, inl, inr, refl, sym, ap, ◌∙◌, Bool, true, false, ◌&&◌, Option, some, [], All, arith,
  Bool-cases, Option-cases,
}
use browser_fetch_router.Prelude.Text.{Text, upper}
use browser_fetch_router.UrlSafety.Result.{
  unsupported_method, side_effect_like_url, side_effect_redirect_blocked, ok, Result-cases,
  of_bind_ok, of_passed, ok_inj,
}
use browser_fetch_router.UrlSafety.SplitUrl.{SplitResult, urlsplit, hostname}
use browser_fetch_router.UrlSafety.Normalize.{normalize_and_validate_url}
use browser_fetch_router.UrlSafety.Redirect.{validate_redirect, env_allows_https_downgrade}
use browser_fetch_router.HttpClient.SideEffects.{
  should_block_side_effect_redirect, side_effect_warning,
}
use browser_fetch_router.HttpClient.Headers.{Headers}
use browser_fetch_router.HttpClient.Transport.{Bytes, SafeResponse}
use browser_fetch_router.HttpClient.Requests.{
  Client, Options, State, Sent, is_redirect, advance, location_of, redirect_to, next_state,
  run_hops, first_state, admit, request,
}

module _ (client : Client) (options : Options) where
  pub record IsFollowed (s : State) (status : ℕ) (next : State) : Type 0 where
    pub follows : options.follow_redirects ≡ true
    pub redirect : is_redirect status ≡ true
    pub location : Text
    pub new_url : Text
    pub valid :
        validate_redirect client.unicode client.urljoin s.call.url location
          (env_allows_https_downgrade client.downgrade_setting)
          client.loopback_ok
        ≡ ok new_url
    pub not_blocked :
        should_block_side_effect_redirect client.unquote client.unicode options.policy new_url
        ≡ ok false
    pub parts : SplitResult
    pub split : urlsplit client.unicode new_url ≡ ok parts
    pub result : next ≡ advance s status new_url (hostname parts)

  redirect_to-IsFollowed :
      (s next : State) (status : ℕ) (location : Text)
      → options.follow_redirects ≡ true
      → is_redirect status ≡ true
      → redirect_to client options s status location ≡ ok next
      → IsFollowed s status next
  unfolding redirect_to
  redirect_to-IsFollowed s next status location follows redirect h =
      of_bind_ok
        (validate_redirect client.unicode client.urljoin s.call.url location
          (env_allows_https_downgrade client.downgrade_setting) client.loopback_ok)
        _ h
        (λ new_url valid h1.
          of_bind_ok
            (should_block_side_effect_redirect client.unquote client.unicode options.policy new_url)
            _ h1
            (λ blocked tested h2. of_passed blocked side_effect_redirect_blocked _ h2 (λ free h3.
              of_bind_ok (urlsplit client.unicode new_url) _ h3 (λ r split h4. record {
                follows = follows;
                redirect = redirect;
                location = location;
                new_url = new_url;
                valid = valid;
                not_blocked = tested ∙ ap ok free;
                parts = r;
                split = split;
                result = sym (ok_inj {b = next} h4);
              }))))

  pub next_state-IsFollowed :
      (s next : State) (response : SafeResponse)
      → next_state client options s response ≡ ok (some next)
      → IsFollowed s response.status_code next
  unfolding next_state
  next_state-IsFollowed s next response h = elim (Bool-cases (is_redirect response.status_code)) [
    | inr other ↦ absurd (ground arith)
    | inl redirect ↦ elim (Bool-cases options.follow_redirects) [
      | inr stays ↦ absurd (ground arith)
      | inl follows ↦ elim (Option-cases (location_of response)) [
        | inl nowhere ↦ absurd (ground arith)
        | inr (location, given) ↦
            elim (Result-cases (redirect_to client options s response.status_code location)) [
              | inr (e, bad) ↦ absurd (ground arith)
              | inl (n, is) ↦
                  redirect_to-IsFollowed s next response.status_code location follows redirect
                    (ground arith)
            ]
      ]
    ]
  ]

  pub record IsAdmitted (method url : Text) (body : Option Bytes) (headers : Headers)
      (warning : Bool) (s : State) : Type 0 where
    pub valid : normalize_and_validate_url client.unicode client.loopback_ok url ≡ ok s.call.url
    pub warned :
        side_effect_warning client.unquote client.unicode options.policy s.call.url ≡ ok warning
    pub tolerated : (warning && options.policy.strict) ≡ false
    pub parts : SplitResult
    pub split : urlsplit client.unicode s.call.url ≡ ok parts
    pub host : s.last_host ≡ hostname parts
    pub method_kept : s.call.method ≡ upper method
    pub body_kept : s.call.body ≡ body

  first_state_eq :
      (method : Text) (body : Option Bytes) (headers : Headers) (current : Text) (s : State)
      → first_state client options method body headers current ≡ ok s
      → (r : SplitResult) × (urlsplit client.unicode current ≡ ok r)
        × (s ≡ record {
          call = record { url = current; method = method; body = body; headers = headers };
          last_host = hostname r;
        })
  unfolding first_state
  first_state_eq method body headers current s h =
      of_bind_ok (urlsplit client.unicode current) _ h
        (λ r split h1. (r, split, sym (ok_inj {b = s} h1)))

  admit-IsAdmitted :
      (method url : Text) (body : Option Bytes) (headers : Headers) (warning : Bool) (s : State)
      → admit client options method url body headers ≡ ok (warning, s)
      → IsAdmitted method url body headers warning s
  unfolding admit
  admit-IsAdmitted method url body headers warning s h =
      of_passed _ unsupported_method _ h (λ known h1.
        of_bind_ok (normalize_and_validate_url client.unicode client.loopback_ok url) _ h1
          (λ current valid h2.
            of_bind_ok (side_effect_warning client.unquote client.unicode options.policy current) _
              h2
              (λ w warned h3.
                of_passed (w && options.policy.strict) side_effect_like_url _ h3 (λ tolerated h4.
                  of_bind_ok (first_state client options (upper method) body headers current) _ h4
                    (λ t first h5.
                      let pair = ok_inj {a = (w, t)} {b = (warning, s)} h5 in
                      let (r, split, e) =
                        first_state_eq (upper method) body headers current t first in
                      let is = sym (ap (λ p. p.1) pair) ∙ e in
                      let same_url = ap (λ x. x.call.url) is in
                      record {
                        valid = valid ∙ ap ok (sym same_url);
                        warned = rw same_url (warned ∙ ap (λ p. ok p.0) pair);
                        tolerated = cc (tolerated, ap (λ p. p.0) pair);
                        parts = r;
                        split = rw same_url split;
                        host = ap (λ x. x.last_host) is;
                        method_kept = ap (λ x. x.call.method) is;
                        body_kept = ap (λ x. x.call.body) is;
                      })))))

  -- What is sent is nothing, or what the loop sends from an admitted state.
  pub request-sent :
      (method url : Text) (body : Option Bytes) (headers : Headers)
      → ((request client options method url body headers).sent ≡ [])
        ⊎ ((warning : Bool) × (s : State) × IsAdmitted method url body headers warning s
            × ((request client options method url body headers).sent
                ≡ (run_hops client options 10 0 s).1))
  unfolding request run_hops
  request-sent method url body headers =
      elim (Result-cases (admit client options method url body headers)) [
        | inr (e, bad) ↦ inl (rw (request, bad) refl)
        | inl ((warning, s), admitted) ↦ inr (
          warning,
          s,
          admit-IsAdmitted method url body headers warning s admitted,
          rw (request, admitted) refl,
        )
      ]

  pub request-All {ℓ} :
      (Q : Sent → Type ℓ) (method url : Text) (body : Option Bytes) (headers : Headers)
      → ((warning : Bool) (s : State)
          → IsAdmitted method url body headers warning s
          → All Q (run_hops client options 10 0 s).1)
      → All Q (request client options method url body headers).sent
  request-All Q method url body headers h = elim (request-sent method url body headers) [
    | inl nothing ↦ rw nothing tt
    | inr (warning, s, admitted, e) ↦ rw e (h warning s admitted)
  ]
