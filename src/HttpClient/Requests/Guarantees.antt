-- ===== src/HttpClient/Requests/Guarantees.antt =====
-- What holds of every request that the client sends, on every path through the redirects.
use browser_fetch_router.Prelude.{
  ℕ, ◌≡◌, ◌≤◌, inl, inr, refl, sym, ap, ◌∙◌, Bool, true, false, Option, some, All, length, arith,
  if◌then◌else◌,
}
use browser_fetch_router.Prelude.Text.{Text}
use browser_fetch_router.UrlSafety.Result.{ok}
use browser_fetch_router.UrlSafety.SplitUrl.{SplitResult, urlsplit, hostname}
use browser_fetch_router.UrlSafety.Normalize.{normalize_and_validate_url}
use browser_fetch_router.UrlSafety.Redirect.Laws.{validate_redirect-accepted}
use browser_fetch_router.HttpClient.SideEffects.{warns}
use browser_fetch_router.HttpClient.Headers.{Headers}
use browser_fetch_router.HttpClient.Transport.{Bytes, SafeResponse}
use browser_fetch_router.HttpClient.Transport.Pinned.{IsPinned, prepare-IsPinned}
use browser_fetch_router.HttpClient.Requests.{
  Client, Options, State, Sent, advance, next_state, run_hops, request,
}
use browser_fetch_router.HttpClient.Requests.Follow.{
  IsFollowed, next_state-IsFollowed, request-sent, request-All,
}
use browser_fetch_router.HttpClient.Requests.Trace.{run_hops-All, run_hops-length, run_hops-single}

within : (n : ℕ) (b : Bool) → n ≤ 10 → (b ≡ false → n ≤ 1) → n ≤ (if b then 10 else 1)
within n true ten one = ten
within n false ten one = one refl

module _ (client : Client) (options : Options) where
  -- The URL is one that `normalize_and_validate_url` returns.
  pub IsChecked : Text → Type 0
  IsChecked url =
      (given : Text) × (normalize_and_validate_url client.unicode client.loopback_ok given ≡ ok url)

  pub IsGuarded : Sent → Type 0
  IsGuarded s =
      IsChecked s.call.url
      × IsPinned client.network client.loopback_ok client.unicode s.hop s.call s.wire

  advance-url :
      (s : State) (status : ℕ) (url host : Text) → (advance s status url host).call.url ≡ url
  unfolding advance
  advance-url s status url host = ground arith

  step-IsChecked :
      (s next : State) (status : ℕ)
      → IsFollowed client options s status next
      → IsChecked next.call.url
  unfolding IsChecked
  step-IsChecked s next status f =
      let (joined, source, parsed, j, valid, r1, r2, r3) =
        validate_redirect-accepted client.unicode client.urljoin s.call.url f.location f.new_url _
          client.loopback_ok f.valid in
      (
        joined,
        valid
            ∙ ap ok (
                sym (
                  ap (λ n. n.call.url) f.result
                  ∙ advance-url s status f.new_url (hostname f.parts))),
      )

  -- Every request that is sent goes to a URL that passed the URL test, over a socket whose peer is
  -- an address that was tested and is not blocked, with headers that cannot change the framing;
  -- so it is after any number of redirects, and whatever the resolver answers from hop to hop.
  pub request-IsGuarded :
      (method url : Text) (body : Option Bytes) (headers : Headers)
      → All IsGuarded (request client options method url body headers).sent
  unfolding IsGuarded IsChecked
  request-IsGuarded method url body headers =
      request-All client options IsGuarded method url body headers (λ warning s admitted.
        run_hops-All client options (λ t. IsChecked t.call.url) IsGuarded
          (λ hop t wire checked p. (
            checked,
            prepare-IsPinned client.network client.loopback_ok client.unicode hop t.call wire p,
          ))
          (λ t next response checked n.
            step-IsChecked t next response.status_code
              (next_state-IsFollowed client options t next response n))
          10 0 s (url, admitted.valid))

  single :
      (s next : State) (response : SafeResponse)
      → options.follow_redirects ≡ false
      → ¬ (next_state client options s response ≡ ok (some next))
  single s next response stays n =
      let f = next_state-IsFollowed client options s next response n in cc (f.follows, stays)

  hops-length :
      (s : State)
      → length (run_hops client options 10 0 s).1 ≤ (if options.follow_redirects then 10 else 1)
  hops-length s =
      within _ options.follow_redirects (run_hops-length client options 10 0 s) (λ stays.
        run_hops-single client options (λ t next response. single t next response stays) 10 0 s)

  -- At most ten requests are sent, and at most one if redirects are not followed.
  pub request-length :
      (method url : Text) (body : Option Bytes) (headers : Headers)
      → length (request client options method url body headers).sent
        ≤ (if options.follow_redirects then 10 else 1)
  request-length method url body headers =
      elim (request-sent client options method url body headers) [
        | inl nothing ↦
            rw nothing (within 0 options.follow_redirects (omega arith) (λ stays. omega arith))
        | inr (warning, s, admitted, e) ↦ rw e (hops-length s)
      ]

  -- No side-effect warning applies to the URL.
  pub IsQuiet : Text → Type 0
  IsQuiet url =
      (r : SplitResult) × (urlsplit client.unicode url ≡ ok r)
      × (warns client.unquote options.policy r ≡ false)
