-- ===== src/Cdp/Same.antt =====
-- What is known of a WebSocket URL that was accepted for a tab.
use browser_fetch_router.Prelude.{
  ℕ, ◌≡◌, refl, Bool, true, false, not, ◌||◌, Option, none, some, [], ◌∷◌, arith, or_false, ==_iff,
  ap, sym,
}
use browser_fetch_router.Prelude.Text.{Text, codes, one_of, text_eq, eq_of_text_eq, lower, strip}
use browser_fetch_router.UrlSafety.Result.{
  websocket_url_invalid, websocket_url_mismatch, ok, of_bind_ok, of_not_failed, ok_inj, fail_if,
  CdpFailure, ◌>>=◌,
}
use browser_fetch_router.UrlSafety.SplitUrl.{
  Unicode, SplitResult, urlsplit, hostname, has_credentials,
}
use browser_fetch_router.Json.{Json, as_text}
use browser_fetch_router.Cdp.Endpoint.{
  is_empty, expected_scheme, effective_port, same_port, port_or, check_websocket, check_against,
  validate_text, validate_option, validate_tab_websocket_url,
}

-- The URL is a bare socket on the scheme, host and port of the base.
pub record IsSameEndpoint (u : Unicode) (base_url url : Text) : Type 0 where
  pub ws : SplitResult
  pub base : SplitResult
  pub of_url : urlsplit u url ≡ ok ws
  pub of_base : urlsplit u base_url ≡ ok base
  pub quiet : has_credentials ws ≡ false
  pub query : ws.query ≡ []
  pub fragment : ws.fragment ≡ []
  pub scheme : ws.scheme ≡ expected_scheme base
  pub host : lower (hostname ws) ≡ lower (hostname base)
  pub port : (p : Option ℕ) × (effective_port ws ≡ ok p) × (effective_port base ≡ ok p)

of_not : (b : Bool) → not b ≡ false → b ≡ true
of_not b h = ground arith

empty_of : (s : Text) → not (is_empty s) ≡ false → s ≡ []
unfolding is_empty
empty_of [] h = refl
empty_of (c ∷ s) h = cc

eq_of_same_port : (p q : Option ℕ) → same_port p q ≡ true → p ≡ q
unfolding same_port
eq_of_same_port none none h = refl
eq_of_same_port none (some q) h = cc
eq_of_same_port (some p) none h = cc
eq_of_same_port (some p) (some q) h = ap some ((==_iff p q).0 h)

port_of_ok :
    (failure : CdpFailure) (r : SplitResult) {p : Option ℕ}
    → port_or failure r ≡ ok p
    → effective_port r ≡ ok p
unfolding port_or
port_of_ok failure r h = ground arith

fail_if_ok : (test : Bool) (failure : CdpFailure) → fail_if test failure ≡ ok tt → test ≡ false
fail_if_ok true failure h = absurd (cc)
fail_if_ok false failure h = refl

ports_agree :
    (ws base : SplitResult)
    → (port_or websocket_url_invalid ws >>= λ p. port_or websocket_url_mismatch base >>= λ q.
        fail_if (not (same_port p q)) websocket_url_mismatch)
      ≡ ok tt
    → (p : Option ℕ) × (effective_port ws ≡ ok p) × (effective_port base ≡ ok p)
ports_agree ws base h = of_bind_ok (port_or websocket_url_invalid ws) _ h λ p h1 h2.
    of_bind_ok (port_or websocket_url_mismatch base) _ h2 λ q h3 h4.
      let e = eq_of_same_port p q (of_not _ (fail_if_ok _ websocket_url_mismatch h4)) in
      (p, port_of_ok _ ws h1, rw e (port_of_ok _ base h3))

-- What the tests against the base give.
against :
    (ws base : SplitResult)
    → check_against ws base ≡ ok tt
    → (ws.scheme ≡ expected_scheme base)
      × (lower (hostname ws) ≡ lower (hostname base))
      × ((p : Option ℕ) × (effective_port ws ≡ ok p) × (effective_port base ≡ ok p))
unfolding check_against
against ws base h =
    of_not_failed
      (not (one_of base.scheme (codes "http" ∷ codes "https" ∷ [])) || is_empty (hostname base))
      websocket_url_mismatch _ h
      λ web h1.
        of_not_failed (not (text_eq ws.scheme (expected_scheme base))) websocket_url_mismatch _ h1
          λ scheme h2.
            of_not_failed (not (text_eq (lower (hostname ws)) (lower (hostname base))))
              websocket_url_mismatch _ h2
              λ host h3. (
                eq_of_text_eq _ _ (of_not _ scheme),
                eq_of_text_eq _ _ (of_not _ host),
                ports_agree ws base h3,
              )

-- What the tests on the socket alone give.
alone :
    (ws : SplitResult)
    → check_websocket ws ≡ ok tt
    → (has_credentials ws ≡ false) × (ws.query ≡ []) × (ws.fragment ≡ [])
unfolding check_websocket
alone ws h =
    of_not_failed (not (one_of ws.scheme (codes "ws" ∷ codes "wss" ∷ []))) websocket_url_invalid _ h
      λ scheme h1. of_not_failed (has_credentials ws) websocket_url_invalid _ h1 λ quiet h2.
        of_not_failed (is_empty (hostname ws) || is_empty ws.path) websocket_url_invalid _ h2
          λ whole h3.
            let tail = or_false _ _ (fail_if_ok _ websocket_url_invalid h3) in
            (quiet, empty_of ws.query tail.0, empty_of ws.fragment tail.1)

pub validate_text-IsSameEndpoint :
    (u : Unicode) (candidate base_url : Text) {url : Text}
    → validate_text u candidate base_url ≡ ok url
    → (url ≡ candidate) × IsSameEndpoint u base_url url
unfolding validate_text
validate_text-IsSameEndpoint u candidate base_url h =
    of_not_failed (text_eq candidate []) websocket_url_invalid _ h λ present h1.
      of_bind_ok (urlsplit u candidate) _ h1 λ ws split_ws h2.
        of_bind_ok (check_websocket ws) _ h2 λ unit h3 h4.
          of_bind_ok (urlsplit u base_url) _ h4 λ base split_base h5.
            of_bind_ok (check_against ws base) _ h5 λ unit2 h6 h7.
              let same = ok_inj {a = candidate} h7 in
              let one = alone ws h3 in
              let two = against ws base h6 in
              (
                ap (λ (s : Text). s) (sym same),
                record {
                  ws = ws;
                  base = base;
                  of_url = rw (← same) split_ws;
                  of_base = split_base;
                  quiet = one.0;
                  query = one.1;
                  fragment = one.2;
                  scheme = two.0;
                  host = two.1;
                  port = two.2;
                },
              )

validate_option-IsSameEndpoint :
    (u : Unicode) (given : Option Text) (base_url url : Text)
    → validate_option u given base_url ≡ ok url
    → (s : Text) × (given ≡ some s) × (url ≡ strip s) × IsSameEndpoint u base_url url
unfolding validate_option
validate_option-IsSameEndpoint u none base_url url h = absurd (cc)
validate_option-IsSameEndpoint u (some s) base_url url h =
    let same = validate_text-IsSameEndpoint u (strip s) base_url h in (s, refl, same.0, same.1)

-- A WebSocket URL that is accepted for a tab is the stripped text of the tab list. It has no
-- credentials, query or fragment, and it stands on the scheme, host and port of the base.
pub validate_tab_websocket_url-IsSameEndpoint :
    (u : Unicode) (ws_url : Json) (base_url url : Text)
    → validate_tab_websocket_url u ws_url base_url ≡ ok url
    → (s : Text) × (as_text ws_url ≡ some s) × (url ≡ strip s) × IsSameEndpoint u base_url url
unfolding validate_tab_websocket_url
validate_tab_websocket_url-IsSameEndpoint u ws_url base_url url h =
    validate_option-IsSameEndpoint u (as_text ws_url) base_url url h
