-- ===== src/HttpClient/Transport/Pinned.antt =====
-- What is known once `_do_one_request` starts to send.
use browser_fetch_router.Prelude.{
  ℕ, ◌≡◌, refl, sym, ap, ◌∙◌, Bool, true, false, not, Option, none, some, List, [], All, arith,
}
use browser_fetch_router.Prelude.Text.{Text, codes, text_eq, eq_of_text_eq}
use browser_fetch_router.UrlSafety.Result.{
  Unsafe, missing_host, blocked_resolved_ip, peer_address_mismatch, ok, of_bind_ok, of_passed,
  ok_inj,
}
use browser_fetch_router.UrlSafety.Ip.{Ip, is_blocked_ip}
use browser_fetch_router.UrlSafety.ParseIp.{parse_ip}
use browser_fetch_router.UrlSafety.SplitUrl.{Unicode, SplitResult, urlsplit, hostname, port}
use browser_fetch_router.UrlSafety.Normalize.{is_https}
use browser_fetch_router.UrlSafety.Redirect.{
  ResolvedTarget, is_blocked_target, blocked_resolved_targets,
}
use browser_fetch_router.UrlSafety.Redirect.Laws.{IsReachable, blocked_resolved_targets_iff}
use browser_fetch_router.HttpClient.Headers.{validate_extra_headers}
use browser_fetch_router.HttpClient.Headers.Framing.{IsHarmless, validate_extra_headers_iff}
use browser_fetch_router.HttpClient.Transport.{
  Wire, Network, Call, first_target, raise_reason, default_resolver, connect_pinned, effective_port,
  encode_latin1, prepare,
}

module _ (net : Network) (allow : Bool) where
  -- The socket's peer is the address itself, and it is not blocked.
  pub record IsPeer (hop : ℕ) (ip : Text) (port : ℕ) : Type 0 where
    pub address : Ip
    pub parses : parse_ip ip ≡ ok (some address)
    pub free : is_blocked_ip allow address ≡ false
    pub inet : Bool
    pub connected : net.connect hop inet ip port ≡ ok ip

  blocked_target-some :
      (candidate : Option Ip)
      → is_blocked_target allow candidate ≡ false
      → (ip : Ip) × (candidate ≡ some ip) × (is_blocked_ip allow ip ≡ false)
  unfolding is_blocked_target
  blocked_target-some none h = absurd (ground arith)
  blocked_target-some (some ip) h = (ip, refl, h)

  not-false : (b : Bool) → not b ≡ false → b ≡ true
  not-false b h = ground arith

  pub connect_pinned-IsPeer :
      (hop : ℕ) (ip family : Text) (port : ℕ) (use_tls : Bool) (name : Text)
      → connect_pinned net allow hop ip family port use_tls name ≡ ok tt
      → IsPeer hop ip port
  unfolding connect_pinned
  connect_pinned-IsPeer hop ip family port use_tls name h =
      of_bind_ok (net.connect hop _ ip port) _ h (λ peer connected h1.
        of_bind_ok (parse_ip peer) _ h1 (λ candidate parsed h2.
          of_passed _ blocked_resolved_ip _ h2 (λ free h3.
            of_passed _ peer_address_mismatch _ h3 (λ same h4.
              let (address, is, unblocked) = blocked_target-some candidate free in
              let e = eq_of_text_eq peer ip (not-false (text_eq peer ip) same) in
              record {
                address = address;
                parses = cc (e, parsed, is);
                free = unblocked;
                inet = text_eq family (codes "AF_INET");
                connected = cc (e, connected);
              }))))

  -- Every answer of the resolver may be reached, the socket is connected to one of them under the name
  -- of the URL, and no caller header touches the framing.
  pub record IsPinned (u : Unicode) (hop : ℕ) (call : Call) (wire : Wire) : Type 0 where
    pub parts : SplitResult
    pub split : urlsplit u call.url ≡ ok parts
    pub named : wire.hostname ≡ hostname parts
    pub encrypted : wire.use_tls ≡ is_https parts
    pub answers : List ResolvedTarget
    pub resolved : default_resolver net allow hop (hostname parts) ≡ ok answers
    pub reachable : All (IsReachable allow) answers
    pub harmless : All IsHarmless call.headers
    pub peer : IsPeer hop wire.ip wire.port
    pub body_kept : wire.body ≡ call.body

  no_reason : (reason : Option Unsafe) → raise_reason reason ≡ ok tt → reason ≡ none
  unfolding raise_reason
  no_reason none h = refl
  no_reason (some code) h = absurd (cc)

  pub prepare-IsPinned :
      (u : Unicode) (hop : ℕ) (call : Call) (wire : Wire)
      → prepare net allow u hop call ≡ ok wire
      → IsPinned u hop call wire
  unfolding prepare
  prepare-IsPinned u hop call wire h = of_bind_ok (urlsplit u call.url) _ h (λ r split h1.
      of_passed (text_eq (hostname r) []) missing_host _ h1 (λ named h2.
        of_bind_ok (port r) _ h2 (λ given has h3.
          of_bind_ok (default_resolver net allow hop (hostname r)) _ h3 (λ targets resolved h4.
            of_bind_ok (blocked_resolved_targets allow targets) _ h4 (λ reason tested h5.
              of_bind_ok (raise_reason reason) _ h5 (λ unit clear h6.
                of_bind_ok (first_target targets) _ h6 (λ chosen first h7.
                  of_bind_ok (validate_extra_headers (hostname r) call.headers) _ h7
                    (λ unit' valid h8.
                      of_bind_ok
                        (connect_pinned net allow hop chosen.ip chosen.family
                          (effective_port r given) (is_https r) (hostname r))
                        _ h8
                        (λ unit'' connected h9.
                          of_bind_ok (encode_latin1 _) _ h9 (λ head encoded h10.
                            let e = sym (ok_inj {b = wire} h10) in
                            record {
                              parts = r;
                              split = split;
                              named = ap (λ w. w.hostname) e;
                              encrypted = ap (λ w. w.use_tls) e;
                              answers = targets;
                              resolved = resolved;
                              reachable =
                                  ((blocked_resolved_targets_iff allow targets).0
                                    (tested ∙ ap ok (no_reason reason clear))).1;
                              harmless =
                                  (validate_extra_headers_iff (hostname r) call.headers).0 valid;
                              peer = rw e (
                                  connect_pinned-IsPeer hop chosen.ip chosen.family
                                    (effective_port r given) (is_https r) (hostname r) connected);
                              body_kept = ap (λ w. w.body) e;
                            }))))))))))
