-- ===== src/UrlSafety/Redirect/Laws.antt =====
-- What a redirect and a set of DNS answers have passed.
use browser_fetch_router.Prelude.{
  ◌≡◌, ◌≢◌, ◌↔◌, ◌⊎◌, inl, inr, refl, Bool, false, not, ◌&&◌, Option, none, some, List, [], ◌∷◌,
  All, arith, if◌then◌else◌, Bool-cases,
}
use browser_fetch_router.Prelude.Text.{Text}
use browser_fetch_router.UrlSafety.Result.{
  Unsafe, blocked_resolved_ip, Result, ok, ◌>>=◌, Result-cases,
}
use browser_fetch_router.UrlSafety.Ip.{Ip, is_blocked_ip}
use browser_fetch_router.UrlSafety.ParseIp.{parse_ip}
use browser_fetch_router.UrlSafety.SplitUrl.{Unicode, SplitResult, urlsplit}
use browser_fetch_router.UrlSafety.Normalize.{is_http, is_https, normalize_and_validate_url}
use browser_fetch_router.UrlSafety.Redirect.{
  ResolvedTarget, is_blocked_target, check_targets, blocked_resolved_targets, validate_redirect,
}

-- The answer is the text of an address that is not blocked.
pub record IsReachable (allow_loopback : Bool) (t : ResolvedTarget) : Type 0 where
  pub ip : Ip
  pub parses : parse_ip t.ip ≡ ok (some ip)
  pub free : is_blocked_ip allow_loopback ip ≡ false

module _ (allow : Bool) where
  IsReachable-cases :
      (t : ResolvedTarget)
      → IsReachable allow t
        ⊎ ((rest : Result (Option Unsafe))
            → (parse_ip t.ip >>= λ ip.
                if is_blocked_target allow ip then ok (some blocked_resolved_ip) else rest)
              ≢ ok none)
  unfolding is_blocked_target
  IsReachable-cases t = elim (Result-cases (parse_ip t.ip)) [
    | inr (e, bad) ↦ inr (λ rest h. ground arith)
    | inl (none, p) ↦ inr (λ rest h. ground arith)
    | inl (some ip, p) ↦ elim (Bool-cases (is_blocked_ip allow ip)) [
      | inl blocked ↦ inr (λ rest h. ground arith)
      | inr free ↦ inl (record { ip = ip; parses = p; free = free })
    ]
  ]

  reachable_passes :
      (t : ResolvedTarget) (rest : Result (Option Unsafe))
      → IsReachable allow t
      → (parse_ip t.ip >>= λ ip.
          if is_blocked_target allow ip then ok (some blocked_resolved_ip) else rest)
        ≡ rest
  unfolding is_blocked_target
  reachable_passes t rest r = ground (arith, r.parses, r.free)

  check_targets-All :
      (targets : List ResolvedTarget)
      → check_targets allow targets ≡ ok none
      → All (IsReachable allow) targets
  unfolding check_targets
  check_targets-All [] h = tt
  check_targets-All (t ∷ targets) h = elim (IsReachable-cases t) [
    | inl r ↦ (
      r,
      check_targets-All targets (rw (reachable_passes t (check_targets allow targets) r) at h),
    )
    | inr fails ↦ absurd (fails (check_targets allow targets) h)
  ]

  All-check_targets :
      (targets : List ResolvedTarget)
      → All (IsReachable allow) targets
      → check_targets allow targets ≡ ok none
  unfolding check_targets
  All-check_targets [] h = refl
  All-check_targets (t ∷ targets) h =
      rw (reachable_passes t (check_targets allow targets) h.0) (All-check_targets targets h.1)

  -- A host passes if and only if it has an answer and every answer is an address that is not
  -- blocked; one private answer among public ones fails it.
  pub blocked_resolved_targets_iff :
      (targets : List ResolvedTarget)
      → (blocked_resolved_targets allow targets ≡ ok none)
        ↔ ((targets ≢ []) × All (IsReachable allow) targets)
  unfolding blocked_resolved_targets
  blocked_resolved_targets_iff [] = (λ h. absurd (cc), λ h. absurd (h.0 refl))
  blocked_resolved_targets_iff (t ∷ targets) =
      (λ h. (λ e. cc, check_targets-All (t ∷ targets) h), λ h. All-check_targets (t ∷ targets) h.1)

module _ (u : Unicode) (urljoin : Text → Text → Result Text) where
  -- A redirect that is followed goes to a URL that was accepted by the same test as a first URL, under
  -- the caller's loopback policy; from an https URL it does not go to an http URL unless that was
  -- allowed.
  pub validate_redirect-accepted :
      (source_url location target : Text) (downgrade allow : Bool)
      → validate_redirect u urljoin source_url location downgrade allow ≡ ok target
      → (joined : Text) × (source : SplitResult) × (parsed : SplitResult) × (urljoin source_url
            location
          ≡ ok joined)
        × (normalize_and_validate_url u allow joined ≡ ok target)
        × (urlsplit u source_url ≡ ok source)
        × (urlsplit u target ≡ ok parsed)
        × ((is_https source && (is_http parsed && not downgrade)) ≡ false)
  unfolding validate_redirect
  validate_redirect-accepted source_url location target downgrade allow h =
      elim (Result-cases (urljoin source_url location)) [
        | inr (e, bad) ↦ absurd (ground arith)
        | inl (joined, j) ↦ elim (Result-cases (normalize_and_validate_url u allow joined)) [
          | inr (e, bad) ↦ absurd (ground arith)
          | inl (t, n) ↦ elim (Result-cases (urlsplit u source_url)) [
            | inr (e, bad) ↦ absurd (ground arith)
            | inl (source, s) ↦ elim (Result-cases (urlsplit u t)) [
              | inr (e, bad) ↦ absurd (ground arith)
              | inl (parsed, p) ↦
                  (joined, source, parsed, j, ground arith, s, ground arith, ground arith)
            ]
          ]
        ]
      ]
