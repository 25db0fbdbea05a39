-- ===== src/Approvals/Scopes/Precedence.antt =====
-- A URL that is denied by default is read on a one-time approval of that URL only.
use browser_fetch_router.Prelude.{
  ℕ, ◌≡◌, inl, inr, refl, sym, ap, ◌∙◌, true, false, List, [], ◌∷◌, ◌++◌, Bool-cases, arith,
}
use browser_fetch_router.Prelude.Text.{Text, codes, text_eq, eq_of_text_eq, partition, starts_with}
use browser_fetch_router.UrlSafety.Result.{ok, Result-cases}
use browser_fetch_router.UrlSafety.SplitUrl.{Unicode, urlsplit, hostname}
use browser_fetch_router.Approvals.DefaultDeny.{is_default_denied}
use browser_fetch_router.Approvals.Scopes.{
  idna_or_lower, normalize_scope, exact_matches, kind_matches, normal_matches, approval_matches,
  is_exact, any_exact, can_read_url,
}

module _ (u : Unicode) (url : Text) where
  -- The scope is an exact one, and its normal form is that of the URL itself.
  pub record IsExactApproval (scope : Text) : Type 0 where
    pub normal : Text
    pub scope_normal : normalize_scope u scope ≡ ok normal
    pub url_normal : normalize_scope u (codes "exact:" ++ url) ≡ ok normal
    pub exact : starts_with normal (codes "exact:") ≡ true

  pub data SomeApproval : List Text → Type 0 where
    here :
        (scope : Text) (scopes : List Text) → IsExactApproval scope → SomeApproval (scope ∷ scopes)
    there :
        (scope : Text) (scopes : List Text) → SomeApproval scopes → SomeApproval (scope ∷ scopes)

  partition-join :
      (c : ℕ) (s : Text)
      → (partition c s).found ≡ true
      → s ≡ (partition c s).before ++ (c ∷ (partition c s).after)
  unfolding partition
  partition-join c [] h = absurd (cc)
  partition-join c (d ∷ s) h = ground (arith, partition-join c s)

  exact_matches-eq :
      (value : Text)
      → exact_matches u value url ≡ true
      → normalize_scope u (codes "exact:" ++ url) ≡ ok (codes "exact:" ++ value)
  unfolding exact_matches
  exact_matches-eq value h = elim (Result-cases (normalize_scope u (codes "exact:" ++ url))) [
    | inr (e, bad) ↦ absurd (ground arith)
    | inl (s, e) ↦ e ∙ ap ok (eq_of_text_eq s (codes "exact:" ++ value) (ground arith))
  ]

  data Kind (kind value : Text) : Type 0 where
    of_exact : kind ≡ codes "exact" → exact_matches u value url ≡ true → Kind kind value
    of_hostname : kind ≡ codes "hostname" → Kind kind value
    of_wildcard : kind ≡ codes "wildcard" → Kind kind value

  Kind-cases :
      (kind value host : Text) → kind_matches u kind value host url ≡ true → Kind kind value
  unfolding kind_matches
  Kind-cases kind value host h = elim (Bool-cases (text_eq kind (codes "exact"))) [
    | inl e ↦ of_exact (eq_of_text_eq kind (codes "exact") e) (ground arith)
    | inr not_exact ↦ elim (Bool-cases (text_eq kind (codes "hostname"))) [
      | inl e ↦ of_hostname (eq_of_text_eq kind (codes "hostname") e)
      | inr not_hostname ↦ elim (Bool-cases (text_eq kind (codes "wildcard"))) [
        | inl e ↦ of_wildcard (eq_of_text_eq kind (codes "wildcard") e)
        | inr none_of ↦ absurd (ground arith)
      ]
    ]
  ]

  no_hostname :
      (value : Text) → starts_with (codes "hostname" ++ (b':' ∷ value)) (codes "exact:") ≡ false
  unfolding starts_with codes
  no_hostname value = refl

  no_wildcard :
      (value : Text) → starts_with (codes "wildcard" ++ (b':' ∷ value)) (codes "exact:") ≡ false
  unfolding starts_with codes
  no_wildcard value = refl

  exact_colon : (value : Text) → codes "exact" ++ (b':' ∷ value) ≡ codes "exact:" ++ value
  unfolding codes
  exact_colon value = refl

  -- A scope in its normal form that starts with `exact:` and matches.
  exact_normal :
      (s : Text)
      → starts_with s (codes "exact:") ≡ true
      → normal_matches u s url ≡ ok true
      → normalize_scope u (codes "exact:" ++ url) ≡ ok s
  unfolding normal_matches
  exact_normal s starts h = elim (Bool-cases ((partition b':' s).found)) [
    | inr lone ↦ absurd (ground arith)
    | inl found ↦ elim (Result-cases (urlsplit u url)) [
      | inr (e, bad) ↦ absurd (ground arith)
      | inl (r, split) ↦
          elim (Kind-cases (partition b':' s).before (partition b':' s).after
            (idna_or_lower u (hostname r)) (ground arith)) [
              | of_exact e m ↦
                  exact_matches-eq (partition b':' s).after m
                  ∙ ap ok (
                      sym (
                        partition-join b':' s found
                        ∙ ap (λ k. k ++ (b':' ∷ (partition b':' s).after)) e
                        ∙ exact_colon (partition b':' s).after))
              | of_hostname e ↦ absurd (
                  clash s _
                    (partition-join b':' s found
                      ∙ ap (λ k. k ++ (b':' ∷ (partition b':' s).after)) e)
                    starts (no_hostname (partition b':' s).after))
              | of_wildcard e ↦ absurd (
                  clash s _
                    (partition-join b':' s found
                      ∙ ap (λ k. k ++ (b':' ∷ (partition b':' s).after)) e)
                    starts (no_wildcard (partition b':' s).after))
            ]
    ]
  ]
    where
      clash :
          (s t : Text)
          → s ≡ t
          → starts_with s (codes "exact:") ≡ true
          → starts_with t (codes "exact:") ≡ false
          → ⊥
      clash s t e p q = cc

  scope-IsExactApproval :
      (scope : Text)
      → is_exact u scope ≡ true
      → approval_matches u scope url ≡ ok true
      → IsExactApproval scope
  unfolding is_exact approval_matches
  scope-IsExactApproval scope exact h = elim (Result-cases (normalize_scope u scope)) [
    | inr (e, bad) ↦ absurd (ground arith)
    | inl (s, e) ↦ record {
      normal = s;
      scope_normal = e;
      url_normal = exact_normal s (ground arith) (ground arith);
      exact = ground arith;
    }
  ]

  any_exact-SomeApproval :
      (scopes : List Text) → any_exact u scopes url ≡ ok true → SomeApproval scopes
  unfolding any_exact
  any_exact-SomeApproval [] h = absurd (cc)
  any_exact-SomeApproval (scope ∷ scopes) h = elim (Bool-cases (is_exact u scope)) [
    | inr other ↦ there scope scopes (any_exact-SomeApproval scopes (ground arith))
    | inl exact ↦ elim (Result-cases (approval_matches u scope url)) [
      | inr (e, bad) ↦ absurd (ground arith)
      | inl (true, m) ↦ here scope scopes (scope-IsExactApproval scope exact m)
      | inl (false, m) ↦ there scope scopes (any_exact-SomeApproval scopes (ground arith))
    ]
  ]

  -- If a URL that is denied by default is read, one of the one-time approvals is an exact one for
  -- that URL: both have the same normal form. No hostname or wildcard approval, and no approval
  -- of the persistent store, is enough.
  pub can_read_url-SomeApproval :
      (persistent one_time : List Text)
      → is_default_denied u url ≡ ok true
      → can_read_url u url persistent one_time ≡ ok true
      → SomeApproval one_time
  unfolding can_read_url
  can_read_url-SomeApproval persistent one_time denied h =
      elim (Result-cases (any_exact u one_time url)) [
        | inr (e, bad) ↦ absurd (ground arith)
        | inl (true, m) ↦ any_exact-SomeApproval one_time m
        | inl (false, m) ↦ absurd (ground arith)
      ]
