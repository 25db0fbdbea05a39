-- ===== src/Approvals/DefaultDeny/Subdomains.antt =====
-- A host that is denied is denied with all its subdomains.
use browser_fetch_router.Prelude.{
  ◌≡◌, inl, inr, refl, sym, ◌∙◌, Bool, true, false, ◌||◌, List, [], ◌∷◌, ◌++◌, map, any, drop,
  Bool-cases, or_true, arith,
}
use browser_fetch_router.Prelude.Text.{
  Text, codes, text_eq, eq_of_text_eq, lower, lower_char, starts_with, ends_with,
}
use mathlib.Core.List.{reverse, map-append, reverse-cons, reverse-append}
use browser_fetch_router.Approvals.DefaultDeny.{
  host_sensitive_patterns, hostname_matches, is_default_denied_hostname,
}

starts_with_refl : (s t : Text) → starts_with (s ++ t) s ≡ true
unfolding starts_with
starts_with_refl [] [] = refl
starts_with_refl [] (c ∷ t) = refl
starts_with_refl (c ∷ s) t = ground (arith, starts_with_refl s t)

starts_with-append : (s p t : Text) → starts_with s p ≡ true → starts_with (s ++ t) p ≡ true
unfolding starts_with
starts_with-append [] [] t h = starts_with_refl [] t
starts_with-append (c ∷ s) [] t h = refl
starts_with-append [] (d ∷ p) t h = absurd (cc)
starts_with-append (c ∷ s) (d ∷ p) t h = ground (arith, starts_with-append s p t)

-- `label.host`.
abbrev pub below : Text → Text → Text
below label host = label ++ (b'.' ∷ host)

ends_with-below :
    (label host t : Text) → ends_with host t ≡ true → ends_with (below label host) t ≡ true
unfolding ends_with
ends_with-below label host t h =
    rw (reverse-append label (b'.' ∷ host), reverse-cons b'.' host)
      (starts_with-append (reverse host ++ (b'.' ∷ [])) (reverse t) (reverse label)
        (starts_with-append (reverse host) (reverse t) (b'.' ∷ []) h))

ends_with-dot : (label host : Text) → ends_with (below label host) (b'.' ∷ host) ≡ true
unfolding ends_with
ends_with-dot label host =
    rw (reverse-append label (b'.' ∷ host))
      (starts_with_refl (reverse (b'.' ∷ host)) (reverse label))

-- Each host is listed with its wildcard.
siblings : List Text → List Text
siblings [] = []
siblings (b ∷ bases) = b ∷ (codes "*." ++ b) ∷ siblings bases

bases : List Text
bases = map codes (
    "1password.com" ∷ "lastpass.com" ∷ "bitwarden.com" ∷ "gmail.com" ∷ "mail.google.com"
    ∷ "outlook.live.com" ∷ "outlook.office.com" ∷ "mail.yahoo.com" ∷ "console.aws.amazon.com"
    ∷ "console.cloud.google.com" ∷ "portal.azure.com" ∷ "id.me" ∷ [])

patterns_siblings : host_sensitive_patterns ≡ siblings bases
unfolding siblings bases codes
patterns_siblings = refl

wildcard_matches :
    (base label host : Text)
    → text_eq host base ≡ true
    → hostname_matches (codes "*." ++ base) (below label host) ≡ true
unfolding hostname_matches starts_with codes
wildcard_matches base label host h =
    rw (sym (eq_of_text_eq host base h)) (ground (arith, ends_with-dot label host))

or_left : (a b : Bool) → a ≡ true → (a || b) ≡ true
or_left a b h = ground arith

or_right : (a b : Bool) → b ≡ true → (a || b) ≡ true
or_right a b h = ground arith

parent-below :
    (parent label host : Text)
    → (text_eq host parent || ends_with host (b'.' ∷ parent)) ≡ true
    → (text_eq (below label host) parent || ends_with (below label host) (b'.' ∷ parent)) ≡ true
parent-below parent label host h =
    or_right (text_eq (below label host) parent) (ends_with (below label host) (b'.' ∷ parent))
      (elim (or_true (text_eq host parent) (ends_with host (b'.' ∷ parent)) h) [
        | inl same ↦ rw (sym (eq_of_text_eq host parent same)) (ends_with-dot label host)
        | inr ends ↦ ends_with-below label host (b'.' ∷ parent) ends
      ])

hostname_matches-wild :
    (pattern host : Text)
    → starts_with pattern (codes "*.") ≡ true
    → hostname_matches pattern host
      ≡ (text_eq host (drop 2 pattern) || ends_with host (b'.' ∷ drop 2 pattern))
unfolding hostname_matches
hostname_matches-wild pattern host h = rw h refl

hostname_matches-bare :
    (pattern host : Text)
    → starts_with pattern (codes "*.") ≡ false
    → hostname_matches pattern host ≡ text_eq host pattern
unfolding hostname_matches
hostname_matches-bare pattern host h = rw h refl

hostname_matches-below :
    (base label host : Text)
    → hostname_matches base host ≡ true
    → (hostname_matches base (below label host)
        || hostname_matches (codes "*." ++ base) (below label host))
      ≡ true
hostname_matches-below base label host h = elim (Bool-cases (starts_with base (codes "*."))) [
  | inr bare ↦
      or_right (hostname_matches base (below label host))
        (hostname_matches (codes "*." ++ base) (below label host))
        (wildcard_matches base label host (sym (hostname_matches-bare base host bare) ∙ h))
  | inl wild ↦
      or_left (hostname_matches base (below label host))
        (hostname_matches (codes "*." ++ base) (below label host))
        (hostname_matches-wild base (below label host) wild
          ∙ parent-below (drop 2 base) label host (sym (hostname_matches-wild base host wild) ∙ h))
]

wild_below :
    (base label host : Text)
    → hostname_matches (codes "*." ++ base) host ≡ true
    → hostname_matches (codes "*." ++ base) (below label host) ≡ true
unfolding hostname_matches starts_with codes
wild_below base label host h = parent-below base label host h

siblings-below :
    (bases : List Text) (label host : Text)
    → any (λ p. hostname_matches p host) (siblings bases) ≡ true
    → any (λ p. hostname_matches p (below label host)) (siblings bases) ≡ true
unfolding any siblings
siblings-below [] label host h = absurd (cc)
siblings-below (b ∷ bases) label host h = ground (
  arith,
  siblings-below bases label host,
  hostname_matches-below b label host,
  wild_below b label host,
)

lower-below : (label host : Text) → lower (below label host) ≡ below (lower label) (lower host)
unfolding lower lower_char
lower-below label host = map-append _ label (b'.' ∷ host)

-- A host that is sensitive is so with every subdomain, of any depth: no label in front of it takes it
-- off the list.
pub is_default_denied_hostname-below :
    (label host : Text)
    → is_default_denied_hostname host ≡ true
    → is_default_denied_hostname (below label host) ≡ true
unfolding is_default_denied_hostname
is_default_denied_hostname-below label host h =
    rw (lower-below label host, patterns_siblings)
      (siblings-below bases (lower label) (lower host) (rw patterns_siblings at h))
