-- ===== src/UrlSafety/ParseIp/Plain.antt =====
-- What `_parse_ip` does with a text of digits, letters and dots: nothing is cut off, and it is no IPv6
-- address.
use mathlib.Core.List.{reverse, reverse-cons, reverse-reverse}
use browser_fetch_router.Prelude.{
  ℕ, ◌≡◌, ◌≢◌, refl, ap, ◌∙◌, Bool, true, false, ◌&&◌, ◌||◌, ◌==◌, Option, none, some, List, [],
  ◌∷◌, ◌++◌, any, all, arith, if◌then◌else◌,
}
use browser_fetch_router.Prelude.Text.{
  Text, Parts, codes, is_hex, is_digits, starts_with, split, partition, has_char, lstrip_by,
  rstrip_by,
}
use browser_fetch_router.Prelude.Splitting.{split-whole, partition-whole}
use browser_fetch_router.UrlSafety.Result.{Result, ok}
use browser_fetch_router.UrlSafety.Ip.{Ip, v4}
use browser_fetch_router.UrlSafety.ParseIp.{
  parse_octet, parse_ipv4, parse_ipv6, is_bad_part, numbers, short_ipv4, is_empty, integer_ip,
  cleaned, obfuscated_ip, ip_address, parse_ip, of_octets,
}

-- Digits, letters and dots: nothing that is cut off, and no colon.
abbrev pub is_plain : ℕ → Bool
is_plain c = is_hex c || (c == b'.' || c == b'x')

abbrev is_bracket : ℕ → Bool
is_bracket c = c == b'[' || c == b']'

all-append : (p : ℕ → Bool) (s t : Text) → all p s ≡ true → all p t ≡ true → all p (s ++ t) ≡ true
unfolding all
all-append p [] t h k = k
all-append p (c ∷ s) t h k = ground (arith, all-append p s t)

pub all-weaken :
    (p q : ℕ → Bool) (s : Text)
    → ((c : ℕ) → p c ≡ true → q c ≡ true)
    → all p s ≡ true
    → all q s ≡ true
unfolding all
all-weaken p q [] f h = refl
all-weaken p q (c ∷ s) f h = rw (f c (ground arith)) (all-weaken p q s f (ground arith))

all-reverse : (p : ℕ → Bool) (s : Text) → all p s ≡ true → all p (reverse s) ≡ true
unfolding all
all-reverse p [] h = refl
all-reverse p (c ∷ s) h =
    rw (reverse-cons c s)
      (all-append p (reverse s) (c ∷ []) (all-reverse p s (ground arith)) (ground arith))

lstrip_plain : (s : Text) → all is_plain s ≡ true → lstrip_by is_bracket s ≡ s
unfolding all lstrip_by
lstrip_plain [] h = refl
lstrip_plain (c ∷ s) h = ground arith

rstrip_plain : (s : Text) → all is_plain s ≡ true → rstrip_by is_bracket s ≡ s
unfolding rstrip_by
rstrip_plain s h =
    ap (λ (t : Text). reverse t) (lstrip_plain (reverse s) (all-reverse is_plain s h))
    ∙ reverse-reverse s

no_percent : (s : Text) → all is_plain s ≡ true → has_char b'%' s ≡ false
unfolding has_char any all
no_percent [] h = refl
no_percent (c ∷ s) h = ground (arith, no_percent s)

no_colon : (s : Text) → all is_plain s ≡ true → has_char b':' s ≡ false
unfolding has_char any all
no_colon [] h = refl
no_colon (c ∷ s) h = ground (arith, no_colon s)

pub no_dot : (s : Text) → all (λ c. is_hex c || c == b'x') s ≡ true → has_char b'.' s ≡ false
unfolding has_char any all
no_dot [] h = refl
no_dot (c ∷ s) h = ground (arith, no_dot s)

cleaned-plain : (s : Text) → all is_plain s ≡ true → cleaned s ≡ s
unfolding cleaned
cleaned-plain s h =
    ap (λ (t : Text). (partition b'%' (rstrip_by is_bracket t)).before) (lstrip_plain s h)
    ∙ ap (λ (t : Text). (partition b'%' t).before) (rstrip_plain s h)
    ∙ ap (λ (p : Parts). p.before) (partition-whole b'%' s (no_percent s h))

no_ipv6 : (s : Text) → all is_plain s ≡ true → parse_ipv6 s ≡ none
unfolding parse_ipv6
no_ipv6 s h = rw (split-whole b':' s (no_colon s h)) refl

-- `_parse_ip` behind its first two lines.
abbrev of_cleaned : Text → Result (Option Ip)
of_cleaned s =
    if is_empty s
    then ok none
    else elim (ip_address s) [ some ip ↦ ok (some ip) | none ↦ obfuscated_ip s ]

parse_ip-plain : (s : Text) → all is_plain s ≡ true → parse_ip s ≡ of_cleaned s
unfolding parse_ip
parse_ip-plain s h = ap of_cleaned (cleaned-plain s h)

ip_address-none : (s : Text) → parse_ipv4 s ≡ none → parse_ipv6 s ≡ none → ip_address s ≡ none
unfolding ip_address
ip_address-none s h k = rw (h, k, ip_address) refl

ip_address-ipv4 : (s : Text) (n : ℕ) → parse_ipv4 s ≡ some n → ip_address s ≡ some (v4 n)
unfolding ip_address
ip_address-ipv4 s n h = rw (h, ip_address) refl

-- A plain text that is no dotted quad, and one that is.
pub parse_ip-obfuscated :
    (c : ℕ) (s : Text)
    → all is_plain (c ∷ s) ≡ true
    → parse_ipv4 (c ∷ s) ≡ none
    → parse_ip (c ∷ s) ≡ obfuscated_ip (c ∷ s)
unfolding is_empty
parse_ip-obfuscated c s h k =
    parse_ip-plain (c ∷ s) h ∙ rw (ip_address-none (c ∷ s) k (no_ipv6 (c ∷ s) h)) refl

parse_ip-ipv4 :
    (c : ℕ) (s : Text) (n : ℕ)
    → all is_plain (c ∷ s) ≡ true
    → parse_ipv4 (c ∷ s) ≡ some n
    → parse_ip (c ∷ s) ≡ ok (some (v4 n))
unfolding is_empty
parse_ip-ipv4 c s n h k = parse_ip-plain (c ∷ s) h ∙ rw (ip_address-ipv4 (c ∷ s) n k) refl

empty-obfuscated : (ip : Ip) → obfuscated_ip [] ≢ ok (some ip)
unfolding obfuscated_ip numbers short_ipv4 integer_ip has_char any split is_digits starts_with codes
empty-obfuscated ip h = absurd (cc)

pub and_false : {a : Bool} (b : Bool) → a ≡ false → (a && b) ≡ false
and_false b h = rw h refl

pub plain_dot :
    (s t : Text)
    → all is_plain s ≡ true
    → all is_plain t ≡ true
    → all is_plain (s ++ (b'.' ∷ t)) ≡ true
plain_dot s t h k = all-append is_plain s (b'.' ∷ t) h (plain_cons t k)
  where
    plain_cons : (t : Text) → all is_plain t ≡ true → all is_plain (b'.' ∷ t) ≡ true
    plain_cons t k = unfold all in k

-- A text of two or three numbers.
false_right : (a : Bool) {b : Bool} → b ≡ false → (a && b) ≡ false
false_right a h = ground arith

pub parts-obfuscated :
    (s : Text) (parts : List Text) (out : Result (Option Ip))
    → split b'.' s ≡ parts
    → any is_bad_part parts ≡ false
    → short_ipv4 (numbers parts) ≡ some out
    → obfuscated_ip s ≡ out
unfolding obfuscated_ip
parts-obfuscated s parts out h k l = rw (h, false_right (has_char b'.' s) k, l, obfuscated_ip) refl

pub plain-obfuscated :
    (s : Text)
    → all is_plain s ≡ true
    → parse_ipv4 s ≡ none
    → (ip : Ip) → obfuscated_ip s ≡ ok (some ip)
    → parse_ip s ≡ ok (some ip)
plain-obfuscated [] h k ip l = absurd (empty-obfuscated ip l)
plain-obfuscated (c ∷ s) h k ip l = parse_ip-obfuscated c s h k ∙ l

empty-ipv4 : (n : ℕ) → parse_ipv4 [] ≢ some n
unfolding parse_ipv4 of_octets parse_octet split
empty-ipv4 n h = absurd (cc)

pub plain-ipv4 :
    (s : Text) (n : ℕ)
    → all is_plain s ≡ true
    → parse_ipv4 s ≡ some n
    → parse_ip s ≡ ok (some (v4 n))
plain-ipv4 [] n h k = absurd (empty-ipv4 n k)
plain-ipv4 (c ∷ s) n h k = parse_ip-ipv4 c s n h k
