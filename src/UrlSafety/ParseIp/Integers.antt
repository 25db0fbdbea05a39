-- ===== src/UrlSafety/ParseIp/Integers.antt =====
-- A host that is one number, in base 10, 8 or 16.
use browser_fetch_router.Prelude.{
  ℕ, ◌^◌, ◌<◌, ◌≡◌, ◌≢◌, inl, inr, refl, ◌∙◌, Bool, true, false, ◌&&◌, ◌||◌, ◌==◌, Option, none,
  some, [], ◌∷◌, all, drop, arith, Bool-cases, lt→ltb,
}
use browser_fetch_router.Prelude.Text.{
  Text, codes, is_digit, is_hex, is_digits, starts_with, has_char, read_nat,
}
use browser_fetch_router.Prelude.Splitting.{split-whole}
use browser_fetch_router.UrlSafety.Result.{ok}
use browser_fetch_router.UrlSafety.Ip.{v4}
use browser_fetch_router.UrlSafety.ParseIp.{
  parse_octet, parse_ipv4, numbers, short_ipv4, is_octal, all_of, is_empty, integer_ip,
  obfuscated_ip, ip_of_int, parse_ip, of_octets,
}
use browser_fetch_router.UrlSafety.ParseIp.Plain.{
  is_plain, all-weaken, no_dot, parse_ip-obfuscated, and_false,
}

-- A text of one part.
single-ipv4 : (s : Text) → has_char b'.' s ≡ false → parse_ipv4 s ≡ none
unfolding parse_ipv4 of_octets
single-ipv4 s h = rw (split-whole b'.' s h) (single (parse_octet s))
  where
    single : (o : Option ℕ) → of_octets (o ∷ []) ≡ none
    single none = refl
    single (some a) = refl

single-numbers : (s : Text) → short_ipv4 (numbers (s ∷ [])) ≡ none
unfolding numbers short_ipv4
single-numbers s = elim (Bool-cases (is_digits s)) [ inl e ↦ rw e refl | inr e ↦ rw e refl ]

single-obfuscated : (s : Text) → has_char b'.' s ≡ false → obfuscated_ip s ≡ integer_ip s
unfolding obfuscated_ip
single-obfuscated s h = rw (h, split-whole b'.' s h, single-numbers s) refl

pub single_part :
    (c : ℕ) (s : Text)
    → all (λ c. is_hex c || c == b'x') (c ∷ s) ≡ true
    → parse_ip (c ∷ s) ≡ integer_ip (c ∷ s)
single_part c s h =
    let plain = all-weaken (λ c. is_hex c || c == b'x') is_plain (c ∷ s) (λ d e. ground arith) h in
    let whole = no_dot (c ∷ s) h in
    parse_ip-obfuscated c s plain (single-ipv4 (c ∷ s) whole) ∙ single-obfuscated (c ∷ s) whole

pub fits : (n : ℕ) → n < 2 ^ 32 → ip_of_int n ≡ ok (some (v4 n))
unfolding ip_of_int
fits n h = rw (lt→ltb n (2 ^ 32) h) refl

and_true : {a b : Bool} → a ≡ true → b ≡ true → (a && b) ≡ true
and_true h k = rw (h, k) refl

starts_with-zero :
    (s : Text) → starts_with s (codes "0") ≡ false → starts_with s (codes "0x") ≡ false
unfolding starts_with codes
starts_with-zero [] h = refl
starts_with-zero (c ∷ s) h = ground arith

starts_with-octal : (s : Text) → all is_octal s ≡ true → starts_with (b'0' ∷ s) (codes "0x") ≡ false
unfolding starts_with codes all is_octal
starts_with-octal [] h = refl
starts_with-octal (c ∷ s) h = ground arith

all_of-nonempty : (p : ℕ → Bool) (s : Text) → s ≢ [] → all p s ≡ true → all_of p s ≡ true
unfolding all_of is_empty
all_of-nonempty p [] h k = absurd (h refl)
all_of-nonempty p (c ∷ s) h k = k

integer-decimal :
    (s : Text)
    → is_digits s ≡ true
    → starts_with s (codes "0") ≡ false
    → integer_ip s ≡ ip_of_int (read_nat 10 0 s)
unfolding integer_ip
integer-decimal s h k =
    rw
      (
        and_false (all_of is_hex (drop 2 s)) (starts_with-zero s k),
        and_false (all_of is_octal (drop 1 s)) k,
        h,
        integer_ip,
      )
      refl

starts_zero : (s : Text) → starts_with (b'0' ∷ s) (codes "0") ≡ true
unfolding starts_with codes
starts_zero s = refl

starts_hex : (s : Text) → starts_with (b'0' ∷ b'x' ∷ s) (codes "0x") ≡ true
unfolding starts_with codes
starts_hex s = refl

pub integer-octal :
    (s : Text)
    → s ≢ []
    → all is_octal s ≡ true
    → integer_ip (b'0' ∷ s) ≡ ip_of_int (read_nat 8 0 (b'0' ∷ s))
unfolding integer_ip
integer-octal s h k =
    rw
      (
        and_false (all_of is_hex (drop 2 (b'0' ∷ s))) (starts_with-octal s k),
        and_true (starts_zero s) (all_of-nonempty is_octal s h k),
        integer_ip,
      )
      refl

pub integer-hexadecimal :
    (s : Text)
    → s ≢ []
    → all is_hex s ≡ true
    → integer_ip (b'0' ∷ b'x' ∷ s) ≡ ip_of_int (read_nat 16 0 s)
unfolding integer_ip
integer-hexadecimal s h k =
    rw (and_true (starts_hex s) (all_of-nonempty is_hex s h k), integer_ip) refl

digits_hex : (s : Text) → is_digits s ≡ true → all (λ c. is_hex c || c == b'x') s ≡ true
unfolding is_digits
digits_hex [] h = absurd (cc)
digits_hex (c ∷ s) h =
    all-weaken is_digit (λ d. is_hex d || d == b'x') (c ∷ s) (λ d e. ground arith) h

pub octal_hex :
    (s : Text) → all is_octal s ≡ true → all (λ c. is_hex c || c == b'x') (b'0' ∷ s) ≡ true
unfolding all is_octal
octal_hex s h = all-weaken is_octal (λ d. is_hex d || d == b'x') s (λ d e. ground arith) h

pub hex_hex :
    (s : Text) → all is_hex s ≡ true → all (λ c. is_hex c || c == b'x') (b'0' ∷ b'x' ∷ s) ≡ true
unfolding all
hex_hex s h = all-weaken is_hex (λ d. is_hex d || d == b'x') s (λ d e. ground arith) h

pub parse_ip-decimal :
    (s : Text)
    → is_digits s ≡ true
    → starts_with s (codes "0") ≡ false
    → read_nat 10 0 s < 2 ^ 32
    → parse_ip s ≡ ok (some (v4 (read_nat 10 0 s)))
unfolding is_digits
parse_ip-decimal [] h k l = absurd (cc)
parse_ip-decimal (c ∷ s) h k l =
    single_part c s (digits_hex (c ∷ s) h)
    ∙ integer-decimal (c ∷ s) h k
    ∙ fits (read_nat 10 0 (c ∷ s)) l
