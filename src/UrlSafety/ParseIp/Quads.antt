-- ===== src/UrlSafety/ParseIp/Quads.antt =====
-- A host of two, three or four numbers below 256.
use browser_fetch_router.Prelude.{
  ℕ, ◌+◌, ◌*◌, ◌/◌, ◌%◌, ◌^◌, ◌<◌, ◌≡◌, refl, ap, ◌∙◌, Bool, true, false, not, ◌&&◌, ◌||◌, ◌==◌,
  Option, none, some, List, [], ◌∷◌, ◌++◌, map, any, all, ltb, arith,
}
use browser_fetch_router.Prelude.Text.{
  Text, codes, text_eq, is_hex, is_digits, starts_with, split, lower, has_char, join, show_nat,
  read_nat,
}
use browser_fetch_router.Prelude.Splitting.{split-append, split-whole}
use browser_fetch_router.UrlSafety.Result.{ok}
use browser_fetch_router.UrlSafety.Ip.{v4}
use browser_fetch_router.UrlSafety.ParseIp.{
  parse_octet, parse_ipv4, show_ipv4, is_bad_part, numbers, short_ipv4, parse_ip, of_octets,
}
use browser_fetch_router.UrlSafety.ParseIp.RoundTrip.{passes_before, passes_before-true}
use browser_fetch_router.UrlSafety.ParseIp.Plain.{
  is_plain, all-weaken, no_dot, plain_dot, parts-obfuscated, plain-obfuscated,
}

-- The numbers below 256, as they are printed.
octet_test : ℕ → Bool
octet_test x =
    let s = show_nat x in
    (is_digits s && all (λ c. is_hex c || c == b'x') s)
    && (read_nat 10 0 s == x && not (is_bad_part s))

octet_table : passes_before octet_test 256 ≡ true
unfolding passes_before octet_test is_bad_part show_nat read_nat is_digits all any codes starts_with
    lower text_eq
octet_table = refl

pub record IsOctetText (x : ℕ) : Type 0 where
  digits : is_digits (show_nat x) ≡ true
  hex : all (λ c. is_hex c || c == b'x') (show_nat x) ≡ true
  value : read_nat 10 0 (show_nat x) ≡ x
  good : is_bad_part (show_nat x) ≡ false

octet : (x : ℕ) → x < 256 → IsOctetText x
unfolding octet_test
octet x h =
    let all_true = passes_before-true octet_test 256 x h octet_table in
    record { digits = ground arith; hex = ground arith; value = ground arith; good = ground arith }

octet_plain : (x : ℕ) → x < 256 → all is_plain (show_nat x) ≡ true
octet_plain x h =
    all-weaken (λ c. is_hex c || c == b'x') is_plain (show_nat x) (λ d e. ground arith)
      (octet x h).hex

octet_dotless : (x : ℕ) → x < 256 → has_char b'.' (show_nat x) ≡ false
octet_dotless x h = no_dot (show_nat x) (octet x h).hex

number_of :
    (x : ℕ) (h : x < 256) (parts : List Text) (ns : List ℕ)
    → numbers parts ≡ some ns
    → numbers (show_nat x ∷ parts) ≡ some (x ∷ ns)
unfolding numbers
number_of x h parts ns k = rw ((octet x h).digits, k, (octet x h).value, numbers) refl

within : (x : ℕ) → x < 256 → ltb 255 x ≡ false
within x h = ground arith

not_four : (o p : Option ℕ) → of_octets (o ∷ p ∷ []) ≡ none
unfolding of_octets
not_four none p = refl
not_four (some a) none = refl
not_four (some a) (some b) = refl

not_four' : (o p q : Option ℕ) → of_octets (o ∷ p ∷ q ∷ []) ≡ none
unfolding of_octets
not_four' none p q = refl
not_four' (some a) none q = refl
not_four' (some a) (some b) none = refl
not_four' (some a) (some b) (some c) = refl

no_numbers : numbers [] ≡ some []
unfolding numbers
no_numbers = refl

module _ (a b : ℕ) (ha : a < 256) (hb : b < 256) where
  split_two : split b'.' (show_nat a ++ (b'.' ∷ show_nat b)) ≡ show_nat a ∷ show_nat b ∷ []
  split_two =
      split-append b'.' (show_nat a) (show_nat b) (octet_dotless a ha)
      ∙ ap (λ (l : List Text). show_nat a ∷ l) (split-whole b'.' (show_nat b) (octet_dotless b hb))

  two-ipv4 : parse_ipv4 (show_nat a ++ (b'.' ∷ show_nat b)) ≡ none
  unfolding parse_ipv4
  two-ipv4 = ap (λ (l : List Text). of_octets (map parse_octet l)) split_two ∙ not_four _ _

  two-short :
      short_ipv4 (numbers (show_nat a ∷ show_nat b ∷ [])) ≡ some (ok (some (v4 (a * 2 ^ 24 + b))))
  unfolding short_ipv4
  two-short =
      ap short_ipv4 (number_of a ha _ _ (number_of b hb [] [] no_numbers))
      ∙ rw (within a ha, within b hb, short_ipv4) refl

  two-good : any is_bad_part (show_nat a ∷ show_nat b ∷ []) ≡ false
  unfolding any
  two-good = rw ((octet a ha).good, (octet b hb).good) refl

  pub parse_ip-two : parse_ip (show_nat a ++ (b'.' ∷ show_nat b)) ≡ ok (some (v4 (a * 2 ^ 24 + b)))
  parse_ip-two =
      plain-obfuscated (show_nat a ++ (b'.' ∷ show_nat b))
        (plain_dot (show_nat a) (show_nat b) (octet_plain a ha) (octet_plain b hb)) two-ipv4
        (v4 (a * 2 ^ 24 + b))
        (parts-obfuscated _ (show_nat a ∷ show_nat b ∷ []) _ split_two two-good two-short)

module _ (a b c : ℕ) (ha : a < 256) (hb : b < 256) (hc : c < 256) where
  abbrev pub three : Text
  three = show_nat a ++ (b'.' ∷ (show_nat b ++ (b'.' ∷ show_nat c)))

  split_three : split b'.' three ≡ show_nat a ∷ show_nat b ∷ show_nat c ∷ []
  split_three =
      split-append b'.' (show_nat a) _ (octet_dotless a ha)
      ∙ ap (λ (l : List Text). show_nat a ∷ l) (split_two b c hb hc)

  three-ipv4 : parse_ipv4 three ≡ none
  unfolding parse_ipv4
  three-ipv4 = ap (λ (l : List Text). of_octets (map parse_octet l)) split_three ∙ not_four' _ _ _

  three-short :
      short_ipv4 (numbers (show_nat a ∷ show_nat b ∷ show_nat c ∷ []))
      ≡ some (ok (some (v4 (a * 2 ^ 24 + b * 2 ^ 16 + c))))
  unfolding short_ipv4
  three-short =
      ap short_ipv4 (number_of a ha _ _ (number_of b hb _ _ (number_of c hc [] [] no_numbers)))
      ∙ rw (within a ha, within b hb, within c hc, short_ipv4) refl

  three-good : any is_bad_part (show_nat a ∷ show_nat b ∷ show_nat c ∷ []) ≡ false
  unfolding any
  three-good = rw ((octet a ha).good, (octet b hb).good, (octet c hc).good) refl

  three-plain : all is_plain three ≡ true
  three-plain =
      plain_dot (show_nat a) _ (octet_plain a ha)
        (plain_dot (show_nat b) (show_nat c) (octet_plain b hb) (octet_plain c hc))

  pub parse_ip-three : parse_ip three ≡ ok (some (v4 (a * 2 ^ 24 + b * 2 ^ 16 + c)))
  parse_ip-three =
      plain-obfuscated three three-plain three-ipv4 (v4 (a * 2 ^ 24 + b * 2 ^ 16 + c))
        (parts-obfuscated three _ _ split_three three-good three-short)

four-plain :
    (a b c d : ℕ)
    → a < 256
    → b < 256
    → c < 256
    → d < 256
    → all is_plain (join (codes ".") (show_nat a ∷ show_nat b ∷ show_nat c ∷ show_nat d ∷ []))
      ≡ true
unfolding join codes
four-plain a b c d ha hb hc hd = plain_dot (show_nat a) _ (octet_plain a ha) (
    plain_dot (show_nat b) _ (octet_plain b hb)
      (plain_dot (show_nat c) (show_nat d) (octet_plain c hc) (octet_plain d hd)))

pub show_ipv4-plain : (n : ℕ) → n < 2 ^ 32 → all is_plain (show_ipv4 n) ≡ true
unfolding show_ipv4
show_ipv4-plain n h =
    four-plain (n / 2 ^ 24) (n / 2 ^ 16 % 2 ^ 8) (n / 2 ^ 8 % 2 ^ 8) (n % 2 ^ 8) (omega arith)
      (omega arith) (omega arith) (omega arith)
