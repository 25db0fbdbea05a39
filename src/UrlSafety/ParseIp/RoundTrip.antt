-- ===== src/UrlSafety/ParseIp/RoundTrip.antt =====
-- Printing an IPv4 address and parsing it back.
use browser_fetch_router.Prelude.{
  ℕ, zero, suc, ◌+◌, ◌*◌, ◌/◌, ◌%◌, ◌^◌, ◌<◌, ◌≡◌, refl, Bool, true, false, ◌&&◌, not, Option, some,
  none, [], ◌∷◌, arith, any, all, ◌==◌,
}
use browser_fetch_router.Prelude.Text.{
  codes, text_eq, is_digits, has_char, join, show_nat, read_nat,
}
use browser_fetch_router.Prelude.Splitting.{split-append, split-whole}
use browser_fetch_router.UrlSafety.ParseIp.{parse_octet, parse_ipv4, show_ipv4}

-- Whether a test passes on the numbers before the bound.
unfoldable pub passes_before : (ℕ → Bool) → ℕ → Bool
passes_before test zero = true
passes_before test (suc bound) = passes_before test bound && test bound

pub passes_before-true :
    (test : ℕ → Bool) (bound x : ℕ) → x < bound → passes_before test bound ≡ true → test x ≡ true
unfolding passes_before
passes_before-true test zero x below all = absurd (omega arith)
passes_before-true test (suc bound) x below all = ground (arith, passes_before-true test bound x)

is_octet : ℕ → Option ℕ → Bool
is_octet x none = false
is_octet x (some y) = x == y

octet_table :
    passes_before
      (λ x. is_octet x (parse_octet (show_nat x)) && not (has_char b'.' (show_nat x)))
      256
    ≡ true
unfolding passes_before is_octet parse_octet show_nat read_nat has_char any all is_digits text_eq
    codes
octet_table = refl

of_is_octet : (x : ℕ) (o : Option ℕ) → is_octet x o ≡ true → o ≡ some x
unfolding is_octet
of_is_octet x none h = absurd (cc)
of_is_octet x (some y) h = ground arith

octet-ok :
    (x : ℕ) → x < 256 → (parse_octet (show_nat x) ≡ some x) × (has_char b'.' (show_nat x) ≡ false)
octet-ok x h =
    let both = passes_before-true _ 256 x h octet_table in
    (of_is_octet x (parse_octet (show_nat x)) (ground arith), ground arith)

four :
    (a b c d : ℕ)
    → a < 256
    → b < 256
    → c < 256
    → d < 256
    → parse_ipv4 (join (codes ".") (show_nat a ∷ show_nat b ∷ show_nat c ∷ show_nat d ∷ []))
      ≡ some (a * 2 ^ 24 + b * 2 ^ 16 + c * 2 ^ 8 + d)
unfolding parse_ipv4 join codes
four a b c d ha hb hc hd = rw (
  split-append b'.' (show_nat a) _ (octet-ok a ha).1,
  split-append b'.' (show_nat b) _ (octet-ok b hb).1,
  split-append b'.' (show_nat c) _ (octet-ok c hc).1,
  split-whole b'.' (show_nat d) (octet-ok d hd).1,
  (octet-ok a ha).0,
  (octet-ok b hb).0,
  (octet-ok c hc).0,
  (octet-ok d hd).0,
)

-- Every IPv4 address is parsed back from the canonical text that is printed for it.
pub parse_ipv4-show_ipv4 : (n : ℕ) → n < 2 ^ 32 → parse_ipv4 (show_ipv4 n) ≡ some n
unfolding show_ipv4
parse_ipv4-show_ipv4 n h =
    rw
      (four (n / 2 ^ 24) (n / 2 ^ 16 % 2 ^ 8) (n / 2 ^ 8 % 2 ^ 8) (n % 2 ^ 8) (omega arith)
        (omega arith) (omega arith) (omega arith))
      (ground arith)
