-- ===== src/UrlSafety/ParseIp/Notations.antt =====
-- What `_parse_ip` makes of the notations of an IPv4 address.
use browser_fetch_router.Prelude.{
  ℕ, ◌+◌, ◌*◌, ◌^◌, ◌<◌, ◌≡◌, ◌≢◌, ap, ◌∙◌, true, false, some, [], ◌∷◌, ◌++◌, all,
}
use browser_fetch_router.Prelude.Text.{
  Text, codes, is_hex, is_digits, starts_with, show_nat, read_nat,
}
use browser_fetch_router.UrlSafety.Result.{ok}
use browser_fetch_router.UrlSafety.Ip.{v4}
use browser_fetch_router.UrlSafety.ParseIp.{show_ipv4, is_octal, parse_ip}
use browser_fetch_router.UrlSafety.ParseIp.RoundTrip.{parse_ipv4-show_ipv4}
use browser_fetch_router.UrlSafety.ParseIp.Plain.{plain-ipv4}
use browser_fetch_router.UrlSafety.ParseIp.Integers.{
  single_part, fits, integer-octal, integer-hexadecimal, octal_hex, hex_hex, parse_ip-decimal,
}
use browser_fetch_router.UrlSafety.ParseIp.Quads.{parse_ip-two, parse_ip-three, show_ipv4-plain}

-- The ways to write an IPv4 address: four numbers, two or three numbers, one number in base 10, 8 or 16.
pub data Notation (host : Text) (n : ℕ) : Type 0 where
  dotted : n < 2 ^ 32 → host ≡ show_ipv4 n → Notation host n
  short_two :
      (a b : ℕ)
      → a < 256
      → b < 256
      → host ≡ show_nat a ++ (b'.' ∷ show_nat b)
      → n ≡ a * 2 ^ 24 + b
      → Notation host n
  short_three :
      (a b c : ℕ)
      → a < 256
      → b < 256
      → c < 256
      → host ≡ show_nat a ++ (b'.' ∷ (show_nat b ++ (b'.' ∷ show_nat c)))
      → n ≡ a * 2 ^ 24 + b * 2 ^ 16 + c
      → Notation host n
  decimal :
      n < 2 ^ 32
      → is_digits host ≡ true
      → starts_with host (codes "0") ≡ false
      → n ≡ read_nat 10 0 host
      → Notation host n
  octal :
      (digits : Text)
      → n < 2 ^ 32
      → host ≡ b'0' ∷ digits
      → digits ≢ []
      → all is_octal digits ≡ true
      → n ≡ read_nat 8 0 host
      → Notation host n
  hexadecimal :
      (digits : Text)
      → n < 2 ^ 32
      → host ≡ b'0' ∷ b'x' ∷ digits
      → digits ≢ []
      → all is_hex digits ≡ true
      → n ≡ read_nat 16 0 digits
      → Notation host n

-- `_parse_ip` reads every notation of an address as that address.
pub parse_ip-Notation : (host : Text) (n : ℕ) → Notation host n → parse_ip host ≡ ok (some (v4 n))
parse_ip-Notation host n (dotted h e) =
    rw e (plain-ipv4 (show_ipv4 n) n (show_ipv4-plain n h) (parse_ipv4-show_ipv4 n h))
parse_ip-Notation host n (short_two a b ha hb e k) = rw (e, k) (parse_ip-two a b ha hb)
parse_ip-Notation host n (short_three a b c ha hb hc e k) =
    rw (e, k) (parse_ip-three a b c ha hb hc)
parse_ip-Notation host n (decimal h d z e) = rw e (parse_ip-decimal host d z (rw e at h))
parse_ip-Notation host n (octal digits h e some_digits all_octal k) =
    let value : n ≡ read_nat 8 0 (b'0' ∷ digits) = k ∙ ap (λ (t : Text). read_nat 8 0 t) e in
    rw (e, value)
      (single_part b'0' digits (octal_hex digits all_octal)
        ∙ integer-octal digits some_digits all_octal
        ∙ fits _ (rw value at h))
parse_ip-Notation host n (hexadecimal digits h e some_digits all_hex k) =
    rw (e, k)
      (single_part b'0' (b'x' ∷ digits) (hex_hex digits all_hex)
        ∙ integer-hexadecimal digits some_digits all_hex
        ∙ fits _ (rw k at h))
