-- ===== src/UrlSafety/ParseIp/Tests.antt =====
-- Addresses in every notation.
use browser_fetch_router.Prelude.{◌≡◌, refl, Option, some, none, any, all}
use browser_fetch_router.Prelude.Text.{
  Text, codes, text_eq, is_digits, starts_with, split, partition, lower, has_char, lstrip_by,
  rstrip_by, join, show_nat, read_nat,
}
use browser_fetch_router.UrlSafety.Result.{Result, ok, err, unsafe, blocked_ip}
use browser_fetch_router.UrlSafety.Ip.{Ip, v4, v6, octets}
use browser_fetch_router.UrlSafety.ParseIp.{parse_ip, show_ipv4, show_ipv6}

parsed : Text → Result (Option Ip)
unfolding parse_ip any all codes text_eq is_digits starts_with split partition lower has_char
    lstrip_by rstrip_by join show_nat read_nat
parsed = parse_ip

notations :
    (parsed (codes "8.8.4.4") ≡ ok (some (v4 (octets 8 8 4 4))))
    × (parsed (codes "127.1") ≡ ok (some (v4 (octets 127 0 0 1))))
    × (parsed (codes "10.1.3") ≡ ok (some (v4 (octets 10 1 0 3))))
    × (parsed (codes "0x7f000001") ≡ ok (some (v4 (octets 127 0 0 1))))
    × (parsed (codes "017700000001") ≡ ok (some (v4 (octets 127 0 0 1))))
    × (parsed (codes "2130706433") ≡ ok (some (v4 (octets 127 0 0 1))))
    × (parsed (codes "0177.0.0.1") ≡ err (unsafe blocked_ip))
    × (parsed (codes "1.2.3.400") ≡ err (unsafe blocked_ip))
    × (parsed (codes "example.com") ≡ ok none)
    × (parsed (codes "[::ffff:127.0.0.1]") ≡ ok (some (v6 0xffff7f000001)))
    × (parsed (codes "fe80::1%eth0") ≡ ok (some (v6 0xfe800000000000000000000000000001)))
    × (parsed (codes "1::2::3") ≡ ok none)
unfolding parsed
notations = (refl, refl, refl, refl, refl, refl, refl, refl, refl, refl, refl, refl)

printed :
    (show_ipv6 0xfe800000000000000000000000000001 ≡ codes "fe80::1")
    × (show_ipv6 1 ≡ codes "::1")
    × (show_ipv6 0 ≡ codes "::")
    × (show_ipv4 (octets 8 8 4 4) ≡ codes "8.8.4.4")
unfolding parsed show_ipv4 show_ipv6
printed = (refl, refl, refl, refl)
