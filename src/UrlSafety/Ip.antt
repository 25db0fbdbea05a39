-- ===== src/UrlSafety/Ip.antt =====
-- IP addresses and `is_blocked_ip` of browser_fetch_router/url_safety.py. The address classes are those of
-- the standard library's `ipaddress` (CPython 3.11).
pub mod Blocking
use browser_fetch_router.Prelude.{
  ℕ, ◌+◌, ◌*◌, ◌/◌, ◌%◌, ◌^◌, Bool, true, false, not, ◌&&◌, ◌||◌, List, [], ◌∷◌, ◌==◌, any,
  if◌then◌else◌,
}

pub data Ip : Type 0 where
  v4 : ℕ → Ip
  v6 : ℕ → Ip

abbrev pub octets : ℕ → ℕ → ℕ → ℕ → ℕ
octets a b c d = a * 2 ^ 24 + b * 2 ^ 16 + c * 2 ^ 8 + d

-- Whether an address lies in the network of `base` with so many host bits.
abbrev pub in_network : ℕ → ℕ → ℕ → Bool
in_network base host_bits ip = ip / 2 ^ host_bits == base / 2 ^ host_bits

abbrev pub is_loopback4 : ℕ → Bool
is_loopback4 = in_network (octets 127 0 0 0) 24

unfoldable pub is_private4 : ℕ → Bool
is_private4 n =
    (in_network (octets 0 0 0 0) 24 n
      || in_network (octets 10 0 0 0) 24 n
      || in_network (octets 127 0 0 0) 24 n
      || in_network (octets 169 254 0 0) 16 n
      || in_network (octets 172 16 0 0) 20 n
      || in_network (octets 192 0 0 0) 8 n
      || in_network (octets 192 0 0 170) 1 n
      || in_network (octets 192 0 2 0) 8 n
      || in_network (octets 192 168 0 0) 16 n
      || in_network (octets 198 18 0 0) 17 n
      || in_network (octets 198 51 100 0) 8 n
      || in_network (octets 203 0 113 0) 8 n
      || in_network (octets 240 0 0 0) 28 n
      || in_network (octets 255 255 255 255) 0 n)
    && not (n == octets 192 0 0 9)
    && not (n == octets 192 0 0 10)

abbrev pub is_link_local4 : ℕ → Bool
is_link_local4 = in_network (octets 169 254 0 0) 16

abbrev pub is_multicast4 : ℕ → Bool
is_multicast4 = in_network (octets 224 0 0 0) 28

abbrev pub is_reserved4 : ℕ → Bool
is_reserved4 = in_network (octets 240 0 0 0) 28

-- The first 16 bits and the rest of a 128-bit address that ends in zeros.
abbrev group : ℕ → ℕ
group g = g * 2 ^ 112

abbrev groups : ℕ → ℕ → ℕ → ℕ
groups a b c = a * 2 ^ 112 + b * 2 ^ 96 + c * 2 ^ 80

abbrev pub is_loopback6 : ℕ → Bool
is_loopback6 n = n == 1

unfoldable pub is_private6 : ℕ → Bool
is_private6 n =
    (n == 1
      || n == 0
      || in_network (0xffff * 2 ^ 32) 32 n
      || in_network (groups 0x64 0xff9b 1) 80 n
      || in_network (group 0x100) 64 n
      || in_network (group 0x2001) 105 n
      || in_network (groups 0x2001 0xdb8 0) 96 n
      || in_network (group 0x2002) 112 n
      || in_network (group 0xfc00) 121 n
      || in_network (group 0xfe80) 118 n)
    && not (n == groups 0x2001 1 0 + 1)
    && not (n == groups 0x2001 1 0 + 2)
    && not (in_network (groups 0x2001 3 0) 96 n)
    && not (in_network (groups 0x2001 4 0x112) 80 n)
    && not (in_network (groups 0x2001 0x20 0) 100 n)
    && not (in_network (groups 0x2001 0x30 0) 100 n)

abbrev pub is_link_local6 : ℕ → Bool
is_link_local6 = in_network (group 0xfe80) 118

abbrev pub is_multicast6 : ℕ → Bool
is_multicast6 = in_network (group 0xff00) 120

unfoldable pub is_reserved6 : ℕ → Bool
is_reserved6 n =
    in_network 0 120 n
    || in_network (group 0x100) 120 n
    || in_network (group 0x200) 121 n
    || in_network (group 0x400) 122 n
    || in_network (group 0x800) 123 n
    || in_network (group 0x1000) 124 n
    || in_network (group 0x4000) 125 n
    || in_network (group 0x6000) 125 n
    || in_network (group 0x8000) 125 n
    || in_network (group 0xa000) 125 n
    || in_network (group 0xc000) 125 n
    || in_network (group 0xe000) 124 n
    || in_network (group 0xf000) 123 n
    || in_network (group 0xf800) 122 n
    || in_network (group 0xfe00) 119 n

-- EXTRA_BLOCKED_IPS
unfoldable pub is_extra_blocked : ℕ → Bool
is_extra_blocked n = n == octets 169 254 169 254 || n == octets 169 254 170 2 || n == octets 0 0 0 0

unfoldable pub is_blocked4 : Bool → ℕ → Bool
unfolding is_extra_blocked is_private4
is_blocked4 allow_loopback n =
    if is_extra_blocked n
    then true
    else if allow_loopback && is_loopback4 n
    then false
    else is_loopback4 n
      || is_private4 n
      || is_link_local4 n
      || is_multicast4 n
      || is_reserved4 n
      || n == 0

unfoldable pub is_blocked6 : Bool → ℕ → Bool
unfolding is_private6 is_reserved6
is_blocked6 allow_loopback n =
    if allow_loopback && is_loopback6 n
    then false
    else is_loopback6 n
      || is_private6 n
      || is_link_local6 n
      || is_multicast6 n
      || is_reserved6 n
      || n == 0

-- `ipv4_mapped` is the test; a mapped address is judged as the IPv4 address.
unfoldable pub is_blocked_ip : Bool → Ip → Bool
is_blocked_ip allow_loopback (v4 n) = is_blocked4 allow_loopback n
is_blocked_ip allow_loopback (v6 n) =
    if n / 2 ^ 32 == 0xffff
    then is_blocked4 allow_loopback (n % 2 ^ 32)
    else is_blocked6 allow_loopback n
