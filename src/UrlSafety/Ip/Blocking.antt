-- ===== src/UrlSafety/Ip/Blocking.antt =====
-- What `is_blocked_ip` keeps out.
use browser_fetch_router.Prelude.{
  ℕ, ◌+◌, ◌*◌, ◌/◌, ◌%◌, ◌^◌, ◌≤◌, ◌<◌, ◌≡◌, ◌∙◌, ◌==◌, inl, inr, Bool-cases, Bool, true, false,
  not, ◌&&◌, arith, if◌then◌else◌,
}
use browser_fetch_router.UrlSafety.Ip.{
  Ip, v4, v6, octets, is_extra_blocked, is_loopback4, is_loopback6, is_blocked4, is_blocked6,
  is_blocked_ip,
}

-- Addresses in the ranges that RFC 1918 and its kin keep from the public internet.
pub data Internal (n : ℕ) : Type 0 where
  this_network : n < octets 1 0 0 0 → Internal n
  class_a : octets 10 0 0 0 ≤ n → n < octets 11 0 0 0 → Internal n
  loopback : octets 127 0 0 0 ≤ n → n < octets 128 0 0 0 → Internal n
  link_local : octets 169 254 0 0 ≤ n → n < octets 169 255 0 0 → Internal n
  class_b : octets 172 16 0 0 ≤ n → n < octets 172 32 0 0 → Internal n
  class_c : octets 192 168 0 0 ≤ n → n < octets 192 169 0 0 → Internal n
  multicast_or_reserved : octets 224 0 0 0 ≤ n → n < 2 ^ 32 → Internal n

blocked4-Internal : (n : ℕ) → Internal n → is_blocked4 false n ≡ true
unfolding is_blocked4
blocked4-Internal n (this_network h) = ground arith
blocked4-Internal n (class_a l h) = ground arith
blocked4-Internal n (loopback l h) = ground arith
blocked4-Internal n (link_local l h) = ground arith
blocked4-Internal n (class_b l h) = ground arith
blocked4-Internal n (class_c l h) = ground arith
blocked4-Internal n (multicast_or_reserved l h) = ground arith

-- The IPv4 address that an IPv6 address stands for, if it is a mapped one.
abbrev unmapped : Ip → Ip
unmapped (v4 n) = v4 n
unmapped (v6 n) = if n / 2 ^ 32 == 0xffff then v4 (n % 2 ^ 32) else v6 n

abbrev is_loopback : Ip → Bool
is_loopback (v4 n) = is_loopback4 n
is_loopback (v6 n) = is_loopback6 n

abbrev pub mapped : ℕ → Ip
mapped n = v6 (0xffff * 2 ^ 32 + n)

mapped-high : (n : ℕ) → n < 2 ^ 32 → (0xffff * 2 ^ 32 + n) / 2 ^ 32 ≡ 0xffff
mapped-high n h = omega arith

mapped-low : (n : ℕ) → n < 2 ^ 32 → (0xffff * 2 ^ 32 + n) % 2 ^ 32 ≡ n
mapped-low n h = omega arith

blocked-mapped :
    (allow : Bool) (n : ℕ)
    → n < 2 ^ 32
    → is_blocked_ip allow (mapped n) ≡ is_blocked_ip allow (v4 n)
unfolding is_blocked_ip
blocked-mapped allow n h = rw (mapped-high n h, mapped-low n h)

Internal-lt : (n : ℕ) → Internal n → n < 2 ^ 32
Internal-lt n (this_network h) = omega arith
Internal-lt n (class_a l h) = omega arith
Internal-lt n (loopback l h) = omega arith
Internal-lt n (link_local l h) = omega arith
Internal-lt n (class_b l h) = omega arith
Internal-lt n (class_c l h) = omega arith
Internal-lt n (multicast_or_reserved l h) = omega arith

-- Every internal IPv4 address is blocked without the loopback exemption, written as itself or
-- as an IPv4-mapped IPv6 address.
pub is_blocked_ip-Internal :
    (n : ℕ)
    → Internal n
    → (is_blocked_ip false (v4 n) ≡ true) × (is_blocked_ip false (mapped n) ≡ true)
unfolding is_blocked_ip
is_blocked_ip-Internal n h =
    (blocked4-Internal n h, blocked-mapped false n (Internal-lt n h) ∙ blocked4-Internal n h)

loopback-not_extra : (n : ℕ) → is_loopback4 n ≡ true → is_extra_blocked n ≡ false
unfolding is_extra_blocked
loopback-not_extra n h = ground arith

blocked4-exempt : (n : ℕ) → is_blocked4 true n ≡ (is_blocked4 false n && not (is_loopback4 n))
unfolding is_blocked4
blocked4-exempt n = elim (Bool-cases (is_loopback4 n)) [
  | inl e ↦ rw (e, loopback-not_extra n e)
  | inr e ↦ rw e (ground arith)
]

blocked6-exempt : (n : ℕ) → is_blocked6 true n ≡ (is_blocked6 false n && not (is_loopback6 n))
unfolding is_blocked6
blocked6-exempt n = elim (Bool-cases (is_loopback6 n)) [
  | inl e ↦ rw e
  | inr e ↦ rw e (ground arith)
]

-- The loopback exemption lifts the block from loopback addresses, mapped ones among them, and from
-- nothing else.
is_blocked_ip-exempt :
    (ip : Ip) → is_blocked_ip true ip ≡ (is_blocked_ip false ip && not (is_loopback (unmapped ip)))
unfolding is_blocked_ip
is_blocked_ip-exempt (v4 n) = blocked4-exempt n
is_blocked_ip-exempt (v6 n) = elim (Bool-cases (n / 2 ^ 32 == 0xffff)) [
  | inl e ↦ rw e (blocked4-exempt (n % 2 ^ 32))
  | inr e ↦ rw e (blocked6-exempt n)
]
