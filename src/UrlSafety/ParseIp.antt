-- ===== src/UrlSafety/ParseIp.antt =====
-- `_parse_ip` of browser_fetch_router/url_safety.py, with the parsers and printers of the standard
-- library's `ipaddress` that it calls.
pub mod RoundTrip
mod Plain
mod Integers
mod Quads
pub mod Notations
mod Tests
use mathlib.Core.List.{reverse}
use browser_fetch_router.Prelude.{
  ℕ, zero, suc, ◌+◌, ◌-◌, ◌*◌, ◌/◌, ◌%◌, ◌^◌, Bool, true, false, not, ◌&&◌, ◌||◌, Option, none,
  some, List, [], ◌∷◌, ◌++◌, map, ltb, leb, ◌==◌, any, all, length, take, drop, if◌then◌else◌,
}
use browser_fetch_router.Prelude.Text.{
  Text, codes, text_eq, is_digit, is_hex, is_digits, starts_with, split, partition, lower, has_char,
  lstrip_by, rstrip_by, join, show_nat, read_nat,
}
use browser_fetch_router.UrlSafety.Result.{Result, ok, err, unsafe, blocked_ip}
use browser_fetch_router.UrlSafety.Ip.{Ip, v4, v6}

-- IPv4Address._parse_octet
unfoldable pub parse_octet : Text → Option ℕ
parse_octet [] = none
parse_octet (c ∷ s) =
    let octet : Text = c ∷ s in
    let value = read_nat 10 0 octet in
    if not (is_digits octet)
    then none
    else if ltb 3 (length octet)
    then none
    else if c == b'0' && not (text_eq octet (codes "0"))
    then none
    else if ltb 255 value
    then none
    else some value

of_octets : List (Option ℕ) → Option ℕ
of_octets (some a ∷ some b ∷ some c ∷ some d ∷ []) = some (a * 2 ^ 24 + b * 2 ^ 16 + c * 2 ^ 8 + d)
of_octets _ = none

-- IPv4Address(s)
unfoldable pub parse_ipv4 : Text → Option ℕ
unfolding of_octets parse_octet
parse_ipv4 s = of_octets (map parse_octet (split b'.' s))

-- str(IPv4Address(n))
unfoldable pub show_ipv4 : ℕ → Text
show_ipv4 n = join (codes ".") (
    show_nat (n / 2 ^ 24)
    ∷ show_nat (n / 2 ^ 16 % 2 ^ 8)
    ∷ show_nat (n / 2 ^ 8 % 2 ^ 8)
    ∷ show_nat (n % 2 ^ 8)
    ∷ [])

is_empty : Text → Bool
is_empty [] = true
is_empty _ = false

-- IPv6Address._parse_hextet; no part that reaches it is empty, but for a `::` that is cut off.
parse_hextet : Text → Option ℕ
unfolding is_empty
parse_hextet s =
    if not (all is_hex s)
    then none
    else if ltb 4 (length s)
    then none
    else if is_empty s
    then none
    else some (read_nat 16 0 s)

-- The hextets from the left, shifted into the number.
join_hextets : ℕ → List Text → Option ℕ
unfolding parse_hextet
join_hextets acc [] = some acc
join_hextets acc (s ∷ parts) = elim (parse_hextet s) [
  | none ↦ none
  | some h ↦ join_hextets (acc * 2 ^ 16 + h) parts
]

-- A last part with a dot in it is an IPv4 address, and stands for two hextets.
show_hex_digits : ℕ → ℕ → Text → Text
show_hex_digits zero n acc = acc
show_hex_digits (suc fuel) n acc =
    let d = n % 16 in
    let digit = if ltb d 10 then b'0' + d else b'a' + (d - 10) in
    elim (ltb n 16) [ true ↦ digit ∷ acc | false ↦ show_hex_digits fuel (n / 16) (digit ∷ acc) ]

show_hex : ℕ → Text
unfolding show_hex_digits
show_hex n = show_hex_digits (suc n) n []

unfoldable pub tail_parts : List Text → Option (List Text)
unfolding show_hex
tail_parts [] = none
tail_parts (s ∷ []) =
    if has_char b'.' s
    then (elim (parse_ipv4 s) [
      | none ↦ none
      | some n ↦ some (show_hex (n / 2 ^ 16 % 2 ^ 16) ∷ show_hex (n % 2 ^ 16) ∷ [])
    ])
    else some (s ∷ [])
tail_parts (s ∷ t ∷ parts) = elim (tail_parts (t ∷ parts)) [
  | none ↦ none
  | some rest ↦ some (s ∷ rest)
]

-- The positions of the empty parts that are neither first nor last.
gaps : ℕ → List Text → List ℕ
unfolding is_empty
gaps i [] = []
gaps i (s ∷ []) = []
gaps i (s ∷ t ∷ parts) =
    let rest = gaps (suc i) (t ∷ parts) in if not (i == 0) && is_empty s then i ∷ rest else rest

first_empty : List Text → Bool
unfolding is_empty
first_empty [] = false
first_empty (s ∷ parts) = is_empty s

last_empty : List Text → Bool
unfolding first_empty
last_empty parts = first_empty (reverse parts)

-- One `::` at position `skip`: the parts before it, those behind it, and zeros between.
parse_skipped : ℕ → List Text → Option ℕ
unfolding join_hextets first_empty last_empty
parse_skipped skip parts =
    let lo = length parts - skip - 1 in
    let hi_count = if first_empty parts then skip - 1 else skip in
    let lo_count = if last_empty parts then lo - 1 else lo in
    if first_empty parts && not (hi_count == 0)
    then none
    else if last_empty parts && not (lo_count == 0)
    then none
    else if ltb 7 (hi_count + lo_count)
    then none
    else elim (join_hextets 0 (take hi_count parts)) [
      | none ↦ none
      | some hi ↦
          join_hextets (hi * 2 ^ (16 * (8 - (hi_count + lo_count))))
            (drop (length parts - lo_count) parts)
    ]

parse_parts : List Text → Option ℕ
unfolding gaps parse_skipped
parse_parts parts = if ltb 9 (length parts) then none else elim (gaps 0 parts) [
  | [] ↦
      if not (length parts == 8)
      then none
      else if first_empty parts || last_empty parts
      then none
      else join_hextets 0 parts
  | skip ∷ [] ↦ parse_skipped skip parts
  | skip ∷ again ∷ more ↦ none
]

-- IPv6Address(s) of an address with no zone.
unfoldable pub parse_ipv6 : Text → Option ℕ
unfolding parse_parts tail_parts
parse_ipv6 s =
    let parts = split b':' s in
    if ltb (length parts) 3
    then none
    else elim (tail_parts parts) [ none ↦ none | some all_parts ↦ parse_parts all_parts ]

-- ipaddress.ip_address(s) of a text, and of an integer.
unfoldable pub ip_address : Text → Option Ip
unfolding parse_ipv4 parse_ipv6
ip_address s = elim (parse_ipv4 s) [
  | some n ↦ some (v4 n)
  | none ↦ (elim (parse_ipv6 s) [ some n ↦ some (v6 n) | none ↦ none ])
]

unfoldable pub ip_of_int : ℕ → Result (Option Ip)
ip_of_int n =
    if ltb n (2 ^ 32)
    then ok (some (v4 n))
    else if ltb n (2 ^ 128)
    then ok (some (v6 n))
    else err (unsafe blocked_ip)

-- A part of a dotted host that the loops over `dotted_parts` turn away.
unfoldable pub is_bad_part : Text → Bool
is_bad_part part =
    starts_with (lower part) (codes "0x")
    || (ltb 1 (length part) && starts_with part (codes "0") && is_digits part)
    || (is_digits part && ltb 255 (read_nat 10 0 part))

-- re.fullmatch(r"[0-9]+(\.[0-9]+){1,2}", s), with the numbers of the parts.
pub numbers : List Text → Option (List ℕ)
numbers [] = some []
numbers (s ∷ parts) =
    let rest = numbers parts in
    if is_digits s
    then (elim rest [ none ↦ none | some ns ↦ some (read_nat 10 0 s ∷ ns) ])
    else none

pub short_ipv4 : Option (List ℕ) → Option (Result (Option Ip))
short_ipv4 (some (a ∷ b ∷ [])) =
    some
      (if ltb 255 a || ltb 255 b then err (unsafe blocked_ip) else ok (some (v4 (a * 2 ^ 24 + b))))
short_ipv4 (some (a ∷ b ∷ c ∷ [])) = some (
    if ltb 255 a || ltb 255 b || ltb 255 c
    then err (unsafe blocked_ip)
    else ok (some (v4 (a * 2 ^ 24 + b * 2 ^ 16 + c))))
short_ipv4 _ = none

pub is_octal : ℕ → Bool
is_octal c = leb b'0' c && leb c b'7'

all_of : (ℕ → Bool) → Text → Bool
unfolding is_empty
all_of p s = not (is_empty s) && all p s

-- The three integer notations, in the order in which they are tried.
pub integer_ip : Text → Result (Option Ip)
unfolding ip_of_int is_octal all_of
integer_ip s =
    if starts_with s (codes "0x") && all_of is_hex (drop 2 s)
    then ip_of_int (read_nat 16 0 (drop 2 s))
    else if starts_with s (codes "0") && all_of is_octal (drop 1 s)
    then ip_of_int (read_nat 8 0 s)
    else if is_digits s
    then ip_of_int (read_nat 10 0 s)
    else ok none

cleaned : Text → Text
cleaned host =
    let is_bracket = λ (c : ℕ). c == b'[' || c == b']' in
    (partition b'%' (rstrip_by is_bracket (lstrip_by is_bracket host))).before

pub obfuscated_ip : Text → Result (Option Ip)
unfolding is_bad_part numbers short_ipv4 integer_ip
obfuscated_ip s =
    if has_char b'.' s && any is_bad_part (split b'.' s)
    then err (unsafe blocked_ip)
    else elim (short_ipv4 (numbers (split b'.' s))) [ some out ↦ out | none ↦ integer_ip s ]

unfoldable pub parse_ip : Text → Result (Option Ip)
unfolding cleaned ip_address obfuscated_ip is_empty
parse_ip host =
    let s = cleaned host in
    if is_empty s
    then ok none
    else elim (ip_address s) [ some ip ↦ ok (some ip) | none ↦ obfuscated_ip s ]

-- IPv6Address._compress_hextets: the longest run of zeros, the first of that length.
record Run : Type 0 where
  best_start : ℕ
  best_len : ℕ
  start : ℕ
  len : ℕ

longest_run : ℕ → List ℕ → Run → Run
longest_run i [] r = r
longest_run i (h ∷ hextets) r = longest_run (suc i) hextets (
    if h == 0
    then (let start = if r.len == 0 then i else r.start in
        if ltb r.best_len (r.len + 1)
        then record { best_start = start; best_len = r.len + 1; start = start; len = r.len + 1 }
        else record r { start = start; len = r.len + 1 })
    else record r { start = 0; len = 0 })

compress_hextets : List ℕ → List Text
unfolding longest_run show_hex
compress_hextets hextets =
    let r = longest_run 0 hextets (record { best_start = 0; best_len = 0; start = 0; len = 0 }) in
    let stop = r.best_start + r.best_len in
    if ltb 1 r.best_len
    then (if r.best_start == 0 then [] ∷ [] else [])
      ++ (map show_hex (take r.best_start hextets)
          ++ ([]
              ∷ (map show_hex (drop stop hextets)
                  ++ (if stop == length hextets then [] ∷ [] else []))))
    else map show_hex hextets

-- IPv6Address(n).compressed
unfoldable pub show_ipv6 : ℕ → Text
unfolding compress_hextets
show_ipv6 n = join (codes ":") (
    compress_hextets (
      n / 2 ^ 112 % 2 ^ 16
      ∷ n / 2 ^ 96 % 2 ^ 16
      ∷ n / 2 ^ 80 % 2 ^ 16
      ∷ n / 2 ^ 64 % 2 ^ 16
      ∷ n / 2 ^ 48 % 2 ^ 16
      ∷ n / 2 ^ 32 % 2 ^ 16
      ∷ n / 2 ^ 16 % 2 ^ 16
      ∷ n % 2 ^ 16
      ∷ []))
