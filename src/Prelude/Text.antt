-- ===== src/Prelude/Text.antt =====
-- Python's `str`, as a list of code points, with the methods that the program calls. Case, white
-- space and digits are those of ASCII; a code point above 127 is a letter of no case.
use Prim.Native.Char.{code}
use Prim.Native.String.{String}
use Prim.Native.Nat.{ℕ, zero, suc, ◌+◌, ◌-◌, ◌*◌, ◌/◌, ◌%◌}
use mathlib.Core.Path.{◌≡◌, refl}
use mathlib.Core.Logic.{◌↔◌}
use mathlib.Core.Bool.{Bool, true, false, ◌&&◌, ◌||◌}
use mathlib.Core.List.{List, [], ◌∷◌, ◌++◌, map, reverse}
use native.Mathlib.Omega.{arith}
use browser_fetch_router.Prelude.Tests.{ltb, leb, ◌==◌, if◌then◌else◌}
use browser_fetch_router.Prelude.Lists.{any, all}

abbrev pub Text : Type 0
Text = List ℕ

-- The code points of a literal.
unfoldable pub codes : String → Text
codes String.[] = []
codes (String.◌∷◌ c s) = code c ∷ codes s

unfoldable pub text_eq : Text → Text → Bool
text_eq [] [] = true
text_eq [] (d ∷ t) = false
text_eq (c ∷ s) [] = false
text_eq (c ∷ s) (d ∷ t) = c == d && text_eq s t

pub text_eq_refl : (s : Text) → text_eq s s ≡ true
unfolding text_eq
text_eq_refl [] = refl
text_eq_refl (c ∷ s) = ground (arith, text_eq_refl s)

pub eq_of_text_eq : (s t : Text) → text_eq s t ≡ true → s ≡ t
unfolding text_eq
eq_of_text_eq [] [] h = refl
eq_of_text_eq [] (d ∷ t) h = cc
eq_of_text_eq (c ∷ s) [] h = cc
eq_of_text_eq (c ∷ s) (d ∷ t) h = ground (arith, eq_of_text_eq s t)

pub text_eq_of_eq : (s t : Text) → s ≡ t → text_eq s t ≡ true
text_eq_of_eq s t h = rw h (text_eq_refl t)

pub text_eq_iff : (s t : Text) → (text_eq s t ≡ true) ↔ (s ≡ t)
text_eq_iff s t = (eq_of_text_eq s t, text_eq_of_eq s t)

-- `x in {...}` and `c in s`.
unfoldable pub one_of : Text → List Text → Bool
one_of s options = any (text_eq s) options

unfoldable pub has_char : ℕ → Text → Bool
has_char c s = any (λ d. c == d) s

abbrev pub is_upper : ℕ → Bool
is_upper c = leb b'A' c && leb c b'Z'

abbrev pub is_digit : ℕ → Bool
is_digit c = leb b'0' c && leb c b'9'

abbrev pub is_alpha : ℕ → Bool
is_alpha c = is_upper c || (leb b'a' c && leb c b'z')

abbrev pub is_space : ℕ → Bool
is_space c = (leb 9 c && leb c 13) || (leb 28 c && leb c 32)

abbrev pub is_ascii : Text → Bool
is_ascii s = all (λ c. ltb c 128) s

abbrev pub is_hex : ℕ → Bool
is_hex c = is_digit c || ((leb b'a' c && leb c b'f') || (leb b'A' c && leb c b'F'))

unfoldable pub lower_char : ℕ → ℕ
lower_char c = if is_upper c then c + 32 else c

unfoldable pub lower : Text → Text
unfolding lower_char
lower = map lower_char

lower_char_idem : (c : ℕ) → lower_char (lower_char c) ≡ lower_char c
unfolding lower_char
lower_char_idem c = ground arith

pub lower-lower : (s : Text) → lower (lower s) ≡ lower s
unfolding lower
lower-lower [] = refl
lower-lower (c ∷ s) = cc (lower_char_idem c, lower-lower s)

-- `s.upper()`.
upper_char : ℕ → ℕ
upper_char c = if leb b'a' c && leb c b'z' then c - 32 else c

unfoldable pub upper : Text → Text
unfolding upper_char
upper = map upper_char

-- `s.isdigit()` on ASCII text.
unfoldable pub is_digits : Text → Bool
unfolding all
is_digits [] = false
is_digits s = all is_digit s

unfoldable pub starts_with : Text → Text → Bool
starts_with s [] = true
starts_with [] (p ∷ prefix) = false
starts_with (c ∷ s) (p ∷ prefix) = c == p && starts_with s prefix

unfoldable pub ends_with : Text → Text → Bool
unfolding starts_with
ends_with s suffix = starts_with (reverse s) (reverse suffix)

-- `needle in s`.
unfoldable pub contains_text : Text → Text → Bool
unfolding starts_with
contains_text needle [] = starts_with [] needle
contains_text needle (c ∷ s) = starts_with (c ∷ s) needle || contains_text needle s

-- `s.partition(c)`: what stands before the first `c`, whether there is one, and what follows.
pub record Parts : Type 0 where
  pub before : Text
  pub found : Bool
  pub after : Text

unfoldable pub partition : ℕ → Text → Parts
partition c [] = record { before = []; found = false; after = [] }
partition c (d ∷ s) =
    let rest = partition c s in
    if c == d
    then record { before = []; found = true; after = s }
    else record rest { before = d ∷ rest.before }

-- `s.rpartition(c)`: at the last `c`; without one everything stands after it.
unfoldable pub rpartition : ℕ → Text → Parts
unfolding partition
rpartition c s =
    let p = partition c (reverse s) in
    if p.found
    then record { before = reverse p.after; found = true; after = reverse p.before }
    else record { before = []; found = false; after = s }

-- `s.split(c)`.
push_char : ℕ → List Text → List Text
push_char c [] = (c ∷ []) ∷ []
push_char c (w ∷ ws) = (c ∷ w) ∷ ws

unfoldable pub split : ℕ → Text → List Text
unfolding push_char
split c [] = [] ∷ []
split c (d ∷ s) = let rest = split c s in if c == d then [] ∷ rest else push_char d rest

unfoldable pub lstrip_by : (ℕ → Bool) → Text → Text
lstrip_by p [] = []
lstrip_by p (c ∷ s) = let rest = lstrip_by p s in if p c then rest else c ∷ s

unfoldable pub rstrip_by : (ℕ → Bool) → Text → Text
unfolding lstrip_by
rstrip_by p s = reverse (lstrip_by p (reverse s))

unfoldable pub strip : Text → Text
unfolding rstrip_by
strip s = rstrip_by is_space (lstrip_by is_space s)

unfoldable pub join : Text → List Text → Text
join sep [] = []
join sep (w ∷ []) = w
join sep (w ∷ v ∷ ws) = w ++ (sep ++ join sep (v ∷ ws))

-- `str(n)`. The fuel is above the number, so the digits never run out.
show_digits : ℕ → ℕ → Text → Text
show_digits zero n acc = acc
show_digits (suc fuel) n acc =
    let digit = b'0' + n % 10 in
    elim (ltb n 10) [ true ↦ digit ∷ acc | false ↦ show_digits fuel (n / 10) (digit ∷ acc) ]

unfoldable pub show_nat : ℕ → Text
unfolding show_digits
show_nat n = show_digits (suc n) n []

-- `int(s, base)` of digits that are known to be digits of the base.
abbrev pub digit_value : ℕ → ℕ
digit_value c =
    if is_digit c then c - b'0' else if is_upper c then (c + 10) - b'A' else (c + 10) - b'a'

unfoldable pub read_nat : ℕ → ℕ → Text → ℕ
read_nat base acc [] = acc
read_nat base acc (c ∷ s) = read_nat base (acc * base + digit_value c) s
