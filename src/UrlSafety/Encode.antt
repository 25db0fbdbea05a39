-- ===== src/UrlSafety/Encode.antt =====
-- The encodings that url_safety.py calls: the IDNA codec and `urllib.parse.quote`.
pub mod Quoting
use browser_fetch_router.Prelude.{
  ℕ, ◌+◌, ◌-◌, ◌*◌, ◌/◌, ◌%◌, ◌^◌, Bool, true, false, not, ◌&&◌, ◌||◌, Option, none, some, List, [],
  ◌∷◌, ◌++◌, ltb, leb, ◌==◌, all, length, if◌then◌else◌,
}
use browser_fetch_router.Prelude.Text.{
  Text, codes, is_ascii, is_alpha, is_digit, has_char, split, lower,
}
use browser_fetch_router.UrlSafety.SplitUrl.{Unicode}

-- ASCII text is its own IDNA form if every label has 1 to 63 characters; the last may be empty.
labels_fit : List Text → Bool
labels_fit [] = true
labels_fit (l ∷ []) = ltb (length l) 64
labels_fit (l ∷ m ∷ labels) = ltb 0 (length l) && ltb (length l) 64 && labels_fit (m ∷ labels)

-- s.encode("idna").decode("ascii"); `none` is a UnicodeError.
unfoldable pub encode_idna : Unicode → Text → Option Text
unfolding labels_fit
encode_idna u s =
    if is_ascii s then (if labels_fit (split b'.' s) then some s else none) else u.idna s

-- The UTF-8 bytes of a code point.
unfoldable pub utf8 : ℕ → List ℕ
utf8 c =
    if ltb c 0x80
    then c ∷ []
    else if ltb c 0x800
    then (0xc0 + c / 2 ^ 6) ∷ (0x80 + c % 2 ^ 6) ∷ []
    else if ltb c 0x10000
    then (0xe0 + c / 2 ^ 12) ∷ (0x80 + c / 2 ^ 6 % 2 ^ 6) ∷ (0x80 + c % 2 ^ 6) ∷ []
    else (0xf0 + c / 2 ^ 18)
      ∷ (0x80 + c / 2 ^ 12 % 2 ^ 6)
      ∷ (0x80 + c / 2 ^ 6 % 2 ^ 6)
      ∷ (0x80 + c % 2 ^ 6)
      ∷ []

hex_digit : ℕ → ℕ
hex_digit d = if ltb d 10 then b'0' + d else b'A' + (d - 10)

percent : ℕ → Text
unfolding hex_digit
percent byte = b'%' ∷ hex_digit (byte / 16) ∷ hex_digit (byte % 16) ∷ []

percents : List ℕ → Text
percents [] = []
percents (b ∷ bytes) = percent b ++ percents bytes

is_unreserved : ℕ → Bool
is_unreserved c = is_alpha c || is_digit c || (c == b'_' || (c == b'.' || (c == b'-' || c == b'~')))

-- A character that `quote` leaves as it is.
unfoldable pub is_kept : Text → ℕ → Bool
unfolding is_unreserved
is_kept safe c = ltb c 128 && (is_unreserved c || has_char c safe)

quote_char : Text → ℕ → Text
unfolding percent percents is_kept utf8
quote_char safe c = if is_kept safe c then c ∷ [] else percents (utf8 c)

-- quote(s, safe=safe)
unfoldable pub quote : Text → Text → Text
unfolding quote_char
quote safe [] = []
quote safe (c ∷ s) = quote_char safe c ++ quote safe s
