-- ===== src/HttpClient/Headers/Framing.antt =====
-- Headers that pass cannot change the framing of a request.
use Prim.Native.String.{String}
use browser_fetch_router.Prelude.{
  map, ℕ, ◌≡◌, ◌≢◌, ◌≤◌, ◌<◌, ◌↔◌, ◌⊎◌, refl, Bool, true, false, List, [], ◌∷◌, All, all, any,
  arith,
}
use browser_fetch_router.Prelude.Text.{Text, codes, text_eq, text_eq_iff, has_char, one_of, lower}
use browser_fetch_router.UrlSafety.Result.{ok, of_bind_ok}
use browser_fetch_router.HttpClient.Headers.{
  Headers, transport_owned_headers, has_control, is_token_char, is_value_char, validate_header,
  validate_extra_headers,
}

-- The characters of a token of RFC 7230: digits, letters, and the marks !, # to ', * and +, - and ., ^
-- to `, | and ~.
abbrev pub IsTokenChar : ℕ → Type 0
IsTokenChar c =
    ((0x30 ≤ c) × (c ≤ 0x39))
    ⊎ (((0x41 ≤ c) × (c ≤ 0x5a))
        ⊎ (((0x61 ≤ c) × (c ≤ 0x7a))
            ⊎ ((c ≡ 0x21)
                ⊎ (((0x23 ≤ c) × (c ≤ 0x27))
                    ⊎ (((0x2a ≤ c) × (c ≤ 0x2b))
                        ⊎ (((0x2d ≤ c) × (c ≤ 0x2e))
                            ⊎ (((0x5e ≤ c) × (c ≤ 0x60)) ⊎ ((c ≡ 0x7c) ⊎ (c ≡ 0x7e)))))))))

-- A tab, or a character from space to tilde.
abbrev pub IsFieldChar : ℕ → Type 0
IsFieldChar c = (c ≡ 9) ⊎ ((32 ≤ c) × (c ≤ 126))

-- The names that only the transport writes.
abbrev pub owned : List String
owned =
    "host" ∷ "content-length" ∷ "transfer-encoding" ∷ "te" ∷ "trailer" ∷ "connection" ∷ "upgrade"
    ∷ "expect" ∷ "user-agent" ∷ []

-- The name is a token that the transport does not write itself, in any case, and the value is
-- printable.
pub record IsHarmless (header : Text × Text) : Type 0 where
  pub named : header.0 ≢ []
  pub token : All IsTokenChar header.0
  pub printable : All IsFieldChar header.1
  pub not_owned : All (λ name. lower header.0 ≢ codes name) owned

token_char : (c : ℕ) → is_token_char c ≡ true → IsTokenChar c
unfolding is_token_char has_char any codes
token_char c h = ground arith

char_token : (c : ℕ) → IsTokenChar c → is_token_char c ≡ true
unfolding is_token_char has_char any codes
char_token c h = ground arith

field_char : (c : ℕ) → is_value_char c ≡ true → IsFieldChar c
unfolding is_value_char
field_char c h = ground arith

char_field : (c : ℕ) → IsFieldChar c → is_value_char c ≡ true
unfolding is_value_char
char_field c h = ground arith

module _ (p : ℕ → Bool) (P : ℕ → Type 0) where
  All-all : ((c : ℕ) → P c → p c ≡ true) → (s : Text) → All P s → all p s ≡ true
  unfolding all
  All-all f [] h = refl
  All-all f (c ∷ s) h = rw (f c h.0) (All-all f s h.1)

  all-All : ((c : ℕ) → p c ≡ true → P c) → (s : Text) → all p s ≡ true → All P s
  unfolding all
  all-All f [] h = tt
  all-All f (c ∷ s) h = (f c (ground arith), all-All f s (ground arith))

-- A text that is none of these, and the test for it.
not_one_of :
    (s : Text) (names : List String)
    → one_of s (map codes names) ≡ false
    → All (λ name. s ≢ codes name) names
unfolding one_of any
not_one_of s [] h = tt
not_one_of s (name ∷ names) h =
    (λ e. absurd (ground (arith, text_eq_iff s (codes name))), not_one_of s names (ground arith))

one_of_none :
    (s : Text) (names : List String)
    → All (λ name. s ≢ codes name) names
    → one_of s (map codes names) ≡ false
unfolding one_of any
one_of_none s [] h = refl
one_of_none s (name ∷ names) h =
    ground (arith, h.0, text_eq_iff s (codes name), one_of_none s names h.1)

-- No control character is in a token or in a field.
token_char-control : (c : ℕ) → is_token_char c ≡ true → 32 < c
unfolding is_token_char
token_char-control c h = ground arith

token-control : (s : Text) → all is_token_char s ≡ true → has_control s ≡ false
unfolding has_control any all
token-control [] h = refl
token-control (c ∷ s) h = ground (arith, token_char-control c, token-control s)

field-control : (s : Text) → all is_value_char s ≡ true → has_control s ≡ false
unfolding has_control any all is_value_char
field-control [] h = refl
field-control (c ∷ s) h = ground (arith, field-control s)

host-owned : (s : Text) → text_eq s (codes "host") ≡ true → one_of s transport_owned_headers ≡ true
unfolding one_of any
host-owned s h = ground arith

nil-cases : (s : Text) → text_eq s [] ≡ false → s ≢ []
nil-cases s h e = absurd (ground (arith, text_eq_iff s []))

validate_header-IsHarmless :
    (host k v : Text) → validate_header host k v ≡ ok tt → IsHarmless (k, v)
unfolding validate_header
validate_header-IsHarmless host k v h = record {
  named = nil-cases k (ground arith);
  token = all-All is_token_char IsTokenChar token_char k (ground arith);
  printable = all-All is_value_char IsFieldChar field_char v (ground arith);
  not_owned = not_one_of (lower k) owned (ground arith);
}

IsHarmless-validate_header :
    (host k v : Text) → IsHarmless (k, v) → validate_header host k v ≡ ok tt
unfolding validate_header
IsHarmless-validate_header host k v h =
    let token = All-all is_token_char IsTokenChar char_token k h.token in
    let printable = All-all is_value_char IsFieldChar char_field v h.printable in
    let free = one_of_none (lower k) owned h.not_owned in
    ground (
      arith,
      token,
      printable,
      free,
      h.named,
      text_eq_iff k [],
      token-control k token,
      field-control v printable,
      host-owned (lower k),
    )

headers-All :
    (host : Text) (headers : Headers)
    → validate_extra_headers host headers ≡ ok tt
    → All IsHarmless headers
unfolding validate_extra_headers
headers-All host [] h = tt
headers-All host ((k, v) ∷ headers) h =
    of_bind_ok (validate_header host k v) _ h (λ unit first rest.
      (validate_header-IsHarmless host k v (ground arith), headers-All host headers rest))

All-headers :
    (host : Text) (headers : Headers)
    → All IsHarmless headers
    → validate_extra_headers host headers ≡ ok tt
unfolding validate_extra_headers
All-headers host [] h = refl
All-headers host ((k, v) ∷ headers) h =
    rw (IsHarmless-validate_header host k v h.0) (All-headers host headers h.1)

-- The headers pass, whatever the host, if and only if every name is a token that is not one of the
-- transport's own, in any case, and no value has a character but printable ASCII, space and tab.
pub validate_extra_headers_iff :
    (host : Text) (headers : Headers)
    → (validate_extra_headers host headers ≡ ok tt) ↔ All IsHarmless headers
validate_extra_headers_iff host headers = (headers-All host headers, All-headers host headers)
