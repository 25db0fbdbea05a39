-- ===== src/HttpClient/Headers.antt =====
-- `_validate_extra_headers` of browser_fetch_router/http_client.py.
pub mod Framing
use browser_fetch_router.Prelude.{
  ℕ, Bool, true, false, not, ◌&&◌, ◌||◌, Option, none, some, List, [], ◌∷◌, map, any, all, ltb, leb,
  ◌==◌, if◌then◌else◌,
}
use browser_fetch_router.Prelude.Text.{Text, codes, text_eq, one_of, has_char, lower, strip}
use browser_fetch_router.UrlSafety.Result.{
  Unsafe, header_control_char_injection, header_empty_name, header_invalid_name_char,
  header_non_ascii_byte, host_header_smuggling, transport_owned_header, Result, ok, err, refuse_if,
  ◌>>=◌, ◌>>◌,
}

-- A `dict` of headers, in its order.
abbrev pub Headers : Type 0
Headers = List (Text × Text)

abbrev pub transport_owned_headers : List Text
transport_owned_headers = map codes (
    "host" ∷ "content-length" ∷ "transfer-encoding" ∷ "te" ∷ "trailer" ∷ "connection" ∷ "upgrade"
    ∷ "expect" ∷ "user-agent" ∷ [])

unfoldable pub has_control : Text → Bool
has_control s = any (λ c. c == 13 || (c == 10 || c == 0)) s

token_delimiters : Text
token_delimiters = codes "\"(),/:;<=>?@[\\]{}"

unfoldable pub is_token_char : ℕ → Bool
unfolding token_delimiters
is_token_char c = leb 0x21 c && ltb c 0x7f && not (has_char c token_delimiters)

unfoldable pub is_value_char : ℕ → Bool
is_value_char c = c == 0x09 || (c == 0x20 || (leb 0x21 c && leb c 0x7e))

-- One header. The two errors on `host` and the text on `user-agent` differ by their message.
unfoldable pub validate_header : Text → Text → Text → Result (Unit {0})
validate_header expected_host k v = do
  refuse_if (has_control k || has_control v) header_control_char_injection
  refuse_if (text_eq k []) header_empty_name
  refuse_if (not (all is_token_char k)) header_invalid_name_char
  refuse_if (not (all is_value_char v)) header_non_ascii_byte
  refuse_if
      (text_eq (lower k) (codes "host") && not (text_eq (lower (strip v)) (lower expected_host)))
      host_header_smuggling
  refuse_if (one_of (lower k) transport_owned_headers) transport_owned_header
  ok tt

unfoldable pub validate_extra_headers : Text → Headers → Result (Unit {0})
validate_extra_headers expected_host [] = ok tt
validate_extra_headers expected_host ((k, v) ∷ headers) =
    let rest = validate_extra_headers expected_host headers in
    validate_header expected_host k v >> rest
