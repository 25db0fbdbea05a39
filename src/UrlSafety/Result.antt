-- ===== src/UrlSafety/Result.antt =====
-- What the URL checks raise: the codes of `UnsafeUrl`, and the plain `ValueError` that the standard
-- library raises and that no handler of these functions turns into an `UnsafeUrl`.
use browser_fetch_router.Prelude.{ℕ, ap, ◌≡◌, ◌⊎◌, inl, inr, refl, Bool, true, false}

pub data Unsafe : Type 0 where
  invalid_url control_chars_in_url blocked_scheme embedded_credentials missing_host : Unsafe
  invalid_port blocked_port blocked_ip invalid_hostname blocked_host single_label_host : Unsafe
  https_downgrade_redirect dns_resolution_empty blocked_resolved_ip : Unsafe
  dns_resolution_failed peer_address_mismatch side_effect_like_url side_effect_redirect_blocked :
      Unsafe
  redirect_hop_limit unsupported_method : Unsafe
  unexpected_redirect : ℕ → Unsafe
  header_control_char_injection header_empty_name header_invalid_name_char : Unsafe
  header_non_ascii_byte host_header_smuggling transport_owned_header http_protocol_error : Unsafe

-- The reasons of `InvalidScope`, of browser_fetch_router/approvals.py.
pub data BadScope : Type 0 where
  empty_scope_value invalid_glob_prefix scope_value_only_dots leading_dot_in_scope : BadScope
  port_in_scope non_hostname_char_in_scope invalid_hostname_in_scope : BadScope
  missing_kind_separator empty_exact_scope_value unknown_scope_kind : BadScope

-- The exceptions of browser_fetch_router/cdp.py, by their class.
pub data CdpFailure : Type 0 where
  cdp_response_too_large cdp_unexpected_redirect tab_list_malformed_json : CdpFailure
  websocket_url_invalid websocket_url_mismatch websocket_unavailable : CdpFailure
  websocket_dependency_missing protocol_error tab_missing_id authorization_error : CdpFailure

pub data Error : Type 0 where
  unsafe : Unsafe → Error
  value_error : Error
  -- a TypeError, AttributeError or KeyError, from a value of another shape
  type_error : Error
  cdp : CdpFailure → Error
  invalid_scope : BadScope → Error
  -- of browser_fetch_router/lifecycle.py
  invalid_session_id : Error
  -- what a connector or a read raises, and a body past its limit
  operational : Error
  response_too_large : Error

pub data Result {ℓ} (A : Type ℓ) : Type ℓ where
  ok : A → Result A
  err : Error → Result A

-- An error ends the chain, as a raised exception does.
infixl 5 ◌>>=◌ ◌>>◌
abbrev pub ◌>>=◌ {μ ν} :
    {Value : Type μ} {Next : Type ν} → Result Value → (Value → Result Next) → Result Next
err raised >>= rest = err raised
ok value >>= rest = rest value

abbrev pub ◌>>◌ {ν} : {Next : Type ν} → Result (Unit {0}) → Result Next → Result Next
test >> rest = test >>= λ passed. rest

-- `if test: raise UnsafeUrl(code)`.
abbrev pub refuse_if : Bool → Unsafe → Result (Unit {0})
refuse_if true code = err (unsafe code)
refuse_if false code = ok tt

-- `if test: raise InvalidScope(code)`.
abbrev pub refuse_scope_if : Bool → BadScope → Result (Unit {0})
refuse_scope_if true code = err (invalid_scope code)
refuse_scope_if false code = ok tt

-- `if test: raise` one of the exceptions of cdp.py.
abbrev pub fail_if : Bool → CdpFailure → Result (Unit {0})
fail_if true failure = err (cdp failure)
fail_if false failure = ok tt

-- A chain that succeeds has passed the test.
pub refuse_if-eq_ok {ℓ} :
    {B : Type ℓ} (test : Bool) (code : Unsafe) (k : Result B) {b : B}
    → (refuse_if test code >> k) ≡ ok b
    → (test ≡ false) × (k ≡ ok b)
refuse_if-eq_ok true code k h = absurd (cc)
refuse_if-eq_ok false code k h = (refl, h)

pub Result-cases {ℓ} :
    {A : Type ℓ} (m : Result A) → ((a : A) × (m ≡ ok a)) ⊎ ((e : Error) × (m ≡ err e))
Result-cases (ok a) = inl (a, refl)
Result-cases (err e) = inr (e, refl)

-- What is known of a chain that succeeds, for a continuation that takes it.
pub of_bind_ok {ℓ κ μ} :
    {A : Type ℓ} {B : Type κ} {C : Type μ} (m : Result A) (f : A → Result B) {b : B}
    → (m >>= f) ≡ ok b
    → ((a : A) → m ≡ ok a → f a ≡ ok b → C)
    → C
of_bind_ok (ok a) f h next = next a refl h
of_bind_ok (err e) f h next = absurd (cc)

pub of_passed {ℓ μ} :
    {B : Type ℓ} {C : Type μ} (test : Bool) (code : Unsafe) (k : Result B) {b : B}
    → (refuse_if test code >> k) ≡ ok b
    → (test ≡ false → k ≡ ok b → C)
    → C
of_passed true code k h next = absurd (cc)
of_passed false code k h next = next refl h

pub ok_inj {ℓ} : {A : Type ℓ} {a b : A} → ok a ≡ ok b → a ≡ b
ok_inj {A} {a} {b} h = ap (λ m. value_or a m) h
  where
    value_or : A → Result A → A
    value_or d (ok x) = x
    value_or d (err e) = d

pub of_not_failed {ℓ μ} :
    {B : Type ℓ} {C : Type μ} (test : Bool) (failure : CdpFailure) (k : Result B) {b : B}
    → (fail_if test failure >> k) ≡ ok b
    → (test ≡ false → k ≡ ok b → C)
    → C
of_not_failed true failure k h next = absurd (cc)
of_not_failed false failure k h next = next refl h
