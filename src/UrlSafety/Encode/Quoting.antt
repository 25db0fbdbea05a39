-- ===== src/UrlSafety/Encode/Quoting.antt =====
-- Quoting twice is quoting once, where the percent sign is safe, as it is in both calls.
use browser_fetch_router.Prelude.{
  ℕ, ◌/◌, ◌%◌, ◌<◌, ◌≡◌, inl, inr, refl, ap, true, List, [], ◌∷◌, All, All-append, arith,
  Bool-cases,
}
use browser_fetch_router.Prelude.Text.{Text, has_char}
use browser_fetch_router.UrlSafety.Encode.{
  utf8, hex_digit, percent, percents, is_unreserved, is_kept, quote_char, quote,
}

module _ (safe : Text) (percent_safe : has_char b'%' safe ≡ true) where
  abbrev Kept : Text → Type 0
  Kept = All (λ c. is_kept safe c ≡ true)

  hex-kept : (d : ℕ) → d < 16 → is_kept safe (hex_digit d) ≡ true
  unfolding is_kept is_unreserved hex_digit
  hex-kept d h = ground arith

  percent-Kept : (b : ℕ) → b < 256 → Kept (percent b)
  unfolding percent is_kept
  percent-Kept b h = (
    ground (arith, percent_safe),
    (hex-kept (b / 16) (omega arith), (hex-kept (b % 16) (omega arith), tt)),
  )

  percents-Kept : (bytes : List ℕ) → All (λ b. b < 256) bytes → Kept (percents bytes)
  unfolding percents
  percents-Kept [] h = tt
  percents-Kept (b ∷ bytes) h =
      All-append _ (percent b) (percents bytes) (percent-Kept b h.0) (percents-Kept bytes h.1)

  utf8-bytes : (c : ℕ) → c < 0x110000 → All (λ b. b < 256) (utf8 c)
  unfolding utf8
  utf8-bytes c h = ground arith

  quote-Kept : (s : Text) → All (λ c. c < 0x110000) s → Kept (quote safe s)
  unfolding quote quote_char
  quote-Kept [] h = tt
  quote-Kept (c ∷ s) h = elim (Bool-cases (is_kept safe c)) [
    | inl e ↦ rw e (e, quote-Kept s h.1)
    | inr e ↦ rw e (
        All-append _ (percents (utf8 c)) (quote safe s) (percents-Kept (utf8 c) (utf8-bytes c h.0))
          (quote-Kept s h.1))
  ]

  quote_of_Kept : (s : Text) → Kept s → quote safe s ≡ s
  unfolding quote quote_char
  quote_of_Kept [] h = refl
  quote_of_Kept (c ∷ s) h = rw h.0 (ap (λ t. c ∷ t) (quote_of_Kept s h.1))

  ascii_of_Kept : (s : Text) → Kept s → All (λ c. c < 128) s
  unfolding is_kept
  ascii_of_Kept [] h = tt
  ascii_of_Kept (c ∷ s) h = (ground (arith, h.0), ascii_of_Kept s h.1)

  -- Quoting text that was quoted changes nothing, and all of the quoted text is ASCII.
  pub quote_idem :
      (s : Text)
      → All (λ c. c < 0x110000) s
      → (quote safe (quote safe s) ≡ quote safe s) × All (λ c. c < 128) (quote safe s)
  quote_idem s h =
      (quote_of_Kept (quote safe s) (quote-Kept s h), ascii_of_Kept (quote safe s) (quote-Kept s h))
