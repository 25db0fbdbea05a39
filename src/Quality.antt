-- ===== src/Quality.antt =====
-- browser_fetch_router/quality.py: the quality gate for the text of a page. The expression that drops
-- scripts and styles is a parameter; the other expressions are read out here, with the word
-- characters of ASCII. The score is exact, and is shown in whole millionths.
use browser_fetch_router.Prelude.{
  ℕ, zero, suc, ◌-◌, ◌*◌, ◌/◌, max, Bool, true, false, not, ◌&&◌, ◌||◌, ltb, leb, ◌==◌, length,
  take, drop, any, keep, Option, none, some, List, [], ◌∷◌, ◌++◌, map, if◌then◌else◌,
}
use browser_fetch_router.Prelude.Text.{
  Text, codes, text_eq, is_alpha, is_digit, is_space, starts_with, contains_text, lower, lstrip_by,
  strip, split,
}
use browser_fetch_router.Json.{integer, real, boolean, string, array, Fields, array_of}

abbrev pub login_markers : List Text
login_markers =
    map codes ("log in" ∷ "sign in" ∷ "please log in" ∷ "login required" ∷ "sign up to read" ∷ [])

abbrev pub strong_login_markers : List Text
strong_login_markers = map codes (
    "please log in" ∷ "login required" ∷ "sign up to read" ∷ "subscribe to read"
    ∷ "register to read" ∷ "create a free account" ∷ "members only" ∷ [])

abbrev pub captcha_markers : List Text
captcha_markers = map codes (
    "captcha" ∷ "recaptcha" ∷ "g-recaptcha" ∷ "turnstile" ∷ "cf-challenge" ∷ "verify you are human"
    ∷ [])

abbrev pub js_challenge_markers : List Text
js_challenge_markers = map codes (
    "just a moment" ∷ "checking your browser" ∷ "enable javascript and cookies"
    ∷ "this challenge page was issued" ∷ [])

abbrev pub semantic_main_markers : List Text
semantic_main_markers = map codes (
    "<main" ∷ "<article" ∷ "role=\"main\"" ∷ "entry-content" ∷ "content-body" ∷ "post-content" ∷ [])

abbrev pub short_valid_min_words : ℕ
short_valid_min_words = 20

abbrev pub short_valid_min_chars : ℕ
short_valid_min_chars = 120

abbrev pub login_marker_scan_chars : ℕ
login_marker_scan_chars = 500

-- `\w`.
abbrev is_word : ℕ → Bool
is_word c = (is_alpha c || is_digit c) || c == b'_'

-- `\b\w+\b`: the runs of word characters. The flag says that the character before was one.
unfoldable runs : Bool → Text → ℕ
runs inside [] = 0
runs inside (c ∷ s) =
    let rest = runs (is_word c) s in if is_word c && not inside then suc rest else rest

unfoldable pub word_count : Text → ℕ
unfolding runs
word_count text = runs false text

-- Behind `<` of `<[^>]+>`: the text behind the tag, where there is one.
unfoldable tag_end : Bool → Text → Option Text
tag_end some_inside [] = none
tag_end some_inside (c ∷ s) =
    let rest = tag_end true s in if c == b'>' then (if some_inside then some s else none) else rest

-- `re.sub(r"<[^>]+>", " ", text)`. The fuel is the length of the text: each step drops a character.
unfoldable without_tags : ℕ → Text → Text
unfolding tag_end
without_tags zero text = text
without_tags (suc fuel) [] = []
without_tags (suc fuel) (c ∷ s) = elim (if c == b'<' then tag_end false s else none) [
  | none ↦ c ∷ without_tags fuel s
  | some rest ↦ b' ' ∷ without_tags fuel rest
]

unfoldable pub visible_text : (Text → Text) → Text → Text
unfolding without_tags
visible_text without_scripts raw_html =
    let text = without_scripts raw_html in without_tags (length text) text

begins_with : (ℕ → Bool) → Text → Bool
begins_with p [] = false
begins_with p (c ∷ s) = p c

-- What follows a part of a phrase: white space and the next part, or no word character.
unfoldable behind_part : List Text → Text → Bool
unfolding starts_with begins_with
behind_part [] s = not (begins_with is_word s)
behind_part (part ∷ parts) s =
    let next = lstrip_by is_space s in
    let rest = behind_part parts (drop (length part) next) in
    begins_with is_space s && (starts_with next part && rest)

unfoldable phrase_here : List Text → Text → Bool
unfolding behind_part
phrase_here [] s = behind_part [] s
phrase_here (part ∷ parts) s = starts_with s part && behind_part parts (drop (length part) s)

-- The flag says that the character before was a word character.
unfoldable phrase_in : List Text → Bool → Text → Bool
unfolding phrase_here
phrase_in parts inside [] = not inside && phrase_here parts []
phrase_in parts inside (c ∷ s) =
    let rest = phrase_in parts (is_word c) s in (not inside && phrase_here parts (c ∷ s)) || rest

unfoldable pub contains_phrase_marker : Text → List Text → Bool
unfolding phrase_in
contains_phrase_marker text markers =
    any (λ marker. phrase_in (keep (λ part. not (text_eq part [])) (split b' ' marker)) false text)
      markers

unfoldable pub contains_marker : Text → Text → List Text → Bool
contains_marker html text markers =
    any (λ marker. contains_text marker html || contains_text marker text) markers

-- What `assess_quality` returns. The score is 1 less `kept` of `shown`, and at least 0.
pub record Quality : Type 0 where
  pub word_count : ℕ
  pub has_main_content : Bool
  pub is_short_valid_content : Bool
  pub kept : ℕ
  pub shown : ℕ
  pub blocked_signals : List Text
  pub passes_quality_gate : Bool

unfoldable pub is_none : List Text → Bool
is_none [] = true
is_none (signal ∷ signals) = false

unfoldable pub when : Bool → Text → List Text
when true signal = signal ∷ []
when false signal = []

module _ (without_scripts : Text → Text) where
  unfoldable pub has_login_wall : Text → Text → Bool
  has_login_wall extracted_text raw_html =
      let leading_text = take login_marker_scan_chars (lower extracted_text) in
      contains_phrase_marker leading_text login_markers
      || (contains_phrase_marker leading_text strong_login_markers
          || contains_phrase_marker
              (take login_marker_scan_chars (lower (visible_text without_scripts raw_html)))
              strong_login_markers)

  unfoldable pub signals_of : Text → Text → List Text
  unfolding when
  signals_of extracted_text raw_html =
      let text = lower extracted_text in
      let html = lower raw_html in
      when (has_login_wall extracted_text raw_html) (codes "login_wall")
      ++ (when (contains_marker html text captcha_markers) (codes "captcha_required")
          ++ when (contains_marker html text js_challenge_markers) (codes "js_challenge"))

  unfoldable pub assess_quality : Text → Text → Quality
  unfolding is_none
  assess_quality extracted_text raw_html =
      let blocked = signals_of extracted_text raw_html in
      let words = word_count extracted_text in
      let has_semantic_main =
        any (λ marker. contains_text marker (lower raw_html)) semantic_main_markers in
      let is_short =
        leb short_valid_min_words words
        && (leb short_valid_min_chars (length (strip extracted_text)) && is_none blocked) in
      let has_main =
        is_none blocked && (ltb 0 words && (has_semantic_main || (leb 80 words || is_short))) in
      let shown = max (length (visible_text without_scripts raw_html)) 1 in
      let kept = length extracted_text in
      record {
        word_count = words;
        has_main_content = has_main;
        is_short_valid_content = is_short;
        kept = kept;
        shown = shown;
        blocked_signals = blocked;
        passes_quality_gate =
            (leb 80 words || is_short)
            && (has_main && (leb (3 * shown) (10 * kept) && is_none blocked));
      }

unfoldable pub quality_fields : Quality → Fields
quality_fields q =
    (codes "word_count", integer false q.word_count)
    ∷ (codes "has_main_content", boolean q.has_main_content)
    ∷ (codes "is_short_valid_content", boolean q.is_short_valid_content)
    ∷ (codes "boilerplate_score", real false (((q.shown - q.kept) * 1000000) / q.shown))
    ∷ (codes "blocked_signals", array (array_of (map string q.blocked_signals)))
    ∷ (codes "passes_quality_gate", boolean q.passes_quality_gate)
    ∷ []
