-- ===== src/HttpClient/Transport/Streaming.antt =====
-- The loop that reads a response body against its bound.
use browser_fetch_router.Prelude.{
  ℕ, zero, suc, ◌+◌, ◌-◌, ◌≤◌, ◌<◌, min, ◌≡◌, refl, sym, ap, ◌∙◌, true, false, inl, inr, [], ◌∷◌,
  ◌++◌, length, take, drop, ltb, ltb→lt, if◌then◌else◌, Bool-cases, lt_or_le, length-take,
  length-append, lt→ltb, le→not_ltb, arith,
}
use mathlib.Core.List.{append_assoc, append-nil}
use browser_fetch_router.UrlSafety.Result.{
  Error, response_too_large, Result-cases, Result, ok, err, ◌>>◌,
}
use browser_fetch_router.HttpClient.Transport.{Bytes, read_chunk, read_loop, read_body}

-- What the loop is for: a body past the bound is an error, and any other body is returned, unless
-- the stream breaks.
pub bounded : ℕ → Bytes → Result (Unit {0}) → Result Bytes
bounded max_bytes content ends =
    if ltb max_bytes (length content) then err response_too_large else ends >> ok content

take-drop : (n : ℕ) (s : Bytes) → take n s ++ drop n s ≡ s
take-drop zero s = refl
take-drop (suc n) [] = refl
take-drop (suc n) (c ∷ s) = cc (take-drop n s)

length-drop : (n : ℕ) (s : Bytes) → length (drop n s) ≡ length s - n
length-drop zero s = omega arith
length-drop (suc n) [] = omega arith
length-drop (suc n) (c ∷ s) = omega (arith, length-drop n s)

take_all : (n : ℕ) (s : Bytes) → length s ≤ n → take n s ≡ s
take_all zero [] h = refl
take_all zero (c ∷ s) h = absurd (omega arith)
take_all (suc n) [] h = refl
take_all (suc n) (c ∷ s) h = ap (λ t. c ∷ t) (take_all n s (omega arith))

drop_all : (n : ℕ) (s : Bytes) → length s ≤ n → drop n s ≡ []
drop_all zero [] h = refl
drop_all zero (c ∷ s) h = absurd (omega arith)
drop_all (suc n) [] h = refl
drop_all (suc n) (c ∷ s) h = drop_all n s (omega arith)

module _ (max_bytes : ℕ) (ends : Result (Unit {0})) where
  -- What is still to be returned, given what was received.
  remaining : Bytes → ℕ → Bytes → Result Bytes
  remaining content total received =
      if ltb max_bytes (total + length content)
      then err response_too_large
      else ends >> ok (received ++ content)

  amount : ℕ → ℕ
  amount total = min 65536 ((max_bytes + 1) - total)

  read_loop-nil :
      (fuel : ℕ) (content : Bytes) (total : ℕ) (received : Bytes)
      → read_chunk (amount total) content ends ≡ ok []
      → read_loop (suc fuel) max_bytes content ends total received ≡ ok received
  unfolding read_loop amount
  read_loop-nil fuel content total received h = rw (read_loop, h) refl

  read_loop-err :
      (fuel : ℕ) (content : Bytes) (total : ℕ) (received : Bytes) (e : Error)
      → read_chunk (amount total) content ends ≡ err e
      → read_loop (suc fuel) max_bytes content ends total received ≡ err e
  unfolding read_loop amount
  read_loop-err fuel content total received e h = rw (read_loop, h) refl

  read_loop-next :
      (fuel : ℕ) (content : Bytes) (total : ℕ) (received : Bytes) (b : ℕ) (chunk : Bytes)
      → read_chunk (amount total) content ends ≡ ok (b ∷ chunk)
      → ltb max_bytes (total + length (b ∷ chunk)) ≡ false
      → read_loop (suc fuel) max_bytes content ends total received
        ≡ read_loop fuel max_bytes
            (drop (amount total) content)
            ends
            (total + length (b ∷ chunk))
            (received ++ (b ∷ chunk))
  unfolding read_loop amount
  read_loop-next fuel content total received b chunk h small = rw (read_loop, h, small) refl

  read_loop-large :
      (fuel : ℕ) (content : Bytes) (total : ℕ) (received : Bytes) (b : ℕ) (chunk : Bytes)
      → read_chunk (amount total) content ends ≡ ok (b ∷ chunk)
      → ltb max_bytes (total + length (b ∷ chunk)) ≡ true
      → read_loop (suc fuel) max_bytes content ends total received ≡ err response_too_large
  unfolding read_loop amount
  read_loop-large fuel content total received b chunk h large = rw (read_loop, h, large) refl

  -- A read that is met in full, and one that meets the end.
  read_chunk-full :
      (a : ℕ) (content : Bytes)
      → a ≤ length content
      → read_chunk a content ends ≡ ok (take a content)
  unfolding read_chunk
  read_chunk-full a content h = ground (arith, le→not_ltb (length content) a h)

  read_chunk-last :
      (a : ℕ) (content : Bytes)
      → length content < a
      → read_chunk a content ends ≡ (ends >> ok content)
  unfolding read_chunk
  read_chunk-last a content h =
      rw (lt→ltb (length content) a h, take_all a content (omega arith)) refl

  amount_pos : (total : ℕ) → total ≤ max_bytes → 1 ≤ amount total
  unfolding amount
  amount_pos total h = omega arith

  amount_le : (total : ℕ) → total ≤ max_bytes → total + amount total ≤ max_bytes + 1
  unfolding amount
  amount_le total h = omega arith

  remaining-append :
      (chunk rest : Bytes) (total : ℕ) (received : Bytes)
      → remaining rest (total + length chunk) (received ++ chunk)
        ≡ remaining (chunk ++ rest) total received
  unfolding remaining
  remaining-append chunk rest total received =
      rw (append_assoc received chunk rest, length-append chunk rest)
        (ap
          (λ n.
            if ltb max_bytes n
            then err response_too_large
            else ends >> ok (received ++ (chunk ++ rest)))
          (omega arith))

  remaining-nil :
      (total : ℕ) (received : Bytes)
      → total ≤ max_bytes
      → remaining [] total received ≡ (ends >> ok received)
  unfolding remaining
  remaining-nil total received h =
      rw (le→not_ltb max_bytes (total + 0) (omega arith), append-nil received) refl

  past_bound :
      (chunk rest content : Bytes) (total : ℕ) (received : Bytes)
      → chunk ++ rest ≡ content
      → ltb max_bytes (total + length chunk) ≡ true
      → remaining content total received ≡ err response_too_large
  unfolding remaining
  past_bound chunk rest content total received split large =
      rw
        (
          sym split,
          length-append chunk rest,
          lt→ltb max_bytes (total + (length chunk + length rest))
              (omega (arith, ltb→lt max_bytes (total + length chunk) large)),
        )
        refl

  -- The stream ends within the bound.
  at_end :
      (content : Bytes) (total : ℕ) (received : Bytes)
      → total ≤ max_bytes
      → length content < amount total
      → remaining content total received ≡ (ends >> ok (received ++ content))
  unfolding remaining
  at_end content total received h last =
      rw (le→not_ltb max_bytes (total + length content) (omega (arith, amount_le total h))) refl

  -- A read met in full: the rest of the loop reads what is left.
  full_step :
      (fuel : ℕ) (chunk rest content : Bytes) (total : ℕ) (received : Bytes)
      → chunk ++ rest ≡ content
      → read_chunk (amount total) content ends ≡ ok chunk
      → drop (amount total) content ≡ rest
      → 1 ≤ length chunk
      → ((t : ℕ) (s : Bytes)
          → t ≤ max_bytes
          → read_loop fuel max_bytes rest ends t s ≡ remaining rest t s)
      → read_loop (suc fuel) max_bytes content ends total received
        ≡ remaining content total received
  full_step fuel [] rest content total received split read left n next = absurd (omega arith)
  full_step fuel (b ∷ chunk) rest content total received split read left n next =
      elim (Bool-cases (ltb max_bytes (total + length (b ∷ chunk)))) [
        | inl large ↦
            read_loop-large fuel content total received b chunk read large
            ∙ sym (past_bound (b ∷ chunk) rest content total received split large)
        | inr small ↦
            read_loop-next fuel content total received b chunk read small
            ∙ (rw left (next (total + length (b ∷ chunk)) (received ++ (b ∷ chunk)) (ground arith)))
            ∙ remaining-append (b ∷ chunk) rest total received
            ∙ ap (λ c. remaining c total received) split
      ]

  last_step :
      (fuel : ℕ) (content : Bytes) (total : ℕ) (received : Bytes)
      → length content < suc fuel
      → total ≤ max_bytes
      → length content < amount total
      → ends ≡ ok tt
      → ((t : ℕ) (s : Bytes)
          → 1 ≤ fuel
          → t ≤ max_bytes
          → read_loop fuel max_bytes [] ends t s ≡ remaining [] t s)
      → read_loop (suc fuel) max_bytes content ends total received
        ≡ remaining content total received
  last_step fuel [] total received f h last fine next =
      read_loop-nil fuel [] total received
        (read_chunk-last (amount total) [] last ∙ ap (λ m. m >> ok []) fine)
      ∙ sym (remaining-nil total received h ∙ ap (λ m. m >> ok received) fine)
  last_step fuel (b ∷ content) total received f h last fine next =
      full_step fuel (b ∷ content) [] (b ∷ content) total received (append-nil (b ∷ content))
        (read_chunk-last (amount total) (b ∷ content) last ∙ ap (λ m. m >> ok (b ∷ content)) fine)
        (drop_all (amount total) (b ∷ content) (omega arith)) (omega arith)
        (λ t s le. next t s (omega arith) le)

  read_loop-remaining :
      (fuel : ℕ) (content : Bytes) (total : ℕ) (received : Bytes)
      → length content < fuel
      → total ≤ max_bytes
      → read_loop fuel max_bytes content ends total received ≡ remaining content total received
  read_loop-remaining zero content total received f h = absurd (omega arith)
  read_loop-remaining (suc fuel) content total received f h =
      elim (lt_or_le (length content) (amount total)) [
        | inr full ↦
            full_step fuel (take (amount total) content) (drop (amount total) content) content total
              received (take-drop (amount total) content)
              (read_chunk-full (amount total) content full) refl
              (omega (arith, length-take (amount total) content, amount_pos total h))
              (λ t s le.
                read_loop-remaining fuel (drop (amount total) content) t s
                  (omega (arith, length-drop (amount total) content, amount_pos total h)) le)
        | inl last ↦ elim (Result-cases ends) [
          | inl (unit, fine) ↦
              last_step fuel content total received f h last fine
                (λ t s n le. read_loop-remaining fuel [] t s (omega arith) le)
          | inr (e, broken) ↦
              read_loop-err fuel content total received e
                (read_chunk-last (amount total) content last ∙ ap (λ m. m >> ok content) broken)
              ∙ sym (
                  at_end content total received h last
                  ∙ ap (λ m. m >> ok (received ++ content)) broken)
        ]
      ]

-- The loop returns, within its fuel, what the bound asks for: the body as it was sent, whatever the
-- sizes of the reads, an error if it is longer than `max_bytes`, and the stream's own error if
-- it breaks within the bound.
pub read_body-bounded :
    (max_bytes : ℕ) (content : Bytes) (ends : Result (Unit {0}))
    → read_body max_bytes content ends ≡ bounded max_bytes content ends
unfolding read_body remaining bounded
read_body-bounded max_bytes content ends =
    rw
      (read_loop-remaining max_bytes ends (suc (length content)) content 0 [] (omega arith)
        (omega arith))
      (ap (λ n. if ltb max_bytes n then err response_too_large else ends >> ok content)
        (omega arith))
