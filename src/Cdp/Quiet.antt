-- ===== src/Cdp/Quiet.antt =====
-- What a browser is asked before the URL of its main frame has passed the test.
use browser_fetch_router.Prelude.{
  ◌≡◌, ◌⊎◌, refl, inl, inr, Bool, true, ◌||◌, none, some, All, ℕ, ap,
}
use browser_fetch_router.Prelude.Text.{Text, codes, text_eq}
use browser_fetch_router.UrlSafety.Result.{Result, ok, err}
use browser_fetch_router.Json.{Fields}
use browser_fetch_router.Cdp.Chat.{Command, Socket, Chat, ◌>>=◌, lift, send_cdp_command}
use browser_fetch_router.Cdp.Answers.{authorized_frame}
use browser_fetch_router.Cdp.Reading.{Browser, text_chat, screenshot_chat}
use browser_fetch_router.Cdp.Answered.{
  of_chat, IsBehind, IsAnswer, IsAnswer-behind, send_cdp_command-IsAnswer, send_cdp_command-All,
}
use browser_fetch_router.Cdp.Authorized.{AllowedFrame, frame_ok}

-- The command tells where the page is, and nothing of what is on it.
abbrev pub IsHarmless : Command → Type 0
IsHarmless c =
    (text_eq c.method (codes "Page.enable") || text_eq c.method (codes "Page.getFrameTree")) ≡ true

module _ (browser : Browser) (authorize : Text → Result Bool) where
  abbrev pub IsQuiet {ℓ} : {B : Type ℓ} → Socket → Result B × Socket → Type 0
  IsQuiet s r = All IsHarmless r.1.sent ⊎ AllowedFrame browser authorize 2 s.incoming

  still_quiet :
      (id : ℕ) (method : Text) (s t : Socket) (r : Result Fields)
      → IsHarmless (record { id = id; method = method; params = none })
      → All IsHarmless s.sent
      → send_cdp_command browser.loads id method none s ≡ (r, t)
      → All IsHarmless t.sent
  still_quiet id method s t r harmless quiet h =
      rw (← ap (λ (p : Result Fields × Socket). p.1) h)
        (send_cdp_command-All browser.loads IsHarmless id method none s harmless quiet)

  enable-IsHarmless : IsHarmless (record { id = 1; method = codes "Page.enable"; params = none })
  unfolding codes text_eq
  enable-IsHarmless = refl

  tree-IsHarmless :
      IsHarmless (record { id = 2; method = codes "Page.getFrameTree"; params = none })
  unfolding codes text_eq
  tree-IsHarmless = refl

  -- The part that both readings begin with, whatever follows it.
  module _ {ℓ} {B : Type ℓ} (rest : Text × Text → Chat B) where
    opening : Chat B
    opening = send_cdp_command browser.loads 1 (codes "Page.enable") none >>= λ enabled.
        send_cdp_command browser.loads 2 (codes "Page.getFrameTree") none >>= λ tree.
        lift (authorized_frame (some authorize) tree) >>= rest

    tested :
        (s s1 s2 : Socket) (tree : Fields)
        → IsBehind browser.loads s1.incoming s.incoming
        → IsAnswer browser.loads 2 tree s1.incoming
        → All IsHarmless s2.sent
        → IsQuiet s ((lift (authorized_frame (some authorize) tree) >>= rest) s2)
    tested s s1 s2 tree behind answer quiet =
        of_chat (IsQuiet s) (lift (authorized_frame (some authorize) tree)) rest s2
          (λ e t h. inl (rw (← ap (λ (p : Result (Text × Text) × Socket). p.1) h) quiet))
          λ frame t h. inr (
            frame_ok browser authorize 2 tree frame s.incoming
              (IsAnswer-behind browser.loads 2 tree s.incoming s1.incoming behind answer)
              (ap (λ p. p.0) h))

    opening-IsQuiet : (s : Socket) → All IsHarmless s.sent → IsQuiet s (opening s)
    unfolding opening
    opening-IsQuiet s quiet =
        of_chat (IsQuiet s) (send_cdp_command browser.loads 1 (codes "Page.enable") none) _ s
          (λ e t h. inl (still_quiet 1 (codes "Page.enable") s t (err e) enable-IsHarmless quiet h))
          λ enabled s1 h1.
            let quiet1 =
              still_quiet 1 (codes "Page.enable") s s1 (ok enabled) enable-IsHarmless quiet h1 in
            let read1 = send_cdp_command-IsAnswer browser.loads 1 _ none s s1 enabled h1 in
            of_chat (IsQuiet s) (send_cdp_command browser.loads 2 (codes "Page.getFrameTree") none)
              _ s1
              (λ e t h.
                inl
                  (still_quiet 2 (codes "Page.getFrameTree") s1 t (err e) tree-IsHarmless quiet1 h))
              λ tree s2 h2.
                let read2 = send_cdp_command-IsAnswer browser.loads 2 _ none s1 s2 tree h2 in
                tested s s1 s2 tree read1.1 read2.0 (
                  still_quiet 2 (codes "Page.getFrameTree") s1 s2 (ok tree) tree-IsHarmless quiet1
                    h2)

  -- Whatever a socket answers, and whether or not the reading succeeds: the commands that were sent
  -- only ask where the page is, or the authorizer allowed the URL of the frame tree that was
  -- answered. This holds of the reading of text and of screenshots.
  pub chats-IsQuiet :
      (s : Socket)
      → All IsHarmless s.sent
      → IsQuiet s (text_chat browser (some authorize) s)
        × IsQuiet s (screenshot_chat browser (some authorize) s)
  unfolding text_chat screenshot_chat opening
  chats-IsQuiet s quiet = (opening-IsQuiet _ s quiet, opening-IsQuiet _ s quiet)
