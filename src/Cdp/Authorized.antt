-- ===== src/Cdp/Authorized.antt =====
-- What is known of a tab that was read: the messages that its content and its URLs come from, and
-- what was sent before its URL was tested.
use browser_fetch_router.Prelude.{ℕ, ◌≡◌, ap, Bool, true, Option, none, some, List, arith}
use browser_fetch_router.Prelude.Text.{Text, codes}
use browser_fetch_router.UrlSafety.Result.{Result, ok, of_bind_ok, ok_inj}
use browser_fetch_router.HttpClient.Transport.{Bytes}
use browser_fetch_router.Json.{Fields}
use browser_fetch_router.Cdp.Chat.{Socket}
use browser_fetch_router.Cdp.Answers.{
  main_frame_from_tree, ensure_authorized_current_url, authorized_frame, authorized_text,
  text_result_from_runtime, context_of, image_of,
}
use browser_fetch_router.Cdp.Reading.{
  Browser, PageText, world_params, evaluate_params, capture_params, text_chat, screenshot_chat,
}
use browser_fetch_router.Cdp.Answered.{
  of_lift_ok, of_send_ok, IsBehind-trans, IsAnswer, IsAnswer-behind,
}

module _ (browser : Browser) (authorize : Text → Result Bool) where
  -- A frame tree among the messages, whose URL was allowed.
  pub record AllowedFrame (id : ℕ) (incoming : List (Option Text)) : Type 0 where
    pub tree : Fields
    pub frame : Text × Text
    pub answer : IsAnswer browser.loads id tree incoming
    pub of_tree : main_frame_from_tree tree ≡ ok frame
    pub allowed : authorize frame.1 ≡ ok true

  -- A text and the URL that came with it in one answer, which was allowed.
  pub record AllowedText (incoming : List (Option Text)) (text : Text) : Type 0 where
    pub evaluated : Fields
    pub url : Text
    pub answer : IsAnswer browser.loads 4 evaluated incoming
    pub of_answer : text_result_from_runtime browser.to_text evaluated ≡ ok (url, text)
    pub allowed : authorize url ≡ ok true

  pub ensure_ok :
      (url : Text)
      → ensure_authorized_current_url url (some authorize) ≡ ok tt
      → authorize url ≡ ok true
  unfolding ensure_authorized_current_url
  ensure_ok url h = ground arith

  pub frame_ok :
      (id : ℕ) (tree : Fields) (frame : Text × Text) (incoming : List (Option Text))
      → IsAnswer browser.loads id tree incoming
      → authorized_frame (some authorize) tree ≡ ok frame
      → AllowedFrame id incoming
  unfolding authorized_frame
  frame_ok id tree frame incoming answer h = of_bind_ok (main_frame_from_tree tree) _ h λ f h1 h2.
      of_bind_ok (ensure_authorized_current_url f.1 (some authorize)) _ h2 λ u h3 h4. record {
        tree = tree;
        frame = f;
        answer = answer;
        of_tree = h1;
        allowed = ensure_ok f.1 h3;
      }

  text_ok :
      (evaluated : Fields) (text : Text) (incoming : List (Option Text))
      → IsAnswer browser.loads 4 evaluated incoming
      → authorized_text (some authorize) browser.to_text evaluated ≡ ok text
      → AllowedText incoming text
  unfolding authorized_text
  text_ok evaluated text incoming answer h =
      of_bind_ok (text_result_from_runtime browser.to_text evaluated) _ h λ page h1 h2.
        of_bind_ok (ensure_authorized_current_url page.0 (some authorize)) _ h2 λ u h3 h4. record {
          evaluated = evaluated;
          url = page.0;
          answer = answer;
          of_answer = rw (← ok_inj {a = page.1} h4) h1;
          allowed = ensure_ok page.0 h3;
        }

  text_of :
      {text : Text} {page : PageText}
      → ok (record { text = text; isolated_world = true }) ≡ ok page
      → text ≡ page.text
  text_of {text} h =
      ap (λ (p : PageText). p.text) (ok_inj {a = record { text = text; isolated_world = true }} h)

  -- If a tab's text is read from a socket, the answer to the second command is a frame tree whose URL
  -- the authorizer allowed, and the text and a URL that the authorizer allowed are both in one answer
  -- to the fourth.
  pub text_chat-AllowedText :
      (s : Socket) (page : PageText)
      → (text_chat browser (some authorize) s).0 ≡ ok page
      → AllowedFrame 2 s.incoming × AllowedText s.incoming page.text
  unfolding text_chat
  text_chat-AllowedText s page h =
      of_send_ok browser.loads 1 (codes "Page.enable") none _ s h λ enabled s1 a1 b1 h1.
        of_send_ok browser.loads 2 (codes "Page.getFrameTree") none _ s1 h1 λ tree s2 a2 b2 h2.
          of_lift_ok (authorized_frame (some authorize) tree) _ s2 h2 λ frame allowed h3.
            of_send_ok browser.loads 3 (codes "Page.createIsolatedWorld")
              (some (world_params frame.0)) _ s2 h3
              λ world s4 a4 b4 h4. of_lift_ok (context_of world) _ s4 h4 λ context_id is_id h5.
                of_send_ok browser.loads 4 (codes "Runtime.evaluate")
                  (some (evaluate_params context_id)) _ s4 h5
                  λ evaluated s6 a6 b6 h6.
                    of_lift_ok (authorized_text (some authorize) browser.to_text evaluated) _ s6 h6
                      λ text tested h7.
                        let behind2 =
                          IsBehind-trans browser.loads s.incoming s1.incoming s2.incoming b1 b2 in
                        let behind4 =
                          IsBehind-trans browser.loads s.incoming s2.incoming s4.incoming behind2
                            b4 in
                        (
                          frame_ok 2 tree frame s.incoming
                              (IsAnswer-behind browser.loads 2 tree s.incoming s1.incoming b1 a2)
                              allowed,
                          rw (← text_of h7) (
                              text_ok evaluated text s.incoming
                                (IsAnswer-behind browser.loads 4 evaluated s.incoming s4.incoming
                                  behind4 a6)
                                tested),
                        )

  -- An image, and the URL of the page before and behind the capture, which were both allowed.
  pub record AllowedImage (incoming : List (Option Text)) (png : Bytes) : Type 0 where
    pub captured : Fields
    pub before : AllowedFrame 2 incoming
    pub answer : IsAnswer browser.loads 3 captured incoming
    pub of_answer : image_of browser.b64decode captured ≡ ok png
    pub behind : AllowedFrame 4 incoming

  -- If a screenshot is taken through a socket, the image is in the answer to the third command, and the
  -- answers to the second and the fourth are frame trees whose URLs the authorizer allowed.
  pub screenshot_chat-AllowedImage :
      (s : Socket) (png : Bytes)
      → (screenshot_chat browser (some authorize) s).0 ≡ ok png
      → AllowedImage s.incoming png
  unfolding screenshot_chat
  screenshot_chat-AllowedImage s png h =
      of_send_ok browser.loads 1 (codes "Page.enable") none _ s h λ enabled s1 a1 b1 h1.
        of_send_ok browser.loads 2 (codes "Page.getFrameTree") none _ s1 h1 λ tree s2 a2 b2 h2.
          of_lift_ok (authorized_frame (some authorize) tree) _ s2 h2 λ frame allowed h3.
            of_send_ok browser.loads 3 (codes "Page.captureScreenshot") (some capture_params) _ s2
              h3
              λ captured s3 a3 b3 h4.
                of_send_ok browser.loads 4 (codes "Page.getFrameTree") none _ s3 h4
                  λ after_capture s4 a4 b4 h5.
                    of_lift_ok (authorized_frame (some authorize) after_capture) _ s4 h5
                      λ frame2 allowed2 h6.
                        let behind2 =
                          IsBehind-trans browser.loads s.incoming s1.incoming s2.incoming b1 b2 in
                        let behind3 =
                          IsBehind-trans browser.loads s.incoming s2.incoming s3.incoming behind2
                            b3 in
                        record {
                          captured = captured;
                          before =
                              frame_ok 2 tree frame s.incoming
                                (IsAnswer-behind browser.loads 2 tree s.incoming s1.incoming b1 a2)
                                allowed;
                          answer =
                              IsAnswer-behind browser.loads 3 captured s.incoming s2.incoming
                                behind2 a3;
                          of_answer = h6;
                          behind =
                              frame_ok 4 after_capture frame2 s.incoming
                                (IsAnswer-behind browser.loads 4 after_capture s.incoming
                                  s3.incoming behind3 a4)
                                allowed2;
                        }
