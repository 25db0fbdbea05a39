-- ===== src/Tests/Chatting.antt =====
-- Commands over the socket of a small browser.
use browser_fetch_router.Prelude.{◌≡◌, refl, true, none, some, [], ◌∷◌, any, keep, arith}
use browser_fetch_router.Prelude.Text.{
  Text, codes, text_eq, one_of, has_char, lower, is_digits, contains_text, rpartition, strip,
  read_nat,
}
use browser_fetch_router.Prelude.Dict.{get}
use browser_fetch_router.UrlSafety.Result.{ok}
use browser_fetch_router.UrlSafety.SplitUrl.{
  urlsplit, hostname, split_scheme, split_netloc, port, has_credentials,
}
use browser_fetch_router.Json.{members, as_dict, as_text, lookup, equals_nat}
use browser_fetch_router.Cdp.Endpoint.{
  default_base, effective_port, same_port, check_websocket, check_against,
  validate_tab_websocket_url,
}
use browser_fetch_router.Cdp.Chat.{Socket, read_message, send_cdp_command}
use browser_fetch_router.Cdp.Reading.{text_chat, screenshot_chat}
use browser_fetch_router.Tests.Web.{unicode}
use browser_fetch_router.Cdp.Same.{IsSameEndpoint, validate_tab_websocket_url-IsSameEndpoint}
use browser_fetch_router.Cdp.Draining.{send_cdp_command-answered}
use browser_fetch_router.Cdp.Quiet.{IsQuiet, chats-IsQuiet}
use browser_fetch_router.Tests.Browser.{tab, loads, socket, browser, text_answers}

chats-IsQuiet_example :
    IsQuiet
      (browser text_answers)
      (λ url. ok true)
      (socket text_answers)
      (text_chat (browser text_answers) (some (λ url. ok true)) (socket text_answers))
    × IsQuiet
        (browser text_answers)
        (λ url. ok true)
        (socket text_answers)
        (screenshot_chat (browser text_answers) (some (λ url. ok true)) (socket text_answers))
chats-IsQuiet_example =
    chats-IsQuiet (browser text_answers) (λ url. ok true) (socket text_answers) tt

abbrev socket_url : Text
socket_url = codes "ws://127.0.0.1:9222/devtools/page/T"

socket_ok : validate_tab_websocket_url unicode tab.socket_url default_base ≡ ok socket_url
unfolding urlsplit split_scheme split_netloc hostname port has_credentials is_digits one_of text_eq
    strip contains_text rpartition any keep lower has_char codes read_nat effective_port same_port
    check_websocket check_against validate_tab_websocket_url as_text
socket_ok = refl

validate_tab_websocket_url-IsSameEndpoint_example :
    (s : Text) × (as_text tab.socket_url ≡ some s)
    × (socket_url ≡ strip s)
    × IsSameEndpoint unicode default_base socket_url
validate_tab_websocket_url-IsSameEndpoint_example =
    validate_tab_websocket_url-IsSameEndpoint unicode tab.socket_url default_base socket_url
      socket_ok

unrelated : read_message loads 1 (codes "2") ≡ none
unfolding text_eq codes members as_dict lookup get read_message equals_nat
unrelated = refl

related : read_message loads 1 (codes "1") ≡ some (ok [])
unfolding text_eq codes members as_dict lookup get read_message equals_nat
related = refl

abbrev waiting : Socket
waiting = socket (codes "2" ∷ codes "1" ∷ [])

send_cdp_command-answered_example :
    let out = send_cdp_command loads 1 (codes "Page.enable") none waiting in
    (out.0 ≡ ok [])
    × (out.1.incoming ≡ [])
    × (out.1.sent ≡ record { id = 1; method = codes "Page.enable"; params = none } ∷ [])
send_cdp_command-answered_example =
    send_cdp_command-answered loads 1 (codes "Page.enable") none waiting (true ∷ true ∷ true ∷ [])
      (codes "2" ∷ []) (codes "1") (ok []) [] refl refl (omega arith) (unrelated, tt) related
