-- ===== src/UserTabs/Failures.antt =====
-- The envelopes of browser_fetch_router/read_user_tabs.py for what does not succeed. Texts for people
-- (`message`) are the source's.
pub mod Content
use browser_fetch_router.Prelude.{true, Option, none, some, [], ◌∷◌, if◌then◌else◌}
use browser_fetch_router.Prelude.Text.{Text, codes, text_eq}
use browser_fetch_router.UrlSafety.Result.{
  Error, cdp, cdp_response_too_large, cdp_unexpected_redirect, tab_list_malformed_json,
  websocket_url_invalid, websocket_url_mismatch, websocket_unavailable,
  websocket_dependency_missing, protocol_error, tab_missing_id,
}
use browser_fetch_router.Json.{
  Json, string, array, object, Fields, members, array_of, update, text_or_null,
}
use browser_fetch_router.Schema.{envelope, approval_field}

abbrev pub cdp_setup_base : Text
cdp_setup_base = codes "http://127.0.0.1:9222"

-- `CDP_SETUP_GUIDANCE`, with the base that is given.
unfoldable pub setup_guidance : Text → Json
unfolding members array_of
setup_guidance base = object (
    members (
      (codes "cdp_base", string base)
      ∷ (
        codes "summary",
        string (codes "Start Chrome or Chromium with a temporary profile and loopback-only CDP."),
      )
      ∷ (
        codes "required_flags",
        array (
            array_of (
              string (codes "--remote-debugging-address=127.0.0.1")
              ∷ string (codes "--remote-debugging-port=9222")
              ∷ string (codes "--user-data-dir=<temporary-profile>")
              ∷ [])),
      )
      ∷ (
        codes "warning",
        string (
            codes
              "Do not use the normal profile; use a temporary profile for browser-fetch-router CDP."),
      )
      ∷ []))

-- `{"code": ..., "message": ...}`.
unfoldable pub error_field : Text → Text → Json
unfolding members
error_field code message =
    object (members ((codes "code", string code) ∷ (codes "message", string message) ∷ []))

abbrev pub command : Text
command = codes "read-user-tabs"

-- A failure with its code; the message of `tab_not_found`, which quotes the target, is left out.
unfoldable pub plain_failure : Text → Text → Fields
unfolding members
plain_failure status code =
    envelope command status
      ((codes "error", object (members ((codes "code", string code) ∷ []))) ∷ [])

unfoldable pub classified_cdp_error : Error → Option (Text × Text)
classified_cdp_error (cdp cdp_unexpected_redirect) = some (
  codes "cdp_unexpected_redirect",
  codes "CDP tab list endpoint returned an unexpected redirect.",
)
classified_cdp_error (cdp tab_list_malformed_json) =
    some
      (codes "cdp_tab_list_malformed_json", codes "CDP tab list endpoint returned malformed JSON.")
classified_cdp_error (cdp cdp_response_too_large) = some (
  codes "cdp_response_too_large",
  codes "CDP tab list response exceeded the configured size limit.",
)
classified_cdp_error (cdp tab_missing_id) =
    some (codes "cdp_tab_missing_id", codes "Resolved tab did not expose a CDP tab id.")
classified_cdp_error e = none

unreachable_code : Text
unreachable_code = codes "cdp_unreachable"

code_or_unreachable : Option (Text × Text) → Text × Text
unfolding unreachable_code
code_or_unreachable none = (unreachable_code, codes "CDP tab list endpoint was unreachable.")
code_or_unreachable (some classified) = classified

-- The setup is told where the endpoint could not be reached.
with_setup : Text → Json → Fields → Fields
unfolding unreachable_code
with_setup code setup evidence =
    if text_eq code unreachable_code
    then update evidence ((codes "setup", setup) ∷ [])
    else evidence

-- `_tab_list_failure_envelope`; the base is always given.
unfoldable pub tab_list_failure_envelope : Error → Text → Fields
unfolding code_or_unreachable with_setup
tab_list_failure_envelope e base =
    let (code, message) = code_or_unreachable (classified_cdp_error e) in
    envelope command (codes "tool_setup_failed") (
      (codes "error", error_field code message)
      ∷ (
        codes "evidence",
        object (
            members (with_setup code (setup_guidance base) ((codes "cdp_base", string base) ∷ []))),
      )
      ∷ [])

pub data Operation : Type 0 where
  for_text for_screenshot : Operation

operation_code : Operation → Text
operation_code for_text = codes "cdp_text_extraction_failed"
operation_code for_screenshot = codes "cdp_screenshot_failed"

-- The codes for errors that are not classified.
socket_code : Operation → Error → Text × Text
unfolding unreachable_code operation_code
socket_code op (cdp websocket_url_invalid) =
    (codes "cdp_websocket_url_invalid", codes "Tab did not expose a valid CDP WebSocket URL.")
socket_code op (cdp websocket_url_mismatch) = (
  codes "cdp_websocket_url_mismatch",
  codes "Tab CDP WebSocket URL did not match the validated CDP endpoint.",
)
socket_code op (cdp websocket_dependency_missing) =
    (codes "cdp_websocket_dependency_missing", codes "websockets dependency is not installed.")
socket_code op (cdp websocket_unavailable) =
    (unreachable_code, codes "CDP WebSocket endpoint was unreachable.")
socket_code op (cdp protocol_error) = (operation_code op, codes "CDP protocol command failed.")
socket_code op e = (operation_code op, codes "CDP operation failed.")

failure_code : Operation → Error → Option (Text × Text) → Text × Text
unfolding socket_code
failure_code op e none = socket_code op e
failure_code op e (some classified) = classified

-- `_cdp_failure_envelope`, with the tab's id as its evidence.
unfoldable pub cdp_failure_envelope : Error → Text → Operation → Json → Fields
unfolding failure_code with_setup
cdp_failure_envelope e url op tab_id =
    let (code, message) = failure_code op e (classified_cdp_error e) in
    envelope command (codes "tool_setup_failed") (
      (codes "url", string url)
      ∷ (codes "error", error_field code message)
      ∷ (
        codes "evidence",
        object (
            members
              (with_setup code (setup_guidance cdp_setup_base) ((codes "tab_id", tab_id) ∷ []))),
      )
      ∷ [])

-- `_current_url_denial_envelope`.
unfoldable pub current_url_denial_envelope : Text → Option Text → Json → Fields
unfolding members
current_url_denial_envelope url approval_scope tab_id =
    envelope command (codes "approval_required") (
      (codes "url", string url)
      ∷ (codes "approval", approval_field true (text_or_null approval_scope))
      ∷ (
        codes "error",
        object (members ((codes "code", string (codes "approval_required_for_current_tab")) ∷ [])),
      )
      ∷ (codes "evidence", object (members ((codes "tab_id", tab_id) ∷ [])))
      ∷ [])

-- A tab whose listed URL may not be read.
unfoldable pub tab_denial_envelope : Text → Option Text → Fields
unfolding members
tab_denial_envelope url approval_scope = envelope command (codes "approval_required") (
    (codes "url", string url)
    ∷ (codes "approval", approval_field true (text_or_null approval_scope))
    ∷ (
      codes "error",
      object (members ((codes "code", string (codes "approval_required_for_tab")) ∷ [])),
    )
    ∷ [])
