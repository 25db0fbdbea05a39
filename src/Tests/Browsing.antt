-- ===== src/Tests/Browsing.antt =====
-- Reading and capturing the tab of a small browser.
use browser_fetch_router.Prelude.{◌≡◌, ◌≢◌, refl, true, none, some, [], ◌∷◌, any, all, keep}
use browser_fetch_router.Prelude.Text.{
  Text, codes, text_eq, one_of, has_char, lower_char, lower, upper, is_digits, starts_with,
  ends_with, contains_text, partition, rpartition, split, lstrip_by, rstrip_by, strip, join,
  show_nat, read_nat,
}
use browser_fetch_router.Prelude.Dict.{get, put}
use browser_fetch_router.UrlSafety.Result.{ok}
use browser_fetch_router.UrlSafety.SplitUrl.{
  urlsplit, hostname, split_scheme, split_netloc, port, has_credentials, urlunsplit,
}
use browser_fetch_router.UrlSafety.ParseIp.{parse_ip, parse_ipv4, parse_ipv6, ip_address, show_ipv4}
use browser_fetch_router.UrlSafety.Ip.{is_blocked_ip, is_blocked4, is_private4, is_extra_blocked}
use browser_fetch_router.UrlSafety.Encode.{encode_idna, quote, is_kept, utf8}
use browser_fetch_router.UrlSafety.Normalize.{
  is_blocked_port, is_blocked_name, is_single_label, canonical_name, canonical_host, validate_split,
  get_or, normalize_and_validate_url,
}
use browser_fetch_router.UrlSafety.Redirect.{blocked_resolved_targets}
use browser_fetch_router.HttpClient.SideEffects.{
  query_has_action, parse_qsl, path_has_action, query_has_one_time_token, should_block, warns,
  side_effect_warning,
}
use browser_fetch_router.HttpClient.Headers.{
  validate_extra_headers, validate_header, has_control, is_token_char, is_value_char,
}
use browser_fetch_router.HttpClient.Transport.{
  request_lines, read_chunk, read_loop, read_body, default_resolver, connect_pinned, prepare,
  receive as receive_response,
}
use browser_fetch_router.HttpClient.Requests.{next_state, run_hops, admit, request, get_text}
use browser_fetch_router.Json.{
  null, members, array_of, items, fields, as_dict, as_text, lookup, equals_text, equals_nat,
  is_truthy, is_int, update,
}
use browser_fetch_router.Schema.{envelope, envelope_of, base_fields, pop_or}
use browser_fetch_router.Approvals.DefaultDeny.{
  hostname_matches, url_pattern_matches, fnmatch, is_default_denied_hostname, denies,
  is_default_denied,
}
use browser_fetch_router.Approvals.Scopes.{
  idna_or_lower, canonicalize_hostname_scope, exact_value, normalize_kind, normalize_scope,
  kind_matches, normal_matches, approval_matches, any_matches, any_exact, can_read_url,
}
use browser_fetch_router.Approvals.Store.{is_active, list_active_scopes}
use browser_fetch_router.Cdp.Endpoint.{
  without_slash, is_empty, is_bare, accepts_base, cdp_base_url, default_port, effective_port,
  same_port, port_or, check_websocket, check_against, validate_text, validate_option,
  validate_tab_websocket_url,
}
use browser_fetch_router.Cdp.Chat.{
  websocket_connect, after, result_of, answer_of, read_message, drain, write, receive,
  send_cdp_command,
}
use browser_fetch_router.Cdp.Pages.{tabs_of, tab_list, of_response, get_list, fetch_tab_list}
use browser_fetch_router.Cdp.Answers.{
  key_of, at_key, present_text, main_frame_from_tree, ensure_authorized_current_url,
  authorized_frame, page_text, dict_or_fail, text_result_from_runtime, authorized_text, context_of,
  decoded, image_of, first_tab, find_target, tab_url_text, present_tab, authorized_target, relisted,
}
use browser_fetch_router.Cdp.Reading.{
  on_socket, on_url, text_chat, screenshot_chat, validated, fetch_tab_text, socket_of, target_of,
  fetch_tab_screenshot,
}
use browser_fetch_router.UserTabs.Redaction.{url_of_tab, cap_content, resolve_tab}
use browser_fetch_router.UserTabs.Access.{
  given_scope, add_scope, authorization_for_request, is_url_authorized, record_approval, grant,
  authorize_tab, on_list, on_base, resolve_and_authorize_tab,
}
use browser_fetch_router.UserTabs.Reading.{
  text_envelope, on_decision, text_of, text_from, read_granted, read_tab,
}
use browser_fetch_router.UserTabs.Failures.Content.{content}
use browser_fetch_router.Tests.Web.{unicode}
use browser_fetch_router.UserTabs.Guarded.{IsReadOut, read_tab-IsReadOut}
use browser_fetch_router.UserTabs.Denied.{read_tab-not_denied}
use browser_fetch_router.UserTabs.Captured.{IsCaptured, screenshot_tab-IsCaptured}
use browser_fetch_router.UserTabs.Screenshots.{
  Disk, path_name, path_suffix, is_image_dest, unsent, shot_on_decision, shot_of, shot_from,
  shot_with_id, shot_granted, screenshot_tab,
}
use browser_fetch_router.Tests.Browser.{world, access, store, text_answers, image_answers, payload}

read_ok : (read_tab (world text_answers) access (codes "T") 100 store).result ≡ ok payload
unfolding fetch_tab_list of_response get_list get_text request admit run_hops next_state prepare
    receive_response connect_pinned default_resolver read_body read_loop read_chunk request_lines
    validate_extra_headers side_effect_warning warns should_block query_has_one_time_token
    path_has_action blocked_resolved_targets normalize_and_validate_url validate_split urlsplit
    split_scheme split_netloc hostname port has_credentials urlunsplit is_blocked_port
    is_blocked_name is_single_label canonical_name canonical_host get_or parse_ip parse_ipv4
    parse_ipv6 is_digits encode_idna quote is_kept utf8 split one_of text_eq strip rstrip_by
    starts_with ends_with contains_text partition rpartition all any keep lower upper lower_char
    lstrip_by has_char codes join show_nat read_nat is_blocked_ip is_blocked4 is_private4
    is_extra_blocked ip_address without_slash tab_list tabs_of items fields members array_of as_dict
    lookup get put show_ipv4 query_has_action parse_qsl validate_header has_control is_token_char
    is_value_char cdp_base_url accepts_base is_bare is_empty default_port effective_port same_port
    port_or check_websocket check_against validate_text validate_option validate_tab_websocket_url
    resolve_tab first_tab equals_text as_text authorization_for_request add_scope given_scope
    list_active_scopes is_active can_read_url any_exact any_matches approval_matches normal_matches
    kind_matches normalize_scope normalize_kind exact_value canonicalize_hostname_scope
    idna_or_lower is_default_denied denies is_default_denied_hostname hostname_matches
    url_pattern_matches fnmatch is_url_authorized url_of_tab is_truthy record_approval authorize_tab
    grant on_list on_base resolve_and_authorize_tab websocket_connect after write receive drain
    read_message answer_of result_of send_cdp_command equals_nat main_frame_from_tree key_of at_key
    present_text authorized_frame ensure_authorized_current_url text_result_from_runtime
    dict_or_fail page_text authorized_text context_of is_int decoded image_of find_target
    tab_url_text authorized_target present_tab relisted on_url on_socket validated text_chat
    screenshot_chat fetch_tab_text fetch_tab_screenshot socket_of target_of cap_content on_decision
    read_granted text_from text_of read_tab
read_ok = refl

payload_content : content payload ≢ null
unfolding text_envelope envelope envelope_of base_fields pop_or update keep lookup get text_eq codes
    one_of any put
payload_content e = cc

read_tab-IsReadOut_example : IsReadOut (world text_answers) access store (codes "T") 100 payload
read_tab-IsReadOut_example =
    read_tab-IsReadOut (world text_answers) access store (codes "T") 100 payload read_ok
      payload_content

no_scope : given_scope access.approval_scope ≡ none
unfolding given_scope
no_scope = refl

read_tab-not_denied_example :
    (r : IsReadOut (world text_answers) access store (codes "T") 100 payload) × (is_default_denied
        unicode r.g.url
      ≢ ok true)
    × (is_default_denied unicode r.frame.frame.1 ≢ ok true)
    × (is_default_denied unicode r.text.url ≢ ok true)
read_tab-not_denied_example =
    read_tab-not_denied (world text_answers) access store (codes "T") 100 payload no_scope read_ok
      payload_content

abbrev disk : Disk
disk = record { expanduser = λ path. path; parent_is_dir = λ path. true; write = λ path png. ok tt }

abbrev shot : Text
shot = codes "/tmp/shots/page.png"

shot_ok :
    (screenshot_tab (world image_answers) access disk (codes "T") shot store).written
    ≡ some (shot, 1 ∷ 2 ∷ [])
unfolding screenshot_tab is_image_dest path_name path_suffix shot_on_decision shot_granted
    shot_with_id shot_from shot_of unsent fetch_tab_list of_response get_list get_text request admit
    run_hops next_state prepare receive_response connect_pinned default_resolver read_body read_loop
    read_chunk request_lines validate_extra_headers side_effect_warning warns should_block
    query_has_one_time_token path_has_action blocked_resolved_targets normalize_and_validate_url
    validate_split urlsplit split_scheme split_netloc hostname port has_credentials urlunsplit
    is_blocked_port is_blocked_name is_single_label canonical_name canonical_host get_or parse_ip
    parse_ipv4 parse_ipv6 is_digits encode_idna quote is_kept utf8 split one_of text_eq strip
    rstrip_by starts_with ends_with contains_text partition rpartition all any keep lower upper
    lower_char lstrip_by has_char codes join show_nat read_nat is_blocked_ip is_blocked4 is_private4
    is_extra_blocked ip_address without_slash tab_list tabs_of items fields members array_of as_dict
    lookup get put show_ipv4 query_has_action parse_qsl validate_header has_control is_token_char
    is_value_char cdp_base_url accepts_base is_bare is_empty default_port effective_port same_port
    port_or check_websocket check_against validate_text validate_option validate_tab_websocket_url
    resolve_tab first_tab equals_text as_text authorization_for_request add_scope given_scope
    list_active_scopes is_active can_read_url any_exact any_matches approval_matches normal_matches
    kind_matches normalize_scope normalize_kind exact_value canonicalize_hostname_scope
    idna_or_lower is_default_denied denies is_default_denied_hostname hostname_matches
    url_pattern_matches fnmatch is_url_authorized url_of_tab is_truthy record_approval authorize_tab
    grant on_list on_base resolve_and_authorize_tab websocket_connect after write receive drain
    read_message answer_of result_of send_cdp_command equals_nat main_frame_from_tree key_of at_key
    present_text authorized_frame ensure_authorized_current_url text_result_from_runtime
    dict_or_fail page_text authorized_text context_of is_int decoded image_of find_target
    tab_url_text authorized_target present_tab relisted on_url on_socket validated text_chat
    screenshot_chat fetch_tab_text fetch_tab_screenshot socket_of target_of cap_content on_decision
    read_granted text_from text_of read_tab
shot_ok = refl

screenshot_tab-IsCaptured_example :
    IsCaptured (world image_answers) access disk store (codes "T") shot shot (1 ∷ 2 ∷ [])
screenshot_tab-IsCaptured_example =
    screenshot_tab-IsCaptured (world image_answers) access disk store (codes "T") shot shot
      (1 ∷ 2 ∷ []) shot_ok
