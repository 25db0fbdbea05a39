-- ===== src/Tests/Approving.antt =====
-- Approvals and the deny list at concrete inputs.
use browser_fetch_router.Prelude.{
  ◌+◌, ◌*◌, ◌≡◌, ◌&&◌, ◌||◌, refl, true, false, List, [], ◌∷◌, ◌++◌, any, all, keep, ltb,
  if◌then◌else◌,
}
use browser_fetch_router.Prelude.Text.{
  Text, codes, text_eq, one_of, has_char, lower_char, lower, is_digits, starts_with, ends_with,
  partition, rpartition, split, lstrip_by, rstrip_by, strip, join, show_nat, read_nat,
}
use browser_fetch_router.UrlSafety.Result.{ok}
use browser_fetch_router.UrlSafety.SplitUrl.{
  urlsplit, hostname, split_scheme, split_netloc, port, has_credentials, urlunsplit,
}
use browser_fetch_router.UrlSafety.ParseIp.{parse_ip, parse_ipv4, parse_ipv6}
use browser_fetch_router.UrlSafety.Encode.{encode_idna, quote, is_kept, utf8}
use browser_fetch_router.UrlSafety.Normalize.{
  is_blocked_port, is_blocked_name, is_single_label, canonical_name, canonical_host, validate_split,
  get_or, normalize_and_validate_url,
}
use browser_fetch_router.Approvals.DefaultDeny.{
  hostname_matches, url_pattern_matches, fnmatch, is_default_denied_hostname, denies,
  is_default_denied,
}
use browser_fetch_router.Approvals.DefaultDeny.Subdomains.{below, is_default_denied_hostname-below}
use browser_fetch_router.Approvals.Scopes.{
  idna_or_lower, canonicalize_hostname_scope, exact_value, normalize_kind, normalize_scope,
  kind_matches, normal_matches, approval_matches, any_matches, any_exact, can_read_url,
}
use browser_fetch_router.Approvals.Scopes.Precedence.{SomeApproval, can_read_url-SomeApproval}
use browser_fetch_router.Approvals.Store.{
  Approval, never, Store, Revoked, without, new_record, add_approval, list_active_scopes,
}
use browser_fetch_router.Approvals.Store.Uniqueness.{IsUnique, add_approval-IsUnique}
use browser_fetch_router.Approvals.Store.Activity.{add_approval-list}
use browser_fetch_router.Tests.Web.{unicode}

abbrev inbox : Text
inbox = codes "https://www.gmail.com/inbox"

abbrev one_time : List Text
one_time = codes "wildcard:gmail.com" ∷ codes "exact:https://www.gmail.com/inbox" ∷ []

inbox_denied : is_default_denied unicode inbox ≡ ok true
unfolding normalize_and_validate_url validate_split urlsplit split_scheme split_netloc hostname port
    has_credentials urlunsplit is_blocked_port is_blocked_name is_single_label canonical_name
    canonical_host get_or parse_ip parse_ipv4 parse_ipv6 is_digits encode_idna quote is_kept utf8
    split one_of text_eq strip rstrip_by starts_with ends_with partition rpartition all any keep
    lower lower_char lstrip_by has_char codes join show_nat read_nat is_default_denied denies
    is_default_denied_hostname hostname_matches url_pattern_matches fnmatch can_read_url any_exact
    any_matches approval_matches normal_matches kind_matches normalize_scope normalize_kind
    exact_value canonicalize_hostname_scope idna_or_lower
inbox_denied = refl

inbox_read : can_read_url unicode inbox (codes "wildcard:gmail.com" ∷ []) one_time ≡ ok true
unfolding normalize_and_validate_url validate_split urlsplit split_scheme split_netloc hostname port
    has_credentials urlunsplit is_blocked_port is_blocked_name is_single_label canonical_name
    canonical_host get_or parse_ip parse_ipv4 parse_ipv6 is_digits encode_idna quote is_kept utf8
    split one_of text_eq strip rstrip_by starts_with ends_with partition rpartition all any keep
    lower lower_char lstrip_by has_char codes join show_nat read_nat is_default_denied denies
    is_default_denied_hostname hostname_matches url_pattern_matches fnmatch can_read_url any_exact
    any_matches approval_matches normal_matches kind_matches normalize_scope normalize_kind
    exact_value canonicalize_hostname_scope idna_or_lower
inbox_read = refl

-- Without the exact approval the same URL is not read.
inbox_unread : can_read_url unicode inbox (codes "wildcard:gmail.com" ∷ []) [] ≡ ok false
unfolding normalize_and_validate_url validate_split urlsplit split_scheme split_netloc hostname port
    has_credentials urlunsplit is_blocked_port is_blocked_name is_single_label canonical_name
    canonical_host get_or parse_ip parse_ipv4 parse_ipv6 is_digits encode_idna quote is_kept utf8
    split one_of text_eq strip rstrip_by starts_with ends_with partition rpartition all any keep
    lower lower_char lstrip_by has_char codes join show_nat read_nat is_default_denied denies
    is_default_denied_hostname hostname_matches url_pattern_matches fnmatch can_read_url any_exact
    any_matches approval_matches normal_matches kind_matches normalize_scope normalize_kind
    exact_value canonicalize_hostname_scope idna_or_lower
inbox_unread = refl

can_read_url-SomeApproval_example : SomeApproval unicode inbox one_time
can_read_url-SomeApproval_example =
    can_read_url-SomeApproval unicode inbox (codes "wildcard:gmail.com" ∷ []) one_time inbox_denied
      inbox_read

gmail_denied : is_default_denied_hostname (codes "Gmail.com") ≡ true
unfolding normalize_and_validate_url validate_split urlsplit split_scheme split_netloc hostname port
    has_credentials urlunsplit is_blocked_port is_blocked_name is_single_label canonical_name
    canonical_host get_or parse_ip parse_ipv4 parse_ipv6 is_digits encode_idna quote is_kept utf8
    split one_of text_eq strip rstrip_by starts_with ends_with partition rpartition all any keep
    lower lower_char lstrip_by has_char codes join show_nat read_nat is_default_denied denies
    is_default_denied_hostname hostname_matches url_pattern_matches fnmatch can_read_url any_exact
    any_matches approval_matches normal_matches kind_matches normalize_scope normalize_kind
    exact_value canonicalize_hostname_scope idna_or_lower
gmail_denied = refl

is_default_denied_hostname-below_example :
    is_default_denied_hostname (below (codes "a.b") (codes "Gmail.com")) ≡ true
is_default_denied_hostname-below_example =
    is_default_denied_hostname-below (codes "a.b") (codes "Gmail.com") gmail_denied

abbrev scope : Text
scope = codes " Wildcard:*.Example.COM."

abbrev stored : Approval
stored = record {
  scope = codes "wildcard:example.com";
  session_id = codes "s1";
  persisted = true;
  created_at = 5;
  expires_at = never;
}

abbrev granted : Approval
granted = new_record (codes "wildcard:example.com") (codes "s2") false 60 1000

added :
    add_approval unicode scope (codes "s2") false 60 1000 (stored ∷ []) ≡ ok (granted, granted ∷ [])
unfolding normalize_and_validate_url validate_split urlsplit split_scheme split_netloc hostname port
    has_credentials urlunsplit is_blocked_port is_blocked_name is_single_label canonical_name
    canonical_host get_or parse_ip parse_ipv4 parse_ipv6 is_digits encode_idna quote is_kept utf8
    split one_of text_eq strip rstrip_by starts_with ends_with partition rpartition all any keep
    lower lower_char lstrip_by has_char codes join show_nat read_nat is_default_denied denies
    is_default_denied_hostname hostname_matches url_pattern_matches fnmatch can_read_url any_exact
    any_matches approval_matches normal_matches kind_matches normalize_scope normalize_kind
    exact_value canonicalize_hostname_scope idna_or_lower add_approval without new_record
added = refl

stored-IsUnique : IsUnique (stored ∷ [])
unfolding IsUnique
stored-IsUnique = (tt, tt)

add_approval-IsUnique_example :
    (kept : Store) × (granted ∷ [] ≡ kept ++ (granted ∷ []))
    × (normalize_scope unicode scope ≡ ok granted.scope)
    × IsUnique (granted ∷ [])
add_approval-IsUnique_example =
    add_approval-IsUnique unicode scope (codes "s2") false 60 1000 (stored ∷ []) (granted ∷ [])
      granted stored-IsUnique added

add_approval-list_example :
    list_active_scopes (codes "s2") 2000 (granted ∷ [])
    ≡ list_active_scopes (codes "s2") 2000 (without granted.scope (stored ∷ []))
      ++ (if false || (ltb 2000 (1000 + 60 * 1000000) && text_eq (codes "s2") (codes "s2"))
          then granted.scope ∷ []
          else [])
add_approval-list_example =
    add_approval-list unicode scope (stored ∷ []) (codes "s2") 2000 (codes "s2") false 60 1000
      granted (granted ∷ []) added

abbrev revoked : Revoked
revoked = record { removed = 1; scope = codes "wildcard:example.com" }
