-- ===== src/UserTabs/Failures/Content.antt =====
-- The envelopes of failures hold no content of a tab.
use browser_fetch_router.Prelude.{◌≡◌, refl, Option, keep, any}
use browser_fetch_router.Prelude.Text.{Text, codes, text_eq, one_of}
use browser_fetch_router.Prelude.Dict.{get}
use browser_fetch_router.UrlSafety.Result.{Error}
use browser_fetch_router.Json.{Json, null, Fields, lookup, update}
use browser_fetch_router.Schema.{envelope, envelope_of, base_fields, pop_or}
use browser_fetch_router.UserTabs.Failures.{
  Operation, plain_failure, tab_list_failure_envelope, tab_denial_envelope, cdp_failure_envelope,
  current_url_denial_envelope,
}

abbrev pub content : Fields → Json
content d = lookup (codes "content_markdown") d

-- The failures have no content.
pub plain_failure-content : (status code : Text) → content (plain_failure status code) ≡ null
unfolding plain_failure envelope envelope_of base_fields pop_or update keep lookup get text_eq codes
    one_of any
plain_failure-content status code = refl

pub tab_list_failure-content :
    (e : Error) (base : Text) → content (tab_list_failure_envelope e base) ≡ null
unfolding tab_list_failure_envelope envelope envelope_of base_fields pop_or update keep lookup get
    text_eq codes one_of any
tab_list_failure-content e base = refl

pub tab_denial-content :
    (url : Text) (scope : Option Text) → content (tab_denial_envelope url scope) ≡ null
unfolding tab_denial_envelope envelope envelope_of base_fields pop_or update keep lookup get text_eq
    codes one_of any
tab_denial-content url scope = refl

pub cdp_failure-content :
    (e : Error) (url : Text) (op : Operation) (id : Json)
    → content (cdp_failure_envelope e url op id) ≡ null
unfolding cdp_failure_envelope envelope envelope_of base_fields pop_or update keep lookup get
    text_eq codes one_of any
cdp_failure-content e url op id = refl

pub current_url_denial-content :
    (url : Text) (scope : Option Text) (id : Json)
    → content (current_url_denial_envelope url scope id) ≡ null
unfolding current_url_denial_envelope envelope envelope_of base_fields pop_or update keep lookup get
    text_eq codes one_of any
current_url_denial-content url scope id = refl
