-- ===== src/UserTabs/Screenshots.antt =====
-- `screenshot_tab` and `revoke` of browser_fetch_router/read_user_tabs.py, with `validate_image_dest` of
-- browser_fetch_router/paths.py.
use browser_fetch_router.Prelude.{
  Bool, false, not, ◌&&◌, ◌||◌, Option, none, some, List, [], ◌∷◌, keep, if◌then◌else◌,
}
use browser_fetch_router.Prelude.Text.{
  Text, codes, text_eq, one_of, lower, split, rpartition, starts_with,
}
use browser_fetch_router.UrlSafety.Result.{cdp, tab_missing_id, Result, ok, err, ◌>>=◌}
use browser_fetch_router.UrlSafety.SplitUrl.{Unicode}
use browser_fetch_router.HttpClient.Transport.{Bytes}
use browser_fetch_router.Approvals.Store.{Store, Revoked, revoke_scope}
use browser_fetch_router.Json.{string, integer, array, object, Fields, members, array_of, as_text}
use browser_fetch_router.Schema.{envelope}
use browser_fetch_router.Cdp.Endpoint.{validate_tab_websocket_url}
use browser_fetch_router.Cdp.Chat.{Command}
use browser_fetch_router.Cdp.Reading.{fetch_tab_screenshot}
use browser_fetch_router.UserTabs.Failures.{
  for_screenshot, command, plain_failure, cdp_failure_envelope,
}
use browser_fetch_router.UserTabs.Access.{
  World, Access, Granted, Decision, granted, refused, resolve_and_authorize_tab,
}
use browser_fetch_router.UserTabs.Reading.{authorizer, socket_failure, reading_failure}

-- The file system: the home directory in a path, whether the parent of a path is a directory, and the
-- atomic write.
pub record Disk : Type 0 where
  pub expanduser : Text → Text
  pub parent_is_dir : Text → Bool
  pub write : Text → Bytes → Result (Unit {0})

-- What a screenshot gives, and the image that was handed to the disk.
pub record Shot : Type 0 where
  pub result : Result Fields
  pub store : Store
  pub sent : List Command
  pub written : Option (Text × Bytes)

is_part : Text → Bool
is_part s = not (text_eq s [] || text_eq s (codes "."))

last_part : List Text → Text
last_part [] = []
last_part (s ∷ []) = s
last_part (s ∷ t ∷ rest) = last_part (t ∷ rest)

-- `p.name` and `p.suffix` of a path, with `/` between its parts.
unfoldable pub path_name : Text → Text
unfolding is_part last_part
path_name path = last_part (keep is_part (split b'/' path))

unfoldable pub path_suffix : Text → Text
path_suffix name =
    let p = rpartition b'.' name in
    if p.found && (not (text_eq p.before []) && not (text_eq p.after []))
    then b'.' ∷ p.after
    else []

-- `validate_image_dest` on a path whose `~` is expanded: whether it is accepted.
unfoldable pub is_image_dest : Text → Bool
is_image_dest path =
    not (starts_with (path_name path) (codes "."))
    && one_of (lower (path_suffix (path_name path)))
        (codes ".png" ∷ codes ".jpg" ∷ codes ".jpeg" ∷ [])

shot_envelope : Granted → Text → Fields
shot_envelope g output = envelope command (codes "ok") (
    (codes "url", string g.url)
    ∷ (
      codes "artifacts",
      array (
          array_of (
            object (
              members
                ((codes "path", string output) ∷ (codes "kind", string (codes "image/png")) ∷ []))
            ∷ [])),
    )
    ∷ [])

unfoldable pub unsent : Store → Result Fields → Shot
unsent store result = record { result = result; store = store; sent = []; written = none }

unfoldable pub shot_on_decision : Store → Result Decision → (Granted → Shot) → Shot
unfolding unsent
shot_on_decision store (err e) next = unsent store (err e)
shot_on_decision store (ok (refused d)) next = unsent store (ok d)
shot_on_decision store (ok (granted g)) next = next g

module _ (w : World) (access : Access) (disk : Disk) where
  saved : Result (Unit {0}) → Fields → Result Fields
  saved (ok done) d = ok d
  saved (err e) d = err e

  unfoldable pub shot_of : Text → Granted → Result Bytes × List Command → Shot
  unfolding saved shot_envelope
  shot_of output g (ok png, sent) = record {
    result = saved (disk.write output png) (shot_envelope g output);
    store = g.store;
    sent = sent;
    written = some (output, png);
  }
  shot_of output g (err e, sent) = record {
    result = reading_failure for_screenshot access.approval_scope g e;
    store = g.store;
    sent = sent;
    written = none;
  }

  unfoldable pub shot_from : Text → Granted → Text → Result Text → Shot
  unfolding shot_of unsent
  shot_from output g tab_id (err e) = unsent g.store (socket_failure for_screenshot g e)
  shot_from output g tab_id (ok ws_url) =
      shot_of output g
        (fetch_tab_screenshot w.browser (authorizer w g.auth) w.later_client g.base tab_id)

  -- A tab needs an id that is a text and not empty.
  unfoldable pub shot_with_id : Text → Granted → Option Text → Shot
  unfolding shot_from unsent
  shot_with_id output g none =
      unsent g.store (ok (cdp_failure_envelope (cdp tab_missing_id) g.url for_screenshot g.tab.id))
  shot_with_id output g (some []) =
      unsent g.store (ok (cdp_failure_envelope (cdp tab_missing_id) g.url for_screenshot g.tab.id))
  shot_with_id output g (some (c ∷ s)) =
      shot_from output g (c ∷ s)
        (validate_tab_websocket_url w.client.unicode g.tab.socket_url g.base)

  unfoldable pub shot_granted : Text → Granted → Shot
  unfolding shot_with_id
  shot_granted output g = shot_with_id output g (as_text g.tab.id)

  -- The output is tested before everything else.
  unfoldable pub screenshot_tab : Text → Text → Store → Shot
  unfolding unsent
  screenshot_tab target output store =
      let path = disk.expanduser output in
      if not (is_image_dest path)
      then unsent store
          (ok (plain_failure (codes "usage_error") (codes "unsafe_output_destination")))
      else if not (disk.parent_is_dir path)
      then unsent store (ok (plain_failure (codes "usage_error") (codes "output_parent_missing")))
      else shot_on_decision store (resolve_and_authorize_tab w access store target)
          (shot_granted path)

revoked_envelope : Revoked → Fields
revoked_envelope r = envelope command (codes "ok") (
    (
      codes "evidence",
      object (
          members
            ((codes "removed", integer false r.removed) ∷ (codes "scope", string r.scope) ∷ [])),
    )
    ∷ [])

unfoldable pub revoke : Unicode → Text → Store → Result (Fields × Store)
unfolding revoked_envelope
revoke u scope store = do done ← revoke_scope u scope store; ok (revoked_envelope done.0, done.1)
