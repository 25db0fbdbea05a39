-- ===== src/Schema.antt =====
-- `envelope` of browser_fetch_router/schema.py: the payload of every command, with its defaults.
use browser_fetch_router.Prelude.{Bool, false, not, none, some, List, [], ◌∷◌, keep, map}
use browser_fetch_router.Prelude.Text.{Text, codes, one_of}
use browser_fetch_router.Prelude.Dict.{get}
use browser_fetch_router.Json.{
  Json, null, boolean, string, array, object, no_items, members, Fields, update,
}

abbrev pub schema_version : Text
schema_version = codes "browser-fetch-router.v1"

-- The fields that are popped from the keyword arguments.
abbrev pub standard_fields : List Text
standard_fields = map codes (
    "url" ∷ "route" ∷ "provider" ∷ "title" ∷ "content_markdown" ∷ "artifacts" ∷ "quality"
    ∷ "evidence" ∷ "approval" ∷ "next_path" ∷ "error" ∷ [])

-- `fields.pop(k, default)`, its value.
unfoldable pub pop_or : Text → Json → Fields → Json
pop_or k default given = elim (get k given) [ none ↦ default | some v ↦ v ]

-- `{"required": ..., "scope": ...}`.
unfoldable pub approval_field : Bool → Json → Json
unfolding members
approval_field required scope =
    object (members ((codes "required", boolean required) ∷ (codes "scope", scope) ∷ []))

unfoldable pub base_fields : Text → Json → Fields → Fields
unfolding approval_field pop_or
base_fields command status given =
    (codes "schema_version", string schema_version)
    ∷ (codes "command", string command)
    ∷ (codes "status", status)
    ∷ (codes "url", pop_or (codes "url") null given)
    ∷ (codes "route", pop_or (codes "route") null given)
    ∷ (codes "provider", pop_or (codes "provider") null given)
    ∷ (codes "title", pop_or (codes "title") null given)
    ∷ (codes "content_markdown", pop_or (codes "content_markdown") null given)
    ∷ (codes "artifacts", pop_or (codes "artifacts") (array no_items) given)
    ∷ (codes "quality", pop_or (codes "quality") null given)
    ∷ (codes "evidence", pop_or (codes "evidence") null given)
    ∷ (codes "approval", pop_or (codes "approval") (approval_field false null) given)
    ∷ (codes "next_path", pop_or (codes "next_path") null given)
    ∷ (codes "error", pop_or (codes "error") null given)
    ∷ []

-- With a status that may be any value.
unfoldable pub envelope_of : Text → Json → Fields → Fields
envelope_of command status given =
    update (base_fields command status given)
      (keep (λ ((k, v) : Text × Json). not (one_of k standard_fields)) given)

unfoldable pub envelope : Text → Text → Fields → Fields
envelope command status given = envelope_of command (string status) given
