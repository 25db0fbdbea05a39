-- ===== src/Prelude/Dict.antt =====
-- A Python dict with text keys, as the list of its items in order.
use browser_fetch_router.Prelude.Text.{Text, text_eq}
use browser_fetch_router.Prelude.Tests.{if◌then◌else◌}
use mathlib.Core.Option.{Option, none, some}
use mathlib.Core.List.{List, [], ◌∷◌}

module _ {ℓ} {A : Type ℓ} where
  -- `d.get(k)`.
  unfoldable pub get : Text → List (Text × A) → Option A
  get k [] = none
  get k ((j, v) ∷ d) = if text_eq j k then some v else get k d

  -- `d[k] = v`: in place, or at the end.
  unfoldable pub put : Text → A → List (Text × A) → List (Text × A)
  put k v [] = (k, v) ∷ []
  put k v ((j, w) ∷ d) = let rest = put k v d in if text_eq j k then (j, v) ∷ d else (j, w) ∷ rest
