-- ===== src/Lifecycle/Cleanup/Registries.antt =====
-- What a dry run of the cleanup leaves.
use browser_fetch_router.Prelude.{◌≡◌, ◌⊎◌, refl, true, none, List, [], ◌∷◌, inl}
use browser_fetch_router.Prelude.Text.{Text}
use browser_fetch_router.Lifecycle.Kill.{Psutil}
use browser_fetch_router.Lifecycle.Cleanup.{Registry, Files}

module _ {Host : Type 0} (ps : Psutil Host) (files : Files Host) where
  -- A registry is as it was, or it is corrupt and was moved aside.
  abbrev IsPreviewed : Registry → Registry → Type 0
  IsPreviewed r q = (q ≡ r) ⊎ ((r.content ≡ none) × (q ≡ record r { aside = true }))

  -- All registries are, one by one.
  abbrev pub ArePreviewed : List Registry → List Registry → Type 0
  ArePreviewed [] [] = Unit {0}
  ArePreviewed [] (q ∷ out) = ⊥
  ArePreviewed (r ∷ registries) [] = ⊥
  ArePreviewed (r ∷ registries) (q ∷ out) = IsPreviewed r q × ArePreviewed registries out

  unchanged : (registries : List Registry) → ArePreviewed registries registries
  unchanged [] = tt
  unchanged (r ∷ registries) = (inl refl, unchanged registries)
