-- ===== src/Prelude/Splitting.antt =====
-- Texts that are cut at a character which does not stand in them.
use browser_fetch_router.Prelude.Lists.{any}
use browser_fetch_router.Prelude.Text.{Text, has_char, split, partition}
use Prim.Native.Nat.{ℕ}
use mathlib.Core.Path.{◌≡◌, refl}
use mathlib.Core.Bool.{false}
use mathlib.Core.List.{[], ◌∷◌, ◌++◌}
use native.Mathlib.Omega.{arith}

pub split-append :
    (c : ℕ) (s rest : Text) → has_char c s ≡ false → split c (s ++ (c ∷ rest)) ≡ s ∷ split c rest
unfolding has_char any split
split-append c [] rest h = ground arith
split-append c (d ∷ s) rest h = ground (arith, split-append c s rest)

pub split-whole : (c : ℕ) (s : Text) → has_char c s ≡ false → split c s ≡ s ∷ []
unfolding has_char any split
split-whole c [] h = refl
split-whole c (d ∷ s) h = ground (arith, split-whole c s)

pub partition-whole :
    (c : ℕ) (s : Text)
    → has_char c s ≡ false
    → partition c s ≡ record { before = s; found = false; after = [] }
unfolding has_char any partition
partition-whole c [] h = refl
partition-whole c (d ∷ s) h = ground (arith, partition-whole c s)
