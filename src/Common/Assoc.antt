-- ===== src/Common/Assoc.antt =====
-- A map with numbers for keys, as an association list.
use symcc.Common.Tests.{◌==◌, if◌then◌else◌}
use Prim.Native.Nat.{ℕ}
use mathlib.Core.Path.{◌≡◌, refl}
use mathlib.Core.Option.{Option, none, some}
use mathlib.Core.List.{List, [], ◌∷◌}
use native.Mathlib.Omega.{arith}

module _ {ℓ} {V : Type ℓ} where
  -- `find` of the source's maps.
  abbrev pub lookup : (key : ℕ) (entries : List (ℕ × V)) → Option V
  lookup key [] = none
  lookup key ((first, value) ∷ rest) = if first == key then some value else lookup key rest

  -- Assignment through the index operator of the source's maps.
  abbrev pub insert : (key : ℕ) (value : V) (entries : List (ℕ × V)) → List (ℕ × V)
  insert key value [] = (key, value) ∷ []
  insert key value ((first, old) ∷ rest) =
      if first == key then (first, value) ∷ rest else (first, old) ∷ insert key value rest

  pub lookup-insert :
      (key other : ℕ) (value : V) (entries : List (ℕ × V))
      → lookup other (insert key value entries)
        ≡ (if key == other then some value else lookup other entries)
  lookup-insert key other value [] = refl
  lookup-insert key other value ((first, old) ∷ rest) =
      ground (arith, lookup-insert key other value rest)
