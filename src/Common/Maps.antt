-- ===== src/Common/Maps.antt =====
-- A JavaScript `Map` with text keys: an association list in insertion order, in which `set` on a
-- key that is present keeps its place.
use Prim.Native.String.{String}
use text.Mathlib.Text.{◌==◌ as str_eq}
use text.Mathlib.TextEquality.{eq_iff}
use text.Mathlib.TextPositions.{eq_refl}
use mathlib.Core.Path.{◌≡◌, refl}
use mathlib.Core.Logic.{inl, inr}
use mathlib.Core.List.{List, [], ◌∷◌}
use mathlib.Core.Option
use mathlib.Core.Option.{Option, none, some}
use native.Mathlib.Omega.{arith}
use thelight.Common.Tests.{if◌then◌else◌, Bool-cases}

abbrev pub Dict {ℓ} : Type ℓ → Type ℓ
Dict V = List (String × V)

module _ {ℓ} {V : Type ℓ} where
  -- `map.get(key)`
  unfoldable pub lookup : String → Dict V → Option V
  lookup key [] = none
  lookup key ((other, value) ∷ rest) = if str_eq other key then some value else lookup key rest

  -- `map.set(key, value)`: only the value of an entry that is there changes.
  unfoldable pub insert : String → V → Dict V → Dict V
  insert key value [] = (key, value) ∷ []
  insert key value ((other, old) ∷ rest) =
      if str_eq other key then (other, value) ∷ rest else (other, old) ∷ insert key value rest

  pub lookup-insert :
      (written read : String) (value : V) (map : Dict V)
      → lookup read (insert written value map)
        ≡ (if str_eq written read then some value else lookup read map)
  unfolding lookup insert
  lookup-insert written read value [] = refl
  lookup-insert written read value ((other, old) ∷ rest) = ground (
    arith,
    lookup-insert written read value rest,
    eq_iff other written,
    eq_iff other read,
    eq_iff written read,
  )

  pub lookup-insert_self :
      (key : String) (value : V) (map : Dict V) → lookup key (insert key value map) ≡ some value
  lookup-insert_self key value map = rw (lookup-insert key key value map, eq_refl key)

  -- A change of every entry that keeps the keys.
  unfoldable pub adjust : (String → V → V) → Dict V → Dict V
  adjust f [] = []
  adjust f ((k, v) ∷ m) = (k, f k v) ∷ adjust f m

  pub lookup-adjust :
      (f : String → V → V) (k : String) (m : Dict V)
      → lookup k (adjust f m) ≡ Option.map (f k) (lookup k m)
  unfolding lookup adjust
  lookup-adjust f k [] = refl
  lookup-adjust f k ((j, w) ∷ m) = elim (Bool-cases (str_eq j k)) [
    | inl e ↦ rw e (rw ((eq_iff j k).0 e))
    | inr e ↦ rw e (lookup-adjust f k m)
  ]
