-- ===== src/Prelude/Maps.antt =====
-- Go's maps as association lists, where no key stands twice.
use mathlib.Core.Path.{◌≡◌, refl}
use mathlib.Core.Option.{Option, none, some}
use mathlib.Core.List.{List, [], ◌∷◌}
use native.Mathlib.Omega.{arith}
use proxs.Prelude.Tests.{Comparable, ◌==◌, eq_iff, if◌then◌else◌}

module _ {ℓ κ} {K : Type ℓ} {V : Type κ} ⦃q : Comparable K⦄ where
  abbrev pub lookup : K → List (K × V) → Option V
  lookup key [] = none
  lookup key ((k, v) ∷ rest) = if k == key then some v else lookup key rest

  abbrev pub IsMap : List (K × V) → Type κ
  IsMap [] = Unit
  IsMap ((k, v) ∷ rest) = (lookup k rest ≡ none) × IsMap rest

  -- `m[key] = value`.
  unfoldable pub insert : K → V → List (K × V) → List (K × V)
  insert key value [] = (key, value) ∷ []
  insert key value ((k, v) ∷ rest) =
      let others = insert key value rest in if k == key then (k, value) ∷ rest else (k, v) ∷ others

  -- `delete(m, key)`.
  unfoldable pub erase : K → List (K × V) → List (K × V)
  erase key [] = []
  erase key ((k, v) ∷ rest) =
      let others = erase key rest in if k == key then others else (k, v) ∷ others

  pub lookup-insert :
      (key : K) (value : V) (other : K) (m : List (K × V))
      → lookup other (insert key value m) ≡ (if key == other then some value else lookup other m)
  unfolding insert
  lookup-insert key value other [] = refl
  lookup-insert key value other ((k, v) ∷ rest) =
      ground
        (arith, lookup-insert key value other rest, eq_iff k key, eq_iff k other, eq_iff key other)

  pub insert-IsMap : (key : K) (value : V) (m : List (K × V)) → IsMap m → IsMap (insert key value m)
  unfolding insert
  insert-IsMap key value [] m = (refl, tt)
  insert-IsMap key value ((k, v) ∷ rest) m = ground (
    arith,
    insert-IsMap key value rest m.1,
    lookup-insert key value k rest,
    eq_iff k key,
    eq_iff key k,
  )

  pub lookup-erase :
      (key other : K) (m : List (K × V))
      → lookup other (erase key m) ≡ (if key == other then none else lookup other m)
  unfolding erase
  lookup-erase key other [] = ground arith
  lookup-erase key other ((k, v) ∷ rest) =
      ground (arith, lookup-erase key other rest, eq_iff k key, eq_iff k other, eq_iff key other)

  pub erase-IsMap : (key : K) (m : List (K × V)) → IsMap m → IsMap (erase key m)
  unfolding erase
  erase-IsMap key [] m = tt
  erase-IsMap key ((k, v) ∷ rest) m =
      ground (arith, erase-IsMap key rest m.1, lookup-erase key k rest)
