-- ===== src/Base/Maps.antt =====
-- Go's maps: association lists under the tests of equality of their keys.
use mathlib.Core.Path.{◌≡◌, refl}
use mathlib.Core.Logic.{inl, inr}
use mathlib.Core.Bool.{Bool, true, false, ◌||◌}
use mathlib.Core.List.{List, [], ◌∷◌, ◌++◌}
use mathlib.Core.Option.{Option, none, some}
use native.Mathlib.Omega.{arith}
use agentturn.Base.Tests.{Comparable, ◌==◌, if◌then◌else◌, Bool-cases}

module _ {ℓ κ} {Key : Type ℓ} {Value : Type κ} ⦃c : Comparable Key⦄ where
  unfoldable pub lookup : Key → List (Key × Value) → Option Value
  lookup key [] = none
  lookup key ((known, v) ∷ entries) =
      let rest = lookup key entries in if known == key then some v else rest

  -- An entry hides those of its key behind it.
  unfoldable pub insert : Key → Value → List (Key × Value) → List (Key × Value)
  insert key v entries = (key, v) ∷ entries

  pub lookup-insert :
      (added key : Key) (v : Value) (entries : List (Key × Value))
      → lookup key (insert added v entries) ≡ (if added == key then some v else lookup key entries)
  unfolding lookup insert
  lookup-insert added key v entries = refl

-- Sets of keys.
module _ {ℓ} {K : Type ℓ} ⦃e : Comparable K⦄ where
  unfoldable pub contains : List K → K → Bool
  contains [] k = false
  contains (j ∷ s) k = if j == k then true else contains s k

  unfoldable pub add_key : K → List K → List K
  unfolding contains
  add_key k s = if contains s k then s else k ∷ s

  pub contains-add_key :
      (k j : K) (s : List K) → contains (add_key k s) j ≡ (if k == j then true else contains s j)
  unfolding add_key
  contains-add_key k j s = elim (Bool-cases (contains s k)) [
    | inl a ↦ elim (Bool-cases (k == j)) [
      | inl b ↦ ground (arith, a, b, e.tells_apart k j)
      | inr b ↦ ground (arith, a, b)
    ]
    | inr a ↦ ground (arith, a)
  ]

  pub contains-append :
      (xs ys : List K) (k : K) → contains (xs ++ ys) k ≡ (contains xs k || contains ys k)
  unfolding contains
  contains-append [] ys k = refl
  contains-append (x ∷ xs) ys k = ground (arith, contains-append xs ys k)
