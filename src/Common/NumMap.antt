-- ===== src/Common/NumMap.antt =====
-- A map from numbers, such as `BTreeMap<u64, V>`: the pairs in the order of their keys, each key once.
use jiji.Common.Tests.{◌==◌, if◌then◌else◌}
use Prim.Native.Nat.{ℕ, compare, Ordering}
use mathlib.Core.Path.{◌≡◌, refl}
use mathlib.Core.Option.{Option, none, some}
use mathlib.Core.List.{List, [], ◌∷◌}
use native.Mathlib.Omega.{arith}

abbrev pub NumMap {ℓ} : Type ℓ → Type ℓ
NumMap V = List (ℕ × V)

module _ {ℓ} {V : Type ℓ} where
  unfoldable pub lookup_num : ℕ → NumMap V → Option V
  lookup_num k [] = none
  lookup_num k ((j, v) ∷ m) = if k == j then some v else lookup_num k m

  unfoldable pub insert_num : ℕ → V → NumMap V → NumMap V
  insert_num k v [] = (k, v) ∷ []
  insert_num k v ((j, w) ∷ m) = elim (compare k j) [
    | Ordering.lt ↦ (k, v) ∷ (j, w) ∷ m
    | Ordering.eq ↦ (k, v) ∷ m
    | Ordering.gt ↦ (j, w) ∷ insert_num k v m
  ]

  unfoldable pub remove_num : ℕ → NumMap V → NumMap V
  remove_num k [] = []
  remove_num k ((j, v) ∷ m) = let rest = remove_num k m in if k == j then rest else (j, v) ∷ rest

  pub lookup_num-insert_num :
      (j k : ℕ) (v : V) (m : NumMap V)
      → lookup_num j (insert_num k v m) ≡ (if j == k then some v else lookup_num j m)
  unfolding lookup_num insert_num
  lookup_num-insert_num j k v [] = refl
  lookup_num-insert_num j k v ((i, w) ∷ m) = ground (arith, lookup_num-insert_num j k v m)

  pub lookup_num-remove_num :
      (j k : ℕ) (m : NumMap V)
      → lookup_num j (remove_num k m) ≡ (if j == k then none else lookup_num j m)
  unfolding lookup_num remove_num
  lookup_num-remove_num j k [] = ground arith
  lookup_num-remove_num j k ((i, w) ∷ m) = ground (arith, lookup_num-remove_num j k m)
