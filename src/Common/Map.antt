-- ===== src/Common/Map.antt =====
-- `BTreeMap<String, V>`: the pairs in the order of their keys, each key once.
use jiji.Common.Lists.{In}
use jiji.Common.Tests.{if◌then◌else◌, if_either, Bool-cases}
use jiji.Common.Text.{str_eq, compare_str, Chains-compare_str, flip-compare_str}
use Prim.Native.Nat.{Ordering}
use Prim.Native.String.{String}
use mathlib.Core.Path.{◌≡◌, refl, subst}
use mathlib.Core.Logic.{inl, inr}
use mathlib.Core.Option.{Option, none, some}
use mathlib.Core.List.{List, [], ◌∷◌}
use native.Mathlib.Omega.{arith}
use text.Mathlib.TextEquality.{eq_iff, path_by_compare}

abbrev pub Map {ℓ} : Type ℓ → Type ℓ
Map V = List (String × V)

module _ {ℓ} {V : Type ℓ} where
  unfoldable pub lookup : String → Map V → Option V
  lookup k [] = none
  lookup k ((j, v) ∷ m) = if str_eq k j then some v else lookup k m

  unfoldable pub insert : String → V → Map V → Map V
  insert k v [] = (k, v) ∷ []
  insert k v ((j, w) ∷ m) = elim (compare_str k j) [
    | Ordering.lt ↦ (k, v) ∷ (j, w) ∷ m
    | Ordering.eq ↦ (k, v) ∷ m
    | Ordering.gt ↦ (j, w) ∷ insert k v m
  ]

  unfoldable pub remove : String → Map V → Map V
  remove k [] = []
  remove k ((j, v) ∷ m) = let rest = remove k m in if str_eq k j then rest else (j, v) ∷ rest

  abbrev pub values : Map V → List V
  values [] = []
  values ((j, v) ∷ m) = v ∷ values m

  pub lookup-insert :
      (j k : String) (v : V) (m : Map V)
      → lookup j (insert k v m) ≡ (if str_eq j k then some v else lookup j m)
  unfolding lookup insert
  lookup-insert j k v [] = refl
  lookup-insert j k v ((i, w) ∷ m) =
      ground (arith, eq_iff j k, eq_iff k i, eq_iff j i, lookup-insert j k v m)

  pub lookup-remove :
      (j k : String) (m : Map V) → lookup j (remove k m) ≡ (if str_eq j k then none else lookup j m)
  unfolding lookup remove
  lookup-remove j k [] = ground arith
  lookup-remove j k ((i, w) ∷ m) =
      ground (arith, eq_iff j k, eq_iff k i, eq_iff j i, lookup-remove j k m)

module _ {V : Type 0} where
  pub lookup-In : (k : String) (m : Map V) (v : V) → lookup k m ≡ some v → In v (values m)
  unfolding lookup
  lookup-In k [] v h = cc
  lookup-In k ((j, w) ∷ m) v h = ground (arith, lookup-In k m v)

  pub lookup-pair : (k : String) (m : Map V) (v : V) → lookup k m ≡ some v → In (k, v) m
  unfolding lookup
  lookup-pair k [] v h = cc
  lookup-pair k ((j, w) ∷ m) v h = elim (Bool-cases (str_eq k j)) [
    | inl t ↦ let e = (eq_iff k j).0 t in inl (ground (arith, t, e, h))
    | inr f ↦ inr (lookup-pair k m v (ground (arith, f)))
  ]

  abbrev pub AllPairs : (String → V → Type 0) → Map V → Type 0
  AllPairs P [] = Unit
  AllPairs P ((j, v) ∷ m) = P j v × AllPairs P m

  pub AllPairs-insert :
      (P : String → V → Type 0) (k : String) (v : V) (m : Map V)
      → P k v
      → AllPairs P m
      → AllPairs P (insert k v m)
  unfolding insert
  AllPairs-insert P k v [] p h = (p, tt)
  AllPairs-insert P k v ((j, w) ∷ m) p h = go (AllPairs-insert P k v m p h.1) (compare_str k j)
    where
      go :
          AllPairs P (insert k v m)
          → (o : Ordering)
          → AllPairs P (elim o [
            | Ordering.lt ↦ (k, v) ∷ (j, w) ∷ m
            | Ordering.eq ↦ (k, v) ∷ m
            | Ordering.gt ↦ (j, w) ∷ insert k v m
          ])
      go rest Ordering.lt = (p, h)
      go rest Ordering.eq = (p, h.1)
      go rest Ordering.gt = (h.0, rest)

  pub AllPairs-lookup :
      (P : String → V → Type 0) (k : String) (m : Map V) (v : V)
      → AllPairs P m
      → lookup k m ≡ some v
      → P k v
  unfolding lookup
  AllPairs-lookup P k [] v h e = cc
  AllPairs-lookup P k ((j, w) ∷ m) v h e = elim (Bool-cases (str_eq k j)) [
    | inl t ↦ here ((eq_iff k j).0 t) (go (rw t at e))
    | inr f ↦ AllPairs-lookup P k m v h.1 (rw f at e)
  ]
    where
      go : some w ≡ some v → w ≡ v
      go p = cc

      here : k ≡ j → w ≡ v → P k v
      here p q = rw p (subst (P j) q h.0)

lt_trans :
    (s t u : String)
    → compare_str s t ≡ Ordering.lt
    → compare_str t u ≡ Ordering.lt
    → compare_str s u ≡ Ordering.lt
lt_trans s t u h k = ground (arith, Chains-compare_str s t u)

module _ {V : Type 0} where
  -- Every key stands below those that follow it.
  abbrev pub Ascending : Map V → Type 0
  Ascending [] = Unit
  Ascending ((j, v) ∷ m) = AllPairs (λ i w. compare_str j i ≡ Ordering.lt) m × Ascending m

  pub AllPairs-map :
      (P Q : String → V → Type 0) (m : Map V)
      → ((k : String) (v : V) → P k v → Q k v)
      → AllPairs P m
      → AllPairs Q m
  AllPairs-map P Q [] f h = tt
  AllPairs-map P Q ((j, v) ∷ m) f h = (f j v h.0, AllPairs-map P Q m f h.1)

  pub insert-Ascending : (k : String) (v : V) (m : Map V) → Ascending m → Ascending (insert k v m)
  unfolding insert
  insert-Ascending k v [] h = (tt, tt)
  insert-Ascending k v ((j, w) ∷ m) h =
      go (AllPairs-insert (λ i x. compare_str j i ≡ Ordering.lt) k v m) (insert-Ascending k v m h.1)
        (compare_str k j) refl
    where
      go :
          (compare_str j k ≡ Ordering.lt
            → AllPairs (λ i x. compare_str j i ≡ Ordering.lt) m
            → AllPairs (λ i x. compare_str j i ≡ Ordering.lt) (insert k v m))
          → Ascending (insert k v m)
          → (o : Ordering) → compare_str k j ≡ o
          → Ascending (elim o [
            | Ordering.lt ↦ (k, v) ∷ (j, w) ∷ m
            | Ordering.eq ↦ (k, v) ∷ m
            | Ordering.gt ↦ (j, w) ∷ insert k v m
          ])
      go put rest Ordering.lt e = (
        (
          e,
          AllPairs-map (λ i x. compare_str j i ≡ Ordering.lt) (λ i x. compare_str k i ≡ Ordering.lt)
              m (λ i x. lt_trans k j i e) h.0,
        ),
        h,
      )
      go put rest Ordering.eq e = (rw (path_by_compare k j e) h.0, h.1)
      go put rest Ordering.gt e = (put (ground (arith, flip-compare_str k j)) h.0, rest)

  pub AllPairs-zip :
      (P Q : String → V → Type 0) (m : Map V)
      → AllPairs P m
      → AllPairs Q m
      → AllPairs (λ k v. P k v × Q k v) m
  AllPairs-zip P Q [] h k = tt
  AllPairs-zip P Q ((j, v) ∷ m) h k = ((h.0, k.0), AllPairs-zip P Q m h.1 k.1)

  -- Every pair of a map is what a lookup of its key finds.
  pub lookup-AllPairs : (m : Map V) → Ascending m → AllPairs (λ k v. lookup k m ≡ some v) m
  unfolding lookup
  lookup-AllPairs [] a = tt
  lookup-AllPairs ((j, w) ∷ m) a = (
    ground (arith, eq_iff j j),
    AllPairs-map _ (λ k v. lookup k ((j, w) ∷ m) ≡ some v) m
        (λ k v both. ground (arith, both.0, both.1, eq_iff k j, flip-compare_str j k))
        (AllPairs-zip _ _ m a.0 (lookup-AllPairs m a.1)),
  )

  pub AllPairs-remove :
      (P : String → V → Type 0) (k : String) (m : Map V) → AllPairs P m → AllPairs P (remove k m)
  unfolding remove
  AllPairs-remove P k [] h = tt
  AllPairs-remove P k ((j, w) ∷ m) h =
      let rest = AllPairs-remove P k m h.1 in
      if_either (AllPairs P) (str_eq k j) (remove k m) ((j, w) ∷ remove k m) (λ t. rest)
        (λ f. (h.0, rest))

  pub remove-Ascending : (k : String) (m : Map V) → Ascending m → Ascending (remove k m)
  unfolding remove
  remove-Ascending k [] h = tt
  remove-Ascending k ((j, w) ∷ m) h =
      let rest = remove-Ascending k m h.1 in
      if_either Ascending (str_eq k j) (remove k m) ((j, w) ∷ remove k m) (λ t. rest)
        (λ f. (AllPairs-remove _ k m h.0, rest))

  -- A value under its own key is what a lookup of that key finds.
  pub In-lookup :
      (key : V → String) (m : Map V) (v : V)
      → Ascending m
      → AllPairs (λ k w. key w ≡ k) m
      → In v (values m)
      → lookup (key v) m ≡ some v
  unfolding lookup
  In-lookup key [] v a h i = elim i [ ]
  In-lookup key ((j, w) ∷ m) v a h (inl e) = let at = (eq_iff (key w) j).1 h.0 in rw (e, at) refl
  In-lookup key ((j, w) ∷ m) v a h (inr i) =
      let later = In-lookup key m v a.1 h.1 i in
      let above = AllPairs-lookup (λ k x. compare_str j k ≡ Ordering.lt) (key v) m v a.0 later in
      ground (arith, later, above, flip-compare_str j (key v))
