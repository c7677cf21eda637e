-- ===== src/Common/Keys.antt =====
-- The keys of the pairs of a map that pass a test.
use jiji.Common.Lists.{In, keep}
use jiji.Common.Map.{Map, lookup as get, AllPairs-lookup, Ascending}
use jiji.Common.Tests.{if◌then◌else◌, Bool-cases, some_inj}
use jiji.Common.Text.{str_eq, flip-compare_str}
use Prim.Native.String.{String}
use mathlib.Core.Path.{◌≡◌, refl}
use mathlib.Core.Logic.{◌↔◌, ◌⊎◌, inl, inr}
use mathlib.Core.Bool.{Bool, true, false}
use mathlib.Core.Option.{some}
use mathlib.Core.List.{List, [], ◌∷◌, map}
use native.Mathlib.Omega.{arith}
use text.Mathlib.TextEquality.{eq_iff}

module _ {V : Type 0} (q : String × V → Bool) where
  abbrev pub keys : Map V → List String
  keys m = map (λ (p : String × V). p.0) (keep q m)

  keys-step :
      (k j : String) (w : V) (m : Map V) (b : Bool)
      → In k (map (λ (p : String × V). p.0) (if b then (j, w) ∷ keep q m else keep q m))
        ↔ (((k ≡ j) × (b ≡ true)) ⊎ In k (keys m))
  keys-step k j w m true = (
    λ i. elim i [ inl e ↦ inl (e, refl) | inr later ↦ inr later ],
    λ s. elim s [ inl e ↦ inl e.0 | inr later ↦ inr later ],
  )
  keys-step k j w m false =
      (λ i. inr i, λ s. elim s [ inl e ↦ absurd (ground (arith, e.1)) | inr later ↦ later ])

  pub keys-lookup :
      (k : String) (m : Map V)
      → Ascending m
      → In k (keys m) ↔ ((v : V) × (get k m ≡ some v) × (q (k, v) ≡ true))
  unfolding keep get
  keys-lookup k [] a = (λ i. elim i [ ], λ v. absurd (ground (arith, v.1)))
  keys-lookup k ((j, w) ∷ m) a =
      let step = keys-step k j w m (q (j, w)) in
      let later = keys-lookup k m a.1 in
      (
        λ i. elim (step.0 i) [
          | inl e ↦ (w, ground (arith, (eq_iff k j).1 e.0), rw (e.0) (e.1))
          | inr l ↦
              let found = later.0 l in
              let above = AllPairs-lookup _ k m found.0 a.0 found.1 in
              (found.0, ground (arith, found.1, above, eq_iff k j, flip-compare_str j k), found.2)
        ],
        λ v. step.1 (elim (Bool-cases (str_eq k j)) [
          | inl t ↦
              let e = (eq_iff k j).0 t in
              let same : w ≡ v.0 = some_inj _ _ (ground (arith, t, v.1)) in
              inl (e, ground (arith, v.2, e, same))
          | inr f ↦ inr (later.1 (v.0, ground (arith, f, v.1), v.2))
        ]),
      )
