-- ===== src/Common/Text.antt =====
-- `Ord` of texts, of numbers, and of tuples that are compared place by place.
use Prim.Native.Nat.{ℕ, Ordering, compare}
use Prim.Native.Char.{code}
use Prim.Native.String.{String, then as then_cmp, compare as compare_str}
use Prim.Native.String.compare as compare_lem
use mathlib.Core.Path.{◌≡◌, refl, sym, ap, ◌∙◌}
use mathlib.Core.Bool.{Bool, true, false}
use mathlib.Core.List.{List, [], ◌∷◌}
use native.Mathlib.Omega.{arith}
pub use Prim.Native.String.{then as then_cmp, compare as compare_str}
pub use text.Mathlib.Text.{◌==◌ as str_eq}

-- `str::chars`
abbrev pub codes : String → List ℕ
codes String.[] = []
codes (String.◌∷◌ c s) = code c ∷ codes s

-- `Ordering::reverse`
abbrev pub flip : Ordering → Ordering
flip Ordering.lt = Ordering.gt
flip Ordering.eq = Ordering.eq
flip Ordering.gt = Ordering.lt

abbrev pub is_le : Ordering → Bool
is_le Ordering.gt = false
is_le _ = true

abbrev pub is_gt : Ordering → Bool
is_gt Ordering.gt = true
is_gt _ = false

flip-then : (o p : Ordering) → flip (then_cmp o p) ≡ then_cmp (flip o) (flip p)
flip-then Ordering.lt p = refl
flip-then Ordering.eq p = refl
flip-then Ordering.gt p = refl

pub flip-compare : (a b : ℕ) → compare b a ≡ flip (compare a b)
flip-compare a b = ground arith

pub flip-compare_str : (s t : String) → compare_str t s ≡ flip (compare_str s t)
flip-compare_str String.[] String.[] = refl
flip-compare_str String.[] (String.◌∷◌ d t) =
    compare_lem.cons-nil d t ∙ sym (ap flip (compare_lem.nil-cons d t))
flip-compare_str (String.◌∷◌ c s) String.[] =
    compare_lem.nil-cons c s ∙ sym (ap flip (compare_lem.cons-nil c s))
flip-compare_str (String.◌∷◌ c s) (String.◌∷◌ d t) = rw (
  compare_lem.cons-cons c d s t,
  compare_lem.cons-cons d c t s,
  flip-then (compare (code c) (code d)) (compare_str s t),
  flip-compare_str s t,
  flip-compare (code c) (code d),
)

-- What the comparisons of `a` with `b` and of `b` with `c` say of that of `a` with `c`.
abbrev pub Chains : Ordering → Ordering → Ordering → Type 0
Chains o p q = (o ≡ Ordering.eq → q ≡ p) × (p ≡ Ordering.eq → q ≡ o) × (o ≡ p → q ≡ o)

pub Chains-then :
    (o p q o' p' q' : Ordering)
    → Chains o p q
    → Chains o' p' q'
    → Chains (then_cmp o o') (then_cmp p p') (then_cmp q q')
Chains-then o p q o' p' q' h k = ground arith

pub Chains-compare : (a b c : ℕ) → Chains (compare a b) (compare b c) (compare a c)
Chains-compare a b c = ground arith

pub Chains-compare_str :
    (s t u : String) → Chains (compare_str s t) (compare_str t u) (compare_str s u)
Chains-compare_str String.[] String.[] String.[] = ground arith
Chains-compare_str String.[] String.[] (String.◌∷◌ e u) = ground (arith, compare_lem.nil-cons e u)
Chains-compare_str String.[] (String.◌∷◌ d t) String.[] =
    ground (arith, compare_lem.nil-cons d t, compare_lem.cons-nil d t)
Chains-compare_str String.[] (String.◌∷◌ d t) (String.◌∷◌ e u) =
    ground (arith, compare_lem.nil-cons d t, compare_lem.nil-cons e u)
Chains-compare_str (String.◌∷◌ c s) String.[] String.[] = ground (arith, compare_lem.cons-nil c s)
Chains-compare_str (String.◌∷◌ c s) String.[] (String.◌∷◌ e u) =
    ground (arith, compare_lem.cons-nil c s, compare_lem.nil-cons e u)
Chains-compare_str (String.◌∷◌ c s) (String.◌∷◌ d t) String.[] =
    ground (arith, compare_lem.cons-nil c s, compare_lem.cons-nil d t)
Chains-compare_str (String.◌∷◌ c s) (String.◌∷◌ d t) (String.◌∷◌ e u) =
    rw (compare_lem.cons-cons c d s t, compare_lem.cons-cons d e t u, compare_lem.cons-cons c e s u)
      (Chains-then _ _ _ _ _ _ (Chains-compare (code c) (code d) (code e))
        (Chains-compare_str s t u))

pub is_le_trans :
    (o p q : Ordering) → Chains o p q → is_le o ≡ true → is_le p ≡ true → is_le q ≡ true
is_le_trans o p q c h k = ground arith

pub is_le_total : (o : Ordering) → is_le o ≡ false → is_le (flip o) ≡ true
is_le_total o h = ground arith
