-- ===== src/Proxy/Wildcard.antt =====
-- crates/jiji-proxy/src/wildcard.rs.
use Prim.Native.Char.{Char, code}
use Prim.Native.String.{◌++◌}
use Prim.Native.String.append as append_lem
use text.Mathlib.Text.{starts_with}
use text.Mathlib.TextEquality.{codes_equal}
use jiji.Common.{
  ◌≡◌, ◌≢◌, ◌↔◌, sym, Bool, Option, none, some, String, str_eq, arith, eq_iff, Bool-cases,
  Option-cases, inl, inr, ◌==◌, if◌then◌else◌, some_inj,
}

-- `str::split_once` at one character
unfoldable pub split_once : Char → String → Option (String × String)
split_once d String.[] = none
split_once d (String.◌∷◌ c s) =
    if code c == code d
    then some ("", s)
    else elim (split_once d s) [ none ↦ none | some p ↦ some (String.◌∷◌ c p.0, p.1) ]

unfoldable pub parent_wildcard_key : String → Option String
unfolding split_once
parent_wildcard_key host = elim (split_once "." host) [
  | none ↦ none
  | some p ↦ if str_eq p.1 "" then none else some ("*." ++ p.1)
]

unfoldable pub is_wildcard_host : String → Bool
is_wildcard_host host = starts_with host "*."

-- No character of the text is `d`.
abbrev pub Avoids : Char → String → Type 0
Avoids d String.[] = Unit
Avoids d (String.◌∷◌ c s) = (code c ≢ code d) × Avoids d s

-- The halves of a text around the first place of `d`.
abbrev pub Splits : Char → String → String × String → Type 0
Splits d s p = (s ≡ p.0 ++ String.◌∷◌ d p.1) × Avoids d p.0

split_once-Splits :
    (d : Char) (s : String) (p : String × String) → split_once d s ≡ some p → Splits d s p
unfolding split_once
split_once-Splits d String.[] p h = cc
split_once-Splits d (String.◌∷◌ c s) p h = elim (Bool-cases (code c == code d)) [
  | inl t ↦
      let e : ("", s) ≡ p = some_inj _ _ (ground (arith, t)) in
      rw (← e) (rw (codes_equal c d (ground arith)) (sym (append_lem.nil (String.◌∷◌ d s))), tt)
  | inr f ↦ elim (Option-cases (split_once d s)) [
    | inl n ↦ absurd (ground (arith, f, n))
    | inr q ↦
        let later = split_once-Splits d s q.0 q.1 in
        let e : (String.◌∷◌ c q.0.0, q.0.1) ≡ p = some_inj _ _ (ground (arith, f, q.1)) in
        rw (← e) (
          rw (later.0) (sym (append_lem.cons c q.0.0 (String.◌∷◌ d q.0.1))),
          (ground (arith, f), later.1),
        )
  ]
]

Splits-split_once :
    (d : Char) (a b : String) → Avoids d a → split_once d (a ++ String.◌∷◌ d b) ≡ some (a, b)
unfolding split_once
Splits-split_once d String.[] b h = rw (append_lem.nil (String.◌∷◌ d b)) (ground arith)
Splits-split_once d (String.◌∷◌ c a) b h =
    rw (append_lem.cons c a (String.◌∷◌ d b)) (ground (arith, h.0, Splits-split_once d a b h.1))

-- The key drops exactly the first label of the host, and exists if something follows its dot.
pub parent_wildcard_key_iff :
    (host key : String)
    → (parent_wildcard_key host ≡ some key) ↔ (
        (label : String) × (rest : String) × (host ≡ label ++ String.◌∷◌ "." rest)
        × Avoids "." label
        × (rest ≢ "")
        × (key ≡ "*." ++ rest))
unfolding parent_wildcard_key
parent_wildcard_key_iff host key = (strip, build)
  where
    strip :
        parent_wildcard_key host ≡ some key
        → (label : String) × (rest : String) × (host ≡ label ++ String.◌∷◌ "." rest)
          × Avoids "." label
          × (rest ≢ "")
          × (key ≡ "*." ++ rest)
    strip h = elim (Option-cases (split_once "." host)) [
      | inl n ↦ absurd (ground (arith, n))
      | inr p ↦
          let halves = split_once-Splits "." host p.0 p.1 in
          (
            p.0.0,
            p.0.1,
            halves.0,
            halves.1,
            ground (arith, p.1, eq_iff p.0.1 ""),
            ground (arith, p.1, eq_iff p.0.1 ""),
          )
    ]

    build :
        (label : String) × (rest : String) × (host ≡ label ++ String.◌∷◌ "." rest)
          × Avoids "." label
          × (rest ≢ "")
          × (key ≡ "*." ++ rest)
        → parent_wildcard_key host ≡ some key
    build (label, rest, e, avoids, more, k) =
        rw (e, k, parent_wildcard_key, Splits-split_once "." label rest avoids)
          (ground (arith, eq_iff rest ""))
