-- ===== src/Core/Pattern/Language.antt =====
-- The texts that a pattern describes: crates/jiji-core/src/pattern.rs.
use jiji.Common.{
  ℕ, true, ◌≡◌, ◌≢◌, ◌↔◌, refl, List, [], ◌∷◌, ◌++◌, String, codes, ◌==◌, ==_iff, inl, inr,
  Bool-cases, arith,
}
use jiji.Core.Pattern.{matches, matches_pattern}

-- A text fits a pattern if it is the pattern with some text in the place of each star.
pub data Fits : List ℕ → List ℕ → Type 0 where
  done : {value : List ℕ} → value ≡ [] → Fits value []
  literal :
      {p : ℕ} {value pattern : List ℕ} (rest : List ℕ)
      → p ≢ b'*'
      → value ≡ p ∷ rest
      → Fits rest pattern
      → Fits value (p ∷ pattern)
  star :
      {p : ℕ} {value pattern : List ℕ} (taken rest : List ℕ)
      → p ≡ b'*'
      → value ≡ taken ++ rest
      → Fits rest pattern
      → Fits value (p ∷ pattern)

more :
    (c p : ℕ) (value pattern : List ℕ)
    → p ≡ b'*'
    → Fits value (p ∷ pattern)
    → Fits (c ∷ value) (p ∷ pattern)
more c p value pattern s (literal rest n e f) = absurd (n s)
more c p value pattern s (star taken rest n e f) = star (c ∷ taken) rest n (rw e refl) f

matches-Fits : (value pattern : List ℕ) → matches value pattern ≡ true → Fits value pattern
unfolding matches
matches-Fits [] [] h = done refl
matches-Fits (c ∷ value) [] h = cc
matches-Fits [] (p ∷ rest) h = elim (Bool-cases (p == b'*')) [
  | inl t ↦ star [] [] ((==_iff _ _).0 t) refl (matches-Fits [] rest (rw t at h))
  | inr f ↦ absurd (ground (arith, f))
]
matches-Fits (c ∷ value) (p ∷ rest) h = elim (Bool-cases (p == b'*')) [
  | inl t ↦ elim (Bool-cases (matches (c ∷ value) rest)) [
    | inl u ↦ star [] (c ∷ value) ((==_iff _ _).0 t) refl (matches-Fits (c ∷ value) rest u)
    | inr f ↦
        more c p value rest ((==_iff _ _).0 t)
          (matches-Fits value (p ∷ rest) (ground (arith, t, f)))
  ]
  | inr f ↦
      literal value (ground (arith, f)) (ground (arith, f))
        (matches-Fits value rest (ground (arith, f)))
]

Fits-matches : (value pattern : List ℕ) → Fits value pattern → matches value pattern ≡ true
unfolding matches
Fits-matches value [] (done e) = rw e refl
Fits-matches value (p ∷ pattern) (literal rest n e f) =
    rw e (ground (arith, Fits-matches rest pattern f))
Fits-matches value (p ∷ pattern) (star taken rest s e f) =
    rw e (through (Fits-matches rest pattern f) taken)
  where
    kept : (v : List ℕ) → matches v pattern ≡ true → matches v (p ∷ pattern) ≡ true
    kept [] h = ground arith
    kept (c ∷ v) h = ground arith

    through : matches rest pattern ≡ true → (w : List ℕ) → matches (w ++ rest) (p ∷ pattern) ≡ true
    through h [] = kept rest h
    through h (c ∷ w) = ground (arith, through h w)

-- `matches_pattern` is true exactly of the texts that are the pattern with some text in the place
-- of each star.
pub matches_pattern_iff :
    (value pattern : String)
    → (matches_pattern value pattern ≡ true) ↔ Fits (codes value) (codes pattern)
unfolding matches_pattern
matches_pattern_iff value pattern = (matches-Fits _ _, Fits-matches _ _)
