-- ===== src/Core/Pattern.antt =====
-- crates/jiji-core/src/pattern.rs, over the code points of the two texts.
pub mod Language
use jiji.Common.{
  ℕ, Bool, true, false, ◌&&◌, ◌||◌, List, [], ◌∷◌, String, codes, ◌==◌, if◌then◌else◌,
}

abbrev pub is_empty : List ℕ → Bool
is_empty [] = true
is_empty (c ∷ s) = false

-- The function `matches`: a star takes no character, or one and stays.
unfoldable pub matches : List ℕ → List ℕ → Bool
matches value [] = is_empty value
matches [] (p ∷ rest) = let none_left = matches [] rest in if p == b'*' then none_left else false
matches (c ∷ value) (p ∷ rest) =
    let skipped = matches (c ∷ value) rest in
    let taken = matches value (p ∷ rest) in
    let same = matches value rest in if p == b'*' then skipped || taken else c == p && same

unfoldable pub matches_pattern : String → String → Bool
unfolding matches
matches_pattern value pattern = matches (codes value) (codes pattern)
