-- ===== src/Examples/Patterns.antt =====
-- Instances of the theorems on patterns and wildcard hosts: crates/jiji-core/src/pattern.rs,
-- crates/jiji-proxy/src/wildcard.rs.
use Prim.Native.String.{String, ◌++◌}
use jiji.Common.{◌≡◌, ◌≢◌, ◌↔◌, refl, true, false, some, none, codes}
use jiji.Core.Pattern.{matches_pattern}
use jiji.Core.Pattern.Language.{Fits, matches_pattern_iff}
use jiji.Proxy.Wildcard.{Avoids, parent_wildcard_key, parent_wildcard_key_iff, is_wildcard_host}

wildcard_in_middle : matches_pattern "web-frontend-1" "web-*-1" ≡ true
unfolding matches_pattern
wildcard_in_middle = refl

dots_are_literal : matches_pattern "10x0x0x5" "10.0.0.5" ≡ false
unfolding matches_pattern
dots_are_literal = refl

matches_pattern_iff_example :
    (matches_pattern "web-frontend-1" "web-*-1" ≡ true)
    ↔ Fits (codes "web-frontend-1") (codes "web-*-1")
matches_pattern_iff_example = matches_pattern_iff "web-frontend-1" "web-*-1"

nested_subdomain : parent_wildcard_key "deep.foo.example.com" ≡ some "*.foo.example.com"
unfolding parent_wildcard_key
nested_subdomain = refl

no_label : parent_wildcard_key "localhost" ≡ none
unfolding parent_wildcard_key
no_label = refl

configured_wildcard : is_wildcard_host "*.example.com" ≡ true
unfolding is_wildcard_host
configured_wildcard = refl

parent_wildcard_key_iff_example : (parent_wildcard_key "foo.example.com" ≡ some "*.example.com") ↔ (
    (label : String) × (rest : String) × ("foo.example.com" ≡ label ++ String.◌∷◌ "." rest)
    × Avoids "." label
    × (rest ≢ "")
    × ("*.example.com" ≡ "*." ++ rest))
parent_wildcard_key_iff_example = parent_wildcard_key_iff "foo.example.com" "*.example.com"
