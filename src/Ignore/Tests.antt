-- ===== src/Ignore/Tests.antt =====
-- core/ignore.cpp at concrete patterns.
use rasync.Prelude.{◌≡◌, refl, true, false, [], ◌∷◌, List}
use rasync.Codec.Writer.{Bytes}
use rasync.Ignore.{seg_match, star, slash, split, add_lines, matches, Rule}
use rasync.Ignore.Segment.{wild, seg_match-wild}
use rasync.Ignore.Rules.{AllWellFormed, add_lines-AllWellFormed, matches-verdict, verdict, get_or}

-- a*b?
abbrev pattern : Bytes
pattern = b'a' ∷ star ∷ b'b' ∷ b'?' ∷ []

-- axbxbc
abbrev name : Bytes
name = b'a' ∷ b'x' ∷ b'b' ∷ b'x' ∷ b'b' ∷ b'c' ∷ []

seg_match_run : seg_match pattern name ≡ true
unfolding seg_match
seg_match_run = refl

seg_match-wild_example : seg_match pattern name ≡ wild pattern name
seg_match-wild_example =
    seg_match-wild pattern name (refl, (refl, (refl, (refl, (refl, (refl, tt))))))

-- A star in the name is taken for the star of the pattern: `*a` misses `*ba`.
star_in_name :
    (seg_match (star ∷ b'a' ∷ []) (star ∷ b'b' ∷ b'a' ∷ []) ≡ false)
    × (wild (star ∷ b'a' ∷ []) (star ∷ b'b' ∷ b'a' ∷ []) ≡ true)
unfolding seg_match
star_in_name = (refl, refl)

-- a/b
abbrev path : Bytes
path = b'a' ∷ slash ∷ b'b' ∷ []

split_run : split path slash ≡ (b'a' ∷ []) ∷ (b'b' ∷ []) ∷ []
unfolding split
split_run = refl

-- *, #c, !a
abbrev text : Bytes
text = star ∷ 0x0a ∷ b'#' ∷ b'c' ∷ 0x0a ∷ b'!' ∷ b'a' ∷ 0x0a ∷ []

abbrev rules : List Rule
rules =
    record { pattern = star ∷ []; negate = false; dir_only = false; anchored = false }
    ∷ record { pattern = b'a' ∷ []; negate = true; dir_only = false; anchored = false }
    ∷ []

add_lines_run : add_lines text [] ≡ rules
unfolding add_lines
add_lines_run = refl

add_lines-AllWellFormed_example : AllWellFormed (add_lines text [])
add_lines-AllWellFormed_example = add_lines-AllWellFormed text [] tt

matches_run : matches rules (b'a' ∷ []) false ≡ false
unfolding matches
matches_run = refl

matches-verdict_example :
    matches rules (b'a' ∷ []) false ≡ get_or (verdict rules (b'a' ∷ []) false) false
matches-verdict_example = matches-verdict rules (b'a' ∷ []) false
