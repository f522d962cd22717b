-- ===== src/Paths.antt =====
-- core/path.h: which relative paths may be joined onto the sync root.
pub mod Laws
mod Tests
use rasync.Prelude.{
  ℕ, zero, suc, ◌≤◌, Bool, true, false, ◌||◌, ◌&&◌, not, List, [], ◌∷◌, Option, none, some,
}
use rasync.Prelude.{length, get_or, leb, ◌==◌, if◌then◌else◌}
use rasync.Codec.Writer.{Bytes}

abbrev pub slash : ℕ
slash = 0x2f

abbrev pub backslash : ℕ
backslash = 0x5c

abbrev pub colon : ℕ
colon = 0x3a

abbrev pub dot : ℕ
dot = 0x2e

-- `p.find(c) != npos`
unfoldable pub contains : ℕ → Bytes → Bool
contains c [] = false
contains c (x ∷ xs) = x == c || contains c xs

-- `p.find(c, start)`: the text before the first `c` and the text behind it.
unfoldable pub cut_at : ℕ → Bytes → Option (Bytes × Bytes)
cut_at c [] = none
cut_at c (x ∷ xs) =
    let rest = cut_at c xs in
    if x == c then some ([], xs) else elim rest [ none ↦ none | some (a, b) ↦ some (x ∷ a, b) ]

-- `seg == "." || seg == ".."`
unfoldable pub is_dots : Bytes → Bool
is_dots (a ∷ []) = a == dot
is_dots (a ∷ b ∷ []) = a == dot && b == dot
is_dots _ = false

-- The loop over the segments, on the text from `start` on. A round takes a separator at least, so
-- `size + 1` rounds are enough.
unfoldable pub segments_safe : ℕ → Bytes → Bool
segments_safe zero p = true
segments_safe (suc fuel) p = elim (cut_at slash p) [
  | none ↦ not (is_dots p)
  | some (seg, rest) ↦ if is_dots seg then false else segments_safe fuel rest
]

unfoldable pub is_safe_relpath : Bytes → Bool
unfolding contains segments_safe is_dots cut_at
is_safe_relpath [] = false
is_safe_relpath (c ∷ cs) =
    let p = c ∷ cs in
    if c == slash || c == backslash
    then false
    else if contains backslash p
    then false
    else if leb 2 (length p) && get_or p 1 0 == colon
    then false
    else segments_safe (suc (length p)) p
