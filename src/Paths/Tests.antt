-- ===== src/Paths/Tests.antt =====
-- core/path.h at concrete paths, with the cases of tests/test_path.cpp.
use rasync.Prelude.{◌≡◌, refl, true, false, List, [], ◌∷◌, ◌++◌, ◌↔◌}
use rasync.Codec.Writer.{Bytes}
use rasync.Paths.{is_safe_relpath}
use rasync.Paths.Laws.{IsSafe, is_safe_relpath_iff, resolve, resolve-is_safe_relpath}

-- "a/b"
abbrev plain_path : Bytes
plain_path = b'a' ∷ b'/' ∷ b'b' ∷ []

accepted : is_safe_relpath plain_path ≡ true
unfolding is_safe_relpath
accepted = refl

-- "a/../b"
climbs : is_safe_relpath (b'a' ∷ b'/' ∷ b'.' ∷ b'.' ∷ b'/' ∷ b'b' ∷ []) ≡ false
unfolding is_safe_relpath
climbs = refl

-- "C:x"
drive : is_safe_relpath (b'C' ∷ b':' ∷ b'x' ∷ []) ≡ false
unfolding is_safe_relpath
drive = refl

-- "a/..b/", whose components are only like "..".
lookalike : is_safe_relpath (b'a' ∷ b'/' ∷ b'.' ∷ b'.' ∷ b'b' ∷ b'/' ∷ []) ≡ true
unfolding is_safe_relpath
lookalike = refl

-- Without the guard the path would lead out of the root.
would_escape : resolve ((b'r' ∷ []) ∷ []) (b'.' ∷ b'.' ∷ b'/' ∷ b'x' ∷ []) ≡ (b'x' ∷ []) ∷ []
unfolding resolve
would_escape = refl

is_safe_relpath_iff_example : (is_safe_relpath plain_path ≡ true) ↔ IsSafe plain_path
is_safe_relpath_iff_example = is_safe_relpath_iff plain_path

resolve-is_safe_relpath_example :
    (inside : List Bytes) × (resolve ((b'r' ∷ []) ∷ []) plain_path ≡ inside ++ ((b'r' ∷ []) ∷ []))
resolve-is_safe_relpath_example = resolve-is_safe_relpath ((b'r' ∷ []) ∷ []) plain_path accepted
