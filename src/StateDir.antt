-- ===== src/StateDir.antt =====
-- core/state_dir.cpp: the name of the state directory of a folder.
pub mod Name
mod Tests
use rasync.Prelude.{
  ℕ, zero, suc, Bool, true, false, ◌&&◌, ◌||◌, List, [], ◌∷◌, ◌++◌, take, leb, ◌==◌, if◌then◌else◌,
}
use rasync.Prelude.Text.{text}
use rasync.Codec.Writer.{Bytes}
use rasync.Hash.{to_hex}

-- The characters that `readable_leaf` keeps.
unfoldable pub is_kept : ℕ → Bool
is_kept c =
    leb b'a' c && leb c b'z'
    || leb b'A' c && leb c b'Z'
    || leb b'0' c && leb c b'9'
    || c == b'.'
    || c == b'-'
    || c == b'_'

-- The loop over the leaf, with the room that is left.
unfoldable pub keep_safe : ℕ → Bytes → Bytes
unfolding is_kept
keep_safe zero cs = []
keep_safe (suc room) [] = []
keep_safe (suc room) (c ∷ cs) = (if is_kept c then c else b'_') ∷ keep_safe room cs

unfoldable pub strip_front : Bytes → Bytes
strip_front [] = []
strip_front (c ∷ cs) = let rest = strip_front cs in if c == b'.' || c == b'_' then rest else c ∷ cs

-- `readable_leaf`, on the last name of the path.
unfoldable pub readable_leaf : Bytes → Bytes
unfolding keep_safe strip_front
readable_leaf leaf = elim (strip_front (keep_safe 40 leaf)) [ [] ↦ text "dir" | c ∷ cs ↦ c ∷ cs ]

-- `leaf_of` is what `std::filesystem` takes for the last name of a path, and `sha256` is in librats.
module _ (leaf_of sha256 : Bytes → Bytes) where
  unfoldable pub state_dir_name : Bytes → Bytes
  unfolding readable_leaf to_hex
  state_dir_name key = readable_leaf (leaf_of key) ++ (b'-' ∷ take 16 (to_hex (sha256 key)))
