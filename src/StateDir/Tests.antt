-- ===== src/StateDir/Tests.antt =====
-- core/state_dir.cpp at a concrete path.
use rasync.Prelude.{◌≡◌, ◌≤◌, refl, arith, [], ◌∷◌, length}
use rasync.Prelude.Text.{text}
use rasync.Codec.Writer.{Bytes}
use rasync.Hash.{hex_digit, to_hex}
use rasync.StateDir.{is_kept, keep_safe, strip_front, readable_leaf, state_dir_name}
use rasync.StateDir.Name.{AllKept, FrontOk, state_dir_name_safe}

abbrev hash_of : Bytes → Bytes
hash_of key = 18 ∷ 171 ∷ []

state_dir_name_safe_example :
    AllKept (state_dir_name (λ p. p) hash_of (text "._my docs"))
    × FrontOk (state_dir_name (λ p. p) hash_of (text "._my docs"))
    × (length (state_dir_name (λ p. p) hash_of (text "._my docs")) ≤ 57)
state_dir_name_safe_example =
    state_dir_name_safe (λ p. p) hash_of (text "._my docs") (omega arith, (omega arith, tt))

my_docs : state_dir_name (λ p. p) hash_of (text "._my docs") ≡ text "my_docs-12ab"
unfolding state_dir_name readable_leaf strip_front keep_safe is_kept to_hex hex_digit
my_docs = refl

dots_only : readable_leaf (text "..") ≡ text "dir"
unfolding readable_leaf strip_front keep_safe is_kept
dots_only = refl
