-- ===== src/Ignore.antt =====
-- core/ignore.h, core/ignore.cpp: gitignore-style rules.
pub mod Segment
pub mod Path
pub mod Rules
mod Tests
use rasync.Prelude.{ℕ, zero, suc, ◌+◌, ◌*◌, Bool, true, false, not, ◌&&◌, ◌||◌, List, [], ◌∷◌, ◌++◌}
use rasync.Prelude.{Option, none, some, length, ◌==◌, if◌then◌else◌}
use rasync.Prelude.Equality.{bytes_eq}
use rasync.Codec.Writer.{Bytes}

abbrev pub star : ℕ
star = 0x2a

abbrev pub question : ℕ
question = 0x3f

abbrev pub slash : ℕ
slash = 0x2f

-- `while (p < pat.size() && pat[p] == '*') ++p; return p == pat.size();`
unfoldable pub only_stars : Bytes → Bool
only_stars [] = true
only_stars (p ∷ pat) = p == star && only_stars pat

-- What is left of the pattern behind the last star, and of the text from `mark` on.
abbrev pub Mark : Type 0
Mark = Option (Bytes × Bytes)

-- The loop of `seg_match`, on what is left of the pattern and of the text. `fuel` bounds the rounds.
unfoldable pub seg_loop : ℕ → Bytes → Bytes → Mark → Bool
unfolding only_stars
seg_loop fuel pat [] mark = only_stars pat
seg_loop zero pat (s ∷ str) mark = false
seg_loop (suc fuel) [] (s ∷ str) none = false
seg_loop (suc fuel) [] (s ∷ str) (some (after, [])) = false
seg_loop (suc fuel) [] (s ∷ str) (some (after, m ∷ ms)) = seg_loop fuel after ms (some (after, ms))
seg_loop (suc fuel) (p ∷ pat) (s ∷ str) mark = elim (p == question || p == s) [
  | true ↦ seg_loop fuel pat str mark
  | false ↦ elim (p == star) [
    | true ↦ seg_loop fuel pat (s ∷ str) (some (pat, s ∷ str))
    | false ↦ elim mark [
      | none ↦ false
      | some (after, marked) ↦ elim marked [
        | [] ↦ false
        | m ∷ ms ↦ seg_loop fuel after ms (some (after, ms))
      ]
    ]
  ]
]

-- A round takes a byte off the pattern, or moves the mark on: so many rounds are enough.
unfoldable pub seg_match : Bytes → Bytes → Bool
unfolding seg_loop
seg_match pat str = seg_loop (length str * suc (length pat) + length pat) pat str none

abbrev pub double_star : Bytes
double_star = star ∷ star ∷ []

abbrev pub is_nil {ℓ} : {A : Type ℓ} → List A → Bool
is_nil [] = true
is_nil (_ ∷ _) = false

unfoldable pub split_loop : ℕ → Bytes → Bytes → List Bytes
split_loop sep cur [] = cur ∷ []
split_loop sep cur (c ∷ s) = elim (c == sep) [
  | true ↦ cur ∷ split_loop sep [] s
  | false ↦ split_loop sep (cur ++ c ∷ []) s
]

unfoldable pub split : Bytes → ℕ → List Bytes
unfolding split_loop
split s sep = split_loop sep [] s

-- Does `f` hold of what is left from some `k` on?
abbrev pub some_rest : (List Bytes → Bool) → List Bytes → Bool
some_rest f [] = f []
some_rest f (seg ∷ path) = f (seg ∷ path) || some_rest f path

abbrev pub first_segment : (Bytes → Bool) → (List Bytes → Bool) → List Bytes → Bool
first_segment f g [] = false
first_segment f g (seg ∷ path) = f seg && g path

-- `match_segs` on what is left of the pattern and of the path.
unfoldable pub match_segs : List Bytes → List Bytes → Bool
unfolding seg_match
match_segs [] path = is_nil path
match_segs (p ∷ pat) path = elim (bytes_eq p double_star) [
  | true ↦ is_nil pat || some_rest (match_segs pat) path
  | false ↦ first_segment (seg_match p) (match_segs pat) path
]

unfoldable pub any_segment : Bytes → List Bytes → Bool
any_segment pattern [] = false
any_segment pattern (seg ∷ path) = seg_match pattern seg || any_segment pattern path

unfoldable pub glob_match : Bytes → Bytes → Bool → Bool
unfolding split match_segs any_segment
glob_match pattern path anchored =
    if anchored
    then match_segs (split pattern slash) (split path slash)
    else any_segment pattern (split path slash)

pub record Rule : Type 0 where
  pub pattern : Bytes
  pub negate : Bool
  pub dir_only : Bool
  pub anchored : Bool

-- `!s.empty() && s.back() == c`, and `s.pop_back()`.
unfoldable pub ends_with : ℕ → Bytes → Bool
ends_with c [] = false
ends_with c (x ∷ []) = x == c
ends_with c (x ∷ y ∷ s) = ends_with c (y ∷ s)

unfoldable pub pop_back : Bytes → Bytes
pop_back [] = []
pop_back (x ∷ []) = []
pop_back (x ∷ y ∷ s) = x ∷ pop_back (y ∷ s)

unfoldable pub starts_with : ℕ → Bytes → Bool
starts_with c [] = false
starts_with c (x ∷ s) = x == c

abbrev pub erase_first : Bytes → Bytes
erase_first [] = []
erase_first (x ∷ s) = s

unfoldable pub contains : ℕ → Bytes → Bool
contains c [] = false
contains c (x ∷ s) = x == c || contains c s

-- The text of a line as `add` cuts it down: `pop_if` at its end, `skip_if` at its start.
abbrev pub pop_if : ℕ → Bytes → Bytes
pop_if c s = if ends_with c s then pop_back s else s

abbrev pub skip_if : ℕ → Bytes → Bytes
skip_if c s = if starts_with c s then erase_first s else s

-- The rule of a line that is neither empty nor a comment, behind its `!`.
unfoldable pub parse_rule : Bool → Bytes → Option Rule
unfolding ends_with pop_back starts_with contains
parse_rule negate line =
    let body = pop_if slash line in
    let pattern = skip_if slash body in
    if is_nil line || is_nil pattern
    then none
    else some (record {
      pattern = pattern;
      negate = negate;
      dir_only = ends_with slash line;
      anchored = starts_with slash body || contains slash pattern;
    })

abbrev pub push_back : List Rule → Option Rule → List Rule
push_back rules none = rules
push_back rules (some rule) = rules ++ rule ∷ []

-- `IgnoreList::add`. The bytes are CR, `#` and `!`.
unfoldable pub add : Bytes → List Rule → List Rule
unfolding parse_rule
add raw rules =
    let line = pop_if 0x0d raw in
    if is_nil line || starts_with 0x23 line
    then rules
    else push_back rules (parse_rule (starts_with 0x21 line) (skip_if 0x21 line))

-- The lines that `std::getline` gives: none for an empty rest of the text.
unfoldable pub get_lines : Bytes → Bytes → List Bytes
get_lines cur [] = if is_nil cur then [] else cur ∷ []
get_lines cur (c ∷ s) = elim (c == 0x0a) [
  | true ↦ cur ∷ get_lines [] s
  | false ↦ get_lines (cur ++ c ∷ []) s
]

unfoldable pub add_each : List Bytes → List Rule → List Rule
unfolding add
add_each [] rules = rules
add_each (line ∷ lines) rules = add_each lines (add line rules)

unfoldable pub add_lines : Bytes → List Rule → List Rule
unfolding get_lines add_each
add_lines text rules = add_each (get_lines [] text) rules

unfoldable pub applies : Rule → Bytes → Bool → Bool
unfolding glob_match
applies r relpath is_dir =
    if r.dir_only && not is_dir then false else glob_match r.pattern relpath r.anchored

-- The loop of `IgnoreList::matches`.
unfoldable pub matches_loop : List Rule → Bytes → Bool → Bool → Bool
unfolding applies
matches_loop [] relpath is_dir ignored = ignored
matches_loop (r ∷ rules) relpath is_dir ignored =
    matches_loop rules relpath is_dir (if applies r relpath is_dir then not r.negate else ignored)

unfoldable pub matches : List Rule → Bytes → Bool → Bool
unfolding matches_loop
matches rules relpath is_dir = matches_loop rules relpath is_dir false
