-- ===== src/Ignore/Rules.antt =====
-- core/ignore.cpp: the rules that lines give, and which of them decides.
use rasync.Prelude.{◌≡◌, refl, ◌∙◌, arith, Bool, true, false, not, ◌||◌, List, [], ◌∷◌}
use rasync.Prelude.{Option, none, some, Bool-cases, inl, inr, if◌then◌else◌}
use rasync.Codec.Writer.{Bytes}
use rasync.Ignore.{
  Rule, add, add_each, add_lines, parse_rule, push_back, is_nil, contains, slash, applies, matches,
  matches_loop, get_lines, pop_if, skip_if, starts_with,
}

-- A pattern is not empty, and one that is matched segment by segment holds no separator.
pub record WellFormed (r : Rule) : Type 0 where
  pub nonempty : is_nil r.pattern ≡ false
  pub one_segment : r.anchored ≡ false → contains slash r.pattern ≡ false

abbrev pub AllWellFormed : List Rule → Type 0
AllWellFormed [] = Unit {0}
AllWellFormed (r ∷ rules) = WellFormed r × AllWellFormed rules

abbrev IfSome : Option Rule → Type 0
IfSome none = Unit {0}
IfSome (some r) = WellFormed r

or_false : (a b : Bool) → (a || b) ≡ false → b ≡ false
or_false a b h = ground (arith, h)

parse_rule-WellFormed : (negate : Bool) (line : Bytes) → IfSome (parse_rule negate line)
unfolding parse_rule
parse_rule-WellFormed negate line =
    let body = pop_if slash line in
    let pattern = skip_if slash body in
    elim (Bool-cases (is_nil line || is_nil pattern)) [
      | inl e ↦ rw e tt
      | inr e ↦ rw e (record {
        nonempty = or_false (is_nil line) (is_nil pattern) e;
        one_segment = λ h. or_false (starts_with slash body) (contains slash pattern) h;
      })
    ]

push_back-AllWellFormed :
    (rules : List Rule) (r : Option Rule)
    → AllWellFormed rules
    → IfSome r
    → AllWellFormed (push_back rules r)
push_back-AllWellFormed rules none w h = w
push_back-AllWellFormed [] (some r) w h = (h, tt)
push_back-AllWellFormed (q ∷ rules) (some r) w h =
    (w.0, push_back-AllWellFormed rules (some r) w.1 h)

add-AllWellFormed :
    (raw : Bytes) (rules : List Rule) → AllWellFormed rules → AllWellFormed (add raw rules)
unfolding add
add-AllWellFormed raw rules w =
    let line = pop_if 0x0d raw in
    elim (Bool-cases (is_nil line || starts_with 0x23 line)) [
      | inl e ↦ rw e w
      | inr e ↦ rw e (
          push_back-AllWellFormed rules (parse_rule (starts_with 0x21 line) (skip_if 0x21 line)) w
            (parse_rule-WellFormed (starts_with 0x21 line) (skip_if 0x21 line)))
    ]

add_each-AllWellFormed :
    (lines : List Bytes) (rules : List Rule)
    → AllWellFormed rules
    → AllWellFormed (add_each lines rules)
unfolding add_each
add_each-AllWellFormed [] rules w = w
add_each-AllWellFormed (line ∷ lines) rules w =
    add_each-AllWellFormed lines (add line rules) (add-AllWellFormed line rules w)

-- Whatever the text, the rules that its lines add to well-formed rules are well formed: no pattern is
-- empty, and a pattern that is tried on each segment alone holds no separator.
pub add_lines-AllWellFormed :
    (text : Bytes) (rules : List Rule) → AllWellFormed rules → AllWellFormed (add_lines text rules)
unfolding add_lines
add_lines-AllWellFormed text rules w = add_each-AllWellFormed (get_lines [] text) rules w

-- The verdict of later rules stands before that of one that applies.
abbrev pub before : Option Bool → Bool → Bool → Option Bool
before (some v) a n = some v
before none a n = if a then some n else none

-- What the last rule that applies says, if one does.
abbrev pub verdict : List Rule → Bytes → Bool → Option Bool
verdict [] relpath is_dir = none
verdict (r ∷ rules) relpath is_dir =
    before (verdict rules relpath is_dir) (applies r relpath is_dir) (not r.negate)

abbrev pub get_or : Option Bool → Bool → Bool
get_or none d = d
get_or (some v) d = v

get_or-before :
    (v : Option Bool) (a n i : Bool) → get_or v (if a then n else i) ≡ get_or (before v a n) i
get_or-before (some v) a n i = refl
get_or-before none true n i = refl
get_or-before none false n i = refl

matches_loop-verdict :
    (rules : List Rule) (relpath : Bytes) (is_dir ignored : Bool)
    → matches_loop rules relpath is_dir ignored ≡ get_or (verdict rules relpath is_dir) ignored
unfolding matches_loop
matches_loop-verdict [] relpath is_dir ignored = refl
matches_loop-verdict (r ∷ rules) relpath is_dir ignored =
    let a = applies r relpath is_dir in
    matches_loop-verdict rules relpath is_dir (if a then not r.negate else ignored)
    ∙ get_or-before (verdict rules relpath is_dir) a (not r.negate) ignored

-- A path is ignored exactly when the last rule that applies to it is not negated; where none
-- applies, it is kept.
pub matches-verdict :
    (rules : List Rule) (relpath : Bytes) (is_dir : Bool)
    → matches rules relpath is_dir ≡ get_or (verdict rules relpath is_dir) false
unfolding matches
matches-verdict rules relpath is_dir = matches_loop-verdict rules relpath is_dir false
