-- ===== src/StateDir/Name.antt =====
-- core/state_dir.cpp: the name is safe on every file system.
use rasync.Prelude.{
  ℕ, zero, suc, ◌/◌, ◌%◌, ◌≤◌, ◌<◌, ◌≡◌, refl, arith, true, false, Bool-cases, inl, inr,
}
use rasync.Prelude.{[], ◌∷◌, ◌++◌, take, length, length-append, length-take, ◌==◌, ◌||◌}
use rasync.Prelude.Text.{text}
use rasync.Codec.Writer.{Bytes}
use rasync.Hash.{hex_digit, to_hex}
use rasync.StateDir.{is_kept, keep_safe, strip_front, readable_leaf, state_dir_name}

-- Letters, digits, '.', '-' and '_' only.
abbrev pub AllKept : Bytes → Type 0
AllKept [] = Unit {0}
AllKept (c ∷ cs) = (is_kept c ≡ true) × AllKept cs

-- There is a first character, and it is neither '.' nor '_'.
abbrev pub FrontOk : Bytes → Type 0
FrontOk [] = false ≡ true
FrontOk (c ∷ cs) = (c == b'.' || c == b'_') ≡ false

-- Nothing, or a good front.
abbrev EmptyOrOk : Bytes → Type 0
EmptyOrOk [] = Unit {0}
EmptyOrOk (c ∷ cs) = (c == b'.' || c == b'_') ≡ false

-- The values of a byte.
abbrev pub AllBytes : Bytes → Type 0
AllBytes [] = Unit {0}
AllBytes (c ∷ cs) = (c < 256) × AllBytes cs

AllKept-append : (xs ys : Bytes) → AllKept xs → AllKept ys → AllKept (xs ++ ys)
AllKept-append [] ys h k = k
AllKept-append (x ∷ xs) ys (h, hs) k = (h, AllKept-append xs ys hs k)

AllKept-take : (n : ℕ) (xs : Bytes) → AllKept xs → AllKept (take n xs)
AllKept-take zero xs h = tt
AllKept-take (suc n) [] h = tt
AllKept-take (suc n) (x ∷ xs) (h, hs) = (h, AllKept-take n xs hs)

keep_safe-AllKept : (room : ℕ) (cs : Bytes) → AllKept (keep_safe room cs)
unfolding keep_safe is_kept
keep_safe-AllKept zero cs = tt
keep_safe-AllKept (suc room) [] = tt
keep_safe-AllKept (suc room) (c ∷ cs) = elim (Bool-cases (is_kept c)) [
  | inl e ↦ rw (e, keep_safe) (e, keep_safe-AllKept room cs)
  | inr e ↦ rw (e, keep_safe) (refl, keep_safe-AllKept room cs)
]

length-keep_safe : (room : ℕ) (cs : Bytes) → length (keep_safe room cs) ≤ room
unfolding keep_safe
length-keep_safe zero cs = omega arith
length-keep_safe (suc room) [] = omega arith
length-keep_safe (suc room) (c ∷ cs) = omega (arith, length-keep_safe room cs)

strip_front-AllKept : (cs : Bytes) → AllKept cs → AllKept (strip_front cs)
unfolding strip_front
strip_front-AllKept [] h = tt
strip_front-AllKept (c ∷ cs) h = ground (arith, strip_front-AllKept cs h.1)

length-strip_front : (cs : Bytes) → length (strip_front cs) ≤ length cs
unfolding strip_front
length-strip_front [] = omega arith
length-strip_front (c ∷ cs) = ground (arith, length-strip_front cs)

strip_front-EmptyOrOk : (cs : Bytes) → EmptyOrOk (strip_front cs)
unfolding strip_front
strip_front-EmptyOrOk [] = tt
strip_front-EmptyOrOk (c ∷ cs) = elim (Bool-cases (c == b'.' || c == b'_')) [
  | inl e ↦ rw (e, strip_front) (strip_front-EmptyOrOk cs)
  | inr e ↦ rw (e, strip_front) e
]

-- What is left of a leaf, or "dir".
abbrev Leaf : Bytes → Type 0
Leaf cs = AllKept cs × FrontOk cs × (length cs ≤ 40)

or_dir :
    (cs : Bytes)
    → AllKept cs
    → EmptyOrOk cs
    → length cs ≤ 40
    → Leaf (elim cs [ [] ↦ text "dir" | c ∷ rest ↦ c ∷ rest ])
unfolding is_kept
or_dir [] h e l = ((refl, (refl, (refl, tt))), refl, omega arith)
or_dir (c ∷ cs) h e l = (h, e, l)

readable_leaf-Leaf : (leaf : Bytes) → Leaf (readable_leaf leaf)
unfolding readable_leaf is_kept
readable_leaf-Leaf leaf =
    let cs = keep_safe 40 leaf in
    or_dir (strip_front cs) (strip_front-AllKept cs (keep_safe-AllKept 40 leaf))
      (strip_front-EmptyOrOk cs) (omega (arith, length-strip_front cs, length-keep_safe 40 leaf))

hex_digit-kept : (n : ℕ) → n < 16 → is_kept (hex_digit n) ≡ true
unfolding hex_digit is_kept
hex_digit-kept n h = ground (arith, h)

to_hex-AllKept : (xs : Bytes) → AllBytes xs → AllKept (to_hex xs)
unfolding to_hex
to_hex-AllKept [] h = tt
to_hex-AllKept (x ∷ xs) (h, hs) = (
  hex_digit-kept (x / 16) (omega (arith, h)),
  (hex_digit-kept (x % 16) (omega arith), to_hex-AllKept xs hs),
)

FrontOk-append : (xs ys : Bytes) → FrontOk xs → FrontOk (xs ++ ys)
FrontOk-append [] ys h = let n : false ≡ true = h in cc
FrontOk-append (x ∷ xs) ys h = h

-- Where the hash gives bytes: the name of a state directory has letters, digits, '.', '-' and '_'
-- only, is not empty, does not begin with '.' or '_', and has at most 57 characters.
pub state_dir_name_safe :
    (leaf_of sha256 : Bytes → Bytes) (key : Bytes)
    → AllBytes (sha256 key)
    → AllKept (state_dir_name leaf_of sha256 key)
      × FrontOk (state_dir_name leaf_of sha256 key)
      × (length (state_dir_name leaf_of sha256 key) ≤ 57)
unfolding state_dir_name
state_dir_name_safe leaf_of sha256 key h =
    let leaf = readable_leaf (leaf_of key) in
    let (kept, front, short) = readable_leaf-Leaf (leaf_of key) in
    let hex = take 16 (to_hex (sha256 key)) in
    let dash : is_kept b'-' ≡ true = unfold is_kept in refl in
    (
      AllKept-append leaf (b'-' ∷ hex) kept
          (dash, AllKept-take 16 (to_hex (sha256 key)) (to_hex-AllKept (sha256 key) h)),
      FrontOk-append leaf (b'-' ∷ hex) front,
      omega (arith, length-append leaf (b'-' ∷ hex), length-take 16 (to_hex (sha256 key)), short),
    )
