-- ===== src/Ignore/Segment.antt =====
-- core/ignore.cpp: `seg_match` against the meaning of its wildcards.
use rasync.Prelude.{ℕ, zero, suc, ◌+◌, ◌*◌, ◌≤◌, ◌≡◌, refl, sym, ◌∙◌, arith, length, inl, inr}
use rasync.Prelude.{Bool, true, false, ◌&&◌, ◌||◌, [], ◌∷◌, none, some, ◌==◌, Bool-cases}
use rasync.Codec.Writer.{Bytes}
use rasync.Ignore.{star, question, only_stars, seg_loop, seg_match, Mark}
use native.Mathlib.Nat.{suc-mul, mul-le-mul_right}

-- Does `f` hold of some suffix?
abbrev pub some_suffix : (Bytes → Bool) → Bytes → Bool
some_suffix f [] = f []
some_suffix f (s ∷ str) = f (s ∷ str) || some_suffix f str

-- The wildcards: a star stands for any run of bytes, a question mark for one byte.
abbrev pub one_byte : ℕ → (Bytes → Bool) → Bytes → Bool
one_byte p f [] = false
one_byte p f (s ∷ str) = (p == question || p == s) && f str

abbrev pub wild : Bytes → Bytes → Bool
wild [] [] = true
wild [] (s ∷ str) = false
wild (p ∷ pat) str = elim (p == star) [
  | true ↦ some_suffix (wild pat) str
  | false ↦ one_byte p (wild pat) str
]

abbrev pub NoStar : Bytes → Type 0
NoStar [] = Unit {0}
NoStar (x ∷ xs) = ((x == star) ≡ false) × NoStar xs

-- A match of `after` at a later mark.
abbrev later : Bytes → Bytes → Bool
later after [] = false
later after (m ∷ ms) = some_suffix (wild after) ms

only_stars-wild : (pat : Bytes) → only_stars pat ≡ wild pat []
unfolding only_stars
only_stars-wild [] = refl
only_stars-wild (p ∷ pat) = ground (arith, only_stars-wild pat)

suffix_here : (after ms : Bytes) → (wild after ms || later after ms) ≡ some_suffix (wild after) ms
suffix_here after [] = ground arith
suffix_here after (m ∷ ms) = refl

suffix_flat : (f : Bytes → Bool) (str : Bytes) → some_suffix (some_suffix f) str ≡ some_suffix f str
suffix_flat f [] = refl
suffix_flat f (s ∷ str) = ground (arith, suffix_flat f str)

module _ (p : ℕ) (pat : Bytes) (plain : (p == star) ≡ false) where
  wild_one : (str : Bytes) → wild (p ∷ pat) str ≡ one_byte p (wild pat) str
  wild_one str = rw (plain, wild)

  suffix_tail :
      (s : ℕ) (str : Bytes)
      → some_suffix (wild (p ∷ pat)) (s ∷ str) ≡ true
      → some_suffix (wild pat) str ≡ true
  suffix_tail s [] h = ground (arith, wild_one [], wild_one (s ∷ []))
  suffix_tail s (t ∷ str) h = ground (arith, wild_one (s ∷ t ∷ str), suffix_tail t str)

wild-star :
    (p : ℕ) (pat str : Bytes) → (p == star) ≡ true → wild (p ∷ pat) str ≡ some_suffix (wild pat) str
wild-star p pat str e = rw (e, wild)

-- Every match of a later mark is one of the pattern at hand, further on.
abbrev Covered : Bytes → Bytes → Bytes → Bytes → Type 0
Covered after marked pat str = later after marked ≡ true → some_suffix (wild pat) str ≡ true

suffix_flat_star :
    (p : ℕ) (pat str : Bytes)
    → (p == star) ≡ true
    → some_suffix (wild (p ∷ pat)) str ≡ true
    → some_suffix (wild pat) str ≡ true
suffix_flat_star p pat [] e h = ground (arith, wild-star p pat [] e)
suffix_flat_star p pat (s ∷ str) e h =
    ground (arith, wild-star p pat (s ∷ str) e, suffix_flat_star p pat str e)

or_right : (b c : Bool) → c ≡ true → (b || c) ≡ true
or_right b c h = ground (arith, h)

absorbed : (b c : Bool) → (c ≡ true → b ≡ true) → (b || c) ≡ b
absorbed true c h = refl
absorbed false c h = ground (arith, h)

not_star : (p s : ℕ) → (p == question || p == s) ≡ true → (s == star) ≡ false → (p == star) ≡ false
not_star p s t n = ground arith

no_mark : (n : ℕ) → suc n ≤ 0 → ⊥
no_mark n h = elim h [ ]

no_rounds : (n b k : ℕ) → suc n * suc b + k ≤ 0 → ⊥
no_rounds n b k h = omega (arith, suc-mul n (suc b))

module _ (fuel p : ℕ) (pat : Bytes) (s : ℕ) (str : Bytes) where
  step_take :
      (mark : Mark)
      → (p == question || p == s) ≡ true
      → seg_loop (suc fuel) (p ∷ pat) (s ∷ str) mark ≡ seg_loop fuel pat str mark
  unfolding seg_loop
  step_take none t = rw (t, seg_loop)
  step_take (some m) t = rw (t, seg_loop)

  step_star :
      (mark : Mark)
      → (p == question || p == s) ≡ false
      → (p == star) ≡ true
      → seg_loop (suc fuel) (p ∷ pat) (s ∷ str) mark
        ≡ seg_loop fuel pat (s ∷ str) (some (pat, s ∷ str))
  unfolding seg_loop
  step_star none t u = rw (t, u, seg_loop)
  step_star (some m) t u = rw (t, u, seg_loop)

  step_back :
      (after : Bytes) (x : ℕ) (xs : Bytes)
      → (p == question || p == s) ≡ false
      → (p == star) ≡ false
      → seg_loop (suc fuel) (p ∷ pat) (s ∷ str) (some (after, x ∷ xs))
        ≡ seg_loop fuel after xs (some (after, xs))
  unfolding seg_loop
  step_back after x xs t u = rw (t, u, seg_loop)

  step_fail :
      (p == question || p == s) ≡ false
      → (p == star) ≡ false
      → seg_loop (suc fuel) (p ∷ pat) (s ∷ str) none ≡ false
  unfolding seg_loop
  step_fail t u = rw (t, u, seg_loop)

next-Covered : (after xs : Bytes) → Covered after xs after xs
next-Covered after [] h = ground (arith, h)
next-Covered after (x ∷ xs) h = or_right (wild after (x ∷ xs)) (some_suffix (wild after) xs) h

module _ (bound : ℕ) where
  -- Rounds that are enough.
  abbrev Enough : ℕ → Bytes → Bytes → Type 0
  Enough fuel pat marked = length marked * suc bound + length pat ≤ fuel

  Enough-next :
      (fuel : ℕ) (pat after : Bytes) (x : ℕ) (xs : Bytes)
      → length after ≤ bound
      → Enough (suc fuel) pat (x ∷ xs)
      → Enough fuel after xs
  Enough-next fuel pat after x xs l e = omega (arith, suc-mul (length xs) (suc bound))

  Enough-star :
      (fuel p : ℕ) (pat : Bytes) (s : ℕ) (str : Bytes) (x : ℕ) (xs : Bytes)
      → length (s ∷ str) ≤ length (x ∷ xs)
      → Enough (suc fuel) (p ∷ pat) (x ∷ xs)
      → Enough fuel pat (s ∷ str)
  Enough-star fuel p pat s str x xs m e = omega (arith, mul-le-mul_right (suc bound) m)

  Enough-tail :
      (fuel p : ℕ) (pat : Bytes) (s : ℕ) (str : Bytes)
      → Enough (suc fuel) (p ∷ pat) (s ∷ str)
      → Enough fuel pat str
  Enough-tail fuel p pat s str e = omega (arith, suc-mul (length str) (suc bound))

  loop-marked :
      (fuel : ℕ) (pat str after marked : Bytes)
      → NoStar str
      → NoStar marked
      → length after ≤ bound
      → length pat ≤ bound
      → length str ≤ length marked
      → Enough fuel pat marked
      → Covered after marked pat str
      → seg_loop fuel pat str (some (after, marked)) ≡ (wild pat str || later after marked)
  unfolding seg_loop
  loop-marked fuel pat [] after marked n k l b m e c =
      only_stars-wild pat ∙ sym (absorbed (wild pat []) (later after marked) c)
  loop-marked fuel pat (s ∷ str) after [] n k l b m e c = absurd (no_mark (length str) m)
  loop-marked zero pat (s ∷ str) after (x ∷ xs) n k l b m e c =
      absurd (no_rounds (length xs) bound (length pat) e)
  loop-marked (suc fuel) [] (s ∷ str) after (x ∷ xs) n k l b m e c =
      loop-marked fuel after xs after xs k.1 k.1 l l (omega arith)
        (Enough-next fuel [] after x xs l e) (next-Covered after xs)
      ∙ suffix_here after xs
  loop-marked (suc fuel) (p ∷ pat) (s ∷ str) after (x ∷ xs) n k l b m e c =
      elim (Bool-cases (p == question || p == s)) [
        | inl t ↦
            let u = not_star p s t n.0 in
            step_take fuel p pat s str (some (after, x ∷ xs)) t
            ∙ loop-marked fuel pat str after (x ∷ xs) n.1 k l (omega arith) (omega arith)
                (omega arith) (λ h. suffix_tail p pat u s str (c h))
            ∙ rw (wild_one p pat u (s ∷ str), t)
        | inr t ↦ elim (Bool-cases (p == star)) [
          | inl u ↦
              step_star fuel p pat s str (some (after, x ∷ xs)) t u
              ∙ loop-marked fuel pat (s ∷ str) pat (s ∷ str) n n (omega arith) (omega arith)
                  (omega arith) (Enough-star fuel p pat s str x xs m e)
                  (or_right (wild pat (s ∷ str)) (some_suffix (wild pat) str))
              ∙ sym (wild-star p pat (s ∷ str) u)
              ∙ sym (
                  absorbed (wild (p ∷ pat) (s ∷ str)) (later after (x ∷ xs))
                    (λ h. wild-star p pat (s ∷ str) u ∙ suffix_flat_star p pat (s ∷ str) u (c h)))
          | inr u ↦
              step_back fuel p pat s str after x xs t u
              ∙ loop-marked fuel after xs after xs k.1 k.1 l l (omega arith)
                  (Enough-next fuel (p ∷ pat) after x xs l e) (next-Covered after xs)
              ∙ suffix_here after xs
              ∙ rw (wild_one p pat u (s ∷ str), t)
        ]
      ]

  loop-unmarked :
      (fuel : ℕ) (pat str : Bytes)
      → NoStar str
      → length pat ≤ bound
      → Enough fuel pat str
      → seg_loop fuel pat str none ≡ wild pat str
  unfolding seg_loop
  loop-unmarked fuel pat [] n b e = only_stars-wild pat
  loop-unmarked zero pat (s ∷ str) n b e = absurd (no_rounds (length str) bound (length pat) e)
  loop-unmarked (suc fuel) [] (s ∷ str) n b e = refl
  loop-unmarked (suc fuel) (p ∷ pat) (s ∷ str) n b e = elim (Bool-cases (p == question || p == s)) [
    | inl t ↦
        step_take fuel p pat s str none t
        ∙ loop-unmarked fuel pat str n.1 (omega arith) (Enough-tail fuel p pat s str e)
        ∙ rw (wild_one p pat (not_star p s t n.0) (s ∷ str), t)
    | inr t ↦ elim (Bool-cases (p == star)) [
      | inl u ↦
          step_star fuel p pat s str none t u
          ∙ loop-marked fuel pat (s ∷ str) pat (s ∷ str) n n (omega arith) (omega arith)
              (omega arith) (omega arith)
              (or_right (wild pat (s ∷ str)) (some_suffix (wild pat) str))
          ∙ sym (wild-star p pat (s ∷ str) u)
      | inr u ↦ step_fail fuel p pat s str t u ∙ rw (wild_one p pat u (s ∷ str), t)
    ]
  ]

-- On a path segment that holds no star itself, the matcher with its one mark decides the meaning of
-- the pattern.
pub seg_match-wild : (pat str : Bytes) → NoStar str → seg_match pat str ≡ wild pat str
unfolding seg_match
seg_match-wild pat str n =
    loop-unmarked (length pat) (length str * suc (length pat) + length pat) pat str n (omega arith)
      (omega arith)
