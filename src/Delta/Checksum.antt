-- ===== src/Delta/Checksum.antt =====
-- core/delta.cpp: the rolled checksum variables against those of the window.
use rasync.Prelude.{ℕ, ◌+◌, ◌-◌, ◌*◌, ◌/◌, ◌%◌, ◌^◌, ◌<◌, ◌≡◌, refl, arith}
use rasync.Prelude.{[], ◌∷◌, ◌++◌, length, length-append, ap, sym, ◌∙◌}
use rasync.Codec.Writer.{Bytes}
use rasync.Delta.{sum_loop, roll_a, roll_b, pack, weak_checksum}
use native.Mathlib.Nat.{add-mul, mul_assoc, suc-mul}

-- The two sums with no wrap-around.
abbrev pub plain : Bytes → ℕ
plain [] = 0
plain (x ∷ xs) = x + plain xs

abbrev pub weighted : Bytes → ℕ
weighted [] = 0
weighted (x ∷ xs) = length (x ∷ xs) * x + weighted xs

div_split : (n : ℕ) → n ≡ 2 ^ 32 * (n / 2 ^ 32) + n % 2 ^ 32
div_split n = omega arith

product_split : (n x : ℕ) → n * x ≡ 2 ^ 32 * (n / 2 ^ 32 * x) + n % 2 ^ 32 * x
product_split n x =
    ap (λ m. m * x) (div_split n)
    ∙ add-mul (2 ^ 32 * (n / 2 ^ 32)) (n % 2 ^ 32) x
    ∙ ap (λ m. m + n % 2 ^ 32 * x) (mul_assoc (2 ^ 32) (n / 2 ^ 32) x)

wrap_sum :
    (b p p' q w : ℕ)
    → p ≡ 2 ^ 32 * q + p'
    → ((b + p') % 2 ^ 32 + w) % 2 ^ 16 ≡ (b + (p + w)) % 2 ^ 16
wrap_sum b p p' q w h = omega arith

sum_loop-plain : (n a b : ℕ) (xs : Bytes) → (sum_loop n a b xs).0 % 2 ^ 16 ≡ (a + plain xs) % 2 ^ 16
unfolding sum_loop
sum_loop-plain n a b [] = omega arith
sum_loop-plain n a b (x ∷ xs) =
    sum_loop-plain (n - 1) ((a + x) % 2 ^ 32) ((b + n % 2 ^ 32 * x) % 2 ^ 32) xs
    ∙ wrap_sum a x x 0 (plain xs) (omega arith)

sum_loop-weighted :
    (n a b : ℕ) (xs : Bytes)
    → length xs ≡ n
    → (sum_loop n a b xs).1 % 2 ^ 16 ≡ (b + weighted xs) % 2 ^ 16
unfolding sum_loop
sum_loop-weighted n a b [] h = omega arith
sum_loop-weighted n a b (x ∷ xs) h =
    sum_loop-weighted (n - 1) ((a + x) % 2 ^ 32) ((b + n % 2 ^ 32 * x) % 2 ^ 32) xs (omega arith)
    ∙ wrap_sum b (n * x) (n % 2 ^ 32 * x) (n / 2 ^ 32 * x) (weighted xs) (product_split n x)
    ∙ ap (λ m. (b + (m * x + weighted xs)) % 2 ^ 16) (sym h)

weighted-snoc : (w : Bytes) (y : ℕ) → weighted (w ++ y ∷ []) ≡ weighted w + (plain w + y)
weighted-snoc [] y = omega arith
weighted-snoc (x ∷ w) y =
    let n = length w in
    rw (length-append w (y ∷ []), weighted-snoc w y) (omega (arith, suc-mul (n + 1) x))

plain-snoc : (w : Bytes) (y : ℕ) → plain (w ++ y ∷ []) ≡ plain w + y
plain-snoc [] y = omega arith
plain-snoc (x ∷ w) y = omega (arith, plain-snoc w y)

roll_a_plain :
    (a x p y : ℕ)
    → x < 256
    → a % 2 ^ 16 ≡ (x + p) % 2 ^ 16
    → roll_a a x y % 2 ^ 16 ≡ (p + y) % 2 ^ 16
unfolding roll_a
roll_a_plain a x p y h e = omega arith

unroll_b :
    (n b x a' q : ℕ)
    → n * x ≡ 2 ^ 32 * q + n % 2 ^ 32 * x
    → (roll_b n b x a' + n * x) % 2 ^ 16 ≡ (b + a') % 2 ^ 16
unfolding roll_b
unroll_b n b x a' q h = omega arith

-- Rolling the checksum of a window on by one byte gives the checksum of the next window.
pub roll-weak_checksum :
    (a b x y : ℕ) (w : Bytes)
    → x < 256
    → pack (a, b) ≡ weak_checksum (x ∷ w)
    → pack (roll_a a x y, roll_b (length (x ∷ w)) b x (roll_a a x y)) ≡ weak_checksum (w ++ y ∷ [])
unfolding weak_checksum
roll-weak_checksum a b x y w h e =
    let n = length (x ∷ w) in
    let next = w ++ y ∷ [] in
    omega (
      arith,
      e,
      plain-snoc w y,
      weighted-snoc w y,
      sum_loop-plain n 0 0 (x ∷ w),
      sum_loop-weighted n 0 0 (x ∷ w) refl,
      sum_loop-plain (length next) 0 0 next,
      sum_loop-weighted (length next) 0 0 next refl,
      roll_a_plain a x (plain w) y h (omega (arith, e, sum_loop-plain n 0 0 (x ∷ w))),
      unroll_b n b x (roll_a a x y) (n / 2 ^ 32 * x) (product_split n x),
    )
