-- ===== src/Delta/Apply.antt =====
-- core/delta.cpp: what the instructions of a delta stand for, and how the emitters extend them.
use rasync.Prelude.{ℕ, zero, suc, ◌+◌, ◌-◌, ◌%◌, ◌^◌, ◌≤◌, ◌<◌, ◌≡◌, refl, arith, ap, sym, ◌∙◌}
use rasync.Prelude.{Bool, true, false, List, [], ◌∷◌, ◌++◌, length, take, drop, ltb}
use rasync.Prelude.{inl, inr, Bool-cases, if◌then◌else◌, ◌==◌, ◌&&◌, subst}
use rasync.Codec.Writer.{Bytes}
use rasync.Delta.{slice, DeltaOp, copy_op, literal_op, emit_copy, emit_literal, apply_loop}
use mathlib.Core.List.{append-nil, append_assoc}
use native.Mathlib.Nat.{mod-eq_of_lt, zero-add, suc-add}

module _ {ℓ} {A : Type ℓ} where
  take-nil : (k : ℕ) → take {A = A} k [] ≡ []
  take-nil zero = refl
  take-nil (suc k) = refl

  drop-nil : (k : ℕ) → drop {A = A} k [] ≡ []
  drop-nil zero = refl
  drop-nil (suc k) = refl

module _ {ℓ} {A : Type ℓ} where
  take-join : (m k : ℕ) (xs : List A) → take m xs ++ take k (drop m xs) ≡ take (m + k) xs
  take-join zero k xs = rw (zero-add k)
  take-join (suc m) k [] = rw (suc-add m k) (take-nil k)
  take-join (suc m) k (x ∷ xs) = rw (suc-add m k, take-join m k xs)

  pub drop-drop : (k m : ℕ) (xs : List A) → drop k (drop m xs) ≡ drop (m + k) xs
  drop-drop k zero xs = rw (zero-add k)
  drop-drop k (suc m) [] = rw (suc-add m k) (drop-nil k)
  drop-drop k (suc m) (x ∷ xs) = rw (suc-add m k) (drop-drop k m xs)

sub_left : (a m : ℕ) → a + m - a ≡ m
sub_left a m = omega arith

pub slice-take : (a m : ℕ) (xs : Bytes) → slice a (a + m) xs ≡ take m (drop a xs)
slice-take a m xs = rw (sub_left a m)

slice_join_at :
    (a m k : ℕ) (xs : Bytes)
    → slice a (a + m) xs ++ slice (a + m) (a + m + k) xs ≡ slice a (a + m + k) xs
slice_join_at a m k xs =
    rw (slice-take a m xs, slice-take (a + m) k xs, ← drop-drop m a xs, take-join m k (drop a xs))
      (ap (λ n. take n (drop a xs)) (omega arith))

split_le : (a b : ℕ) → a ≤ b → b ≡ a + (b - a)
split_le a b h = omega arith

-- Neighbouring slices join.
pub slice_join :
    (a b c : ℕ) (xs : Bytes) → a ≤ b → b ≤ c → slice a b xs ++ slice b c xs ≡ slice a c xs
slice_join a b c xs h k =
    subst (λ c'. slice a b xs ++ slice b c' xs ≡ slice a c' xs) (sym (split_le b c k))
      (subst (λ b'. slice a b' xs ++ slice b' (b' + (c - b)) xs ≡ slice a (b' + (c - b)) xs)
        (sym (split_le a b h)) (slice_join_at a (b - a) (c - b) xs))

-- The text of an instruction, and of a list of them.
abbrev pub op_text : Bytes → DeltaOp → Bytes
op_text base op = if op.copy then slice op.offset (op.offset + op.len) base else op.literal

abbrev pub text_of : Bytes → List DeltaOp → Bytes
text_of base [] = []
text_of base (op ∷ ops) = op_text base op ++ text_of base ops

-- Every COPY lies inside the base.
abbrev pub InBase : Bytes → List DeltaOp → Type 0
InBase base [] = Unit {0}
InBase base (op ∷ ops) = (op.copy ≡ true → op.offset + op.len ≤ length base) × InBase base ops

end_inside :
    (base : Bytes) (e : ℕ)
    → length base < 2 ^ 64
    → e ≤ length base
    → ltb (length base) (e % 2 ^ 64) ≡ false
end_inside base e h k =
    let small : e < 2 ^ 64 = omega arith in rw (mod-eq_of_lt small) (ground arith)

-- On instructions that lie inside a base of fewer than 2^64 bytes, `apply_delta` gives their text.
pub apply_loop-text_of :
    (base out : Bytes) (ops : List DeltaOp)
    → length base < 2 ^ 64
    → InBase base ops
    → apply_loop base out ops ≡ out ++ text_of base ops
unfolding apply_loop
apply_loop-text_of base out [] h i = sym (append-nil out)
apply_loop-text_of base out (op ∷ ops) h (i, is) = elim (Bool-cases op.copy) [
  | inl c ↦
      let e : ltb (length base) ((op.offset + op.len) % 2 ^ 64) ≡ false =
        end_inside base (op.offset + op.len) h (i c) in
      rw (c, e)
        (apply_loop-text_of base (out ++ slice op.offset (op.offset + op.len) base) ops h is
          ∙ append_assoc out (slice op.offset (op.offset + op.len) base) (text_of base ops))
  | inr c ↦ rw c (
      apply_loop-text_of base (out ++ op.literal) ops h is
      ∙ append_assoc out op.literal (text_of base ops))
]

pub text_of-append :
    (base : Bytes) (xs ys : List DeltaOp)
    → text_of base (xs ++ ys) ≡ text_of base xs ++ text_of base ys
text_of-append base [] ys = refl
text_of-append base (x ∷ xs) ys =
    rw (text_of-append base xs ys)
      (sym (append_assoc (op_text base x) (text_of base xs) (text_of base ys)))

InBase-append :
    (base : Bytes) (xs ys : List DeltaOp) → InBase base xs → InBase base ys → InBase base (xs ++ ys)
InBase-append base [] ys h k = k
InBase-append base (x ∷ xs) ys (h, hs) k = (h, InBase-append base xs ys hs k)

-- `emit_literal` adds the text of its range.
pub emit_literal-text_of :
    (base target : Bytes) (from to : ℕ) (ops : List DeltaOp)
    → from ≤ to
    → text_of base (emit_literal target from to ops) ≡ text_of base ops ++ slice from to target
unfolding emit_literal
emit_literal-text_of base target from to ops h = elim (Bool-cases (ltb from to)) [
  | inl c ↦
      rw (c, text_of-append base ops (literal_op (slice from to target) ∷ []))
        (ap (λ t. text_of base ops ++ t) (append-nil (slice from to target)))
  | inr c ↦ let z : to - from ≡ 0 = ground arith in rw (c, z) (sym (append-nil (text_of base ops)))
]

pub emit_literal-InBase :
    (base target : Bytes) (from to : ℕ) (ops : List DeltaOp)
    → InBase base ops
    → InBase base (emit_literal target from to ops)
unfolding emit_literal
emit_literal-InBase base target from to ops h = elim (Bool-cases (ltb from to)) [
  | inl c ↦ rw c (InBase-append base ops (literal_op (slice from to target) ∷ []) h ((λ e. cc), tt))
  | inr c ↦ rw c h
]

-- Does a COPY at `offset` continue this instruction?
abbrev continues : DeltaOp → ℕ → Bool
continues op offset = op.copy && op.offset + op.len == offset

continues→copy : (op : DeltaOp) (offset : ℕ) → continues op offset ≡ true → op.copy ≡ true
continues→copy op offset h = ground arith

continues→end :
    (op : DeltaOp) (offset : ℕ) → continues op offset ≡ true → op.offset + op.len ≡ offset
continues→end op offset h = ground arith

joined :
    (base : Bytes) (offset len : ℕ) (op : DeltaOp)
    → length base < 2 ^ 32
    → offset + len ≤ length base
    → op.copy ≡ true
    → op.offset + op.len ≡ offset
    → text_of base (record op { len = (op.len + len) % 2 ^ 32 } ∷ [])
      ≡ text_of base (op ∷ []) ++ slice offset (offset + len) base
joined base offset len op h k c e =
    let w : (op.len + len) % 2 ^ 32 ≡ op.len + len = mod-eq_of_lt (omega arith) in
    let f : op.offset + (op.len + len) ≡ offset + len = omega arith in
    rw
      (
        c,
        w,
        append-nil (slice op.offset (op.offset + op.len) base),
        append-nil (slice op.offset (op.offset + (op.len + len)) base),
        f,
        e,
      )
      (sym (slice_join op.offset offset (offset + len) base (omega arith) (omega arith)))

copied_text :
    (base : Bytes) (offset len : ℕ) (op : DeltaOp)
    → text_of base (op ∷ []) ++ text_of base (copy_op offset len ∷ [])
      ≡ text_of base (op ∷ []) ++ slice offset (offset + len) base
copied_text base offset len op =
    ap (λ t. text_of base (op ∷ []) ++ t) (append-nil (slice offset (offset + len) base))

-- `emit_copy` adds the text of its range, and stays inside the base.
pub emit_copy-text_of :
    (base : Bytes) (offset len : ℕ) (ops : List DeltaOp)
    → length base < 2 ^ 32
    → offset + len ≤ length base
    → InBase base ops
    → text_of base (emit_copy offset len ops) ≡ text_of base ops ++ slice offset (offset + len) base
unfolding emit_copy
emit_copy-text_of base offset len [] h k i = append-nil (slice offset (offset + len) base)
emit_copy-text_of base offset len (op ∷ []) h k (i, is) = elim (Bool-cases (continues op offset)) [
  | inl c ↦
      rw c (joined base offset len op h k (continues→copy op offset c) (continues→end op offset c))
  | inr c ↦
      rw c
        (text_of-append base (op ∷ []) (copy_op offset len ∷ []) ∙ copied_text base offset len op)
]
emit_copy-text_of base offset len (op ∷ next ∷ ops) h k (i, is) =
    rw (emit_copy-text_of base offset len (next ∷ ops) h k is) (
      sym (
        append_assoc (op_text base op) (text_of base (next ∷ ops))
          (slice offset (offset + len) base)))

pub emit_copy-InBase :
    (base : Bytes) (offset len : ℕ) (ops : List DeltaOp)
    → length base < 2 ^ 32
    → offset + len ≤ length base
    → InBase base ops
    → InBase base (emit_copy offset len ops)
unfolding emit_copy
emit_copy-InBase base offset len [] h k i = ((λ e. k), tt)
emit_copy-InBase base offset len (op ∷ []) h k (i, is) = elim (Bool-cases (continues op offset)) [
  | inl c ↦
      let e = continues→end op offset c in
      let w : (op.len + len) % 2 ^ 32 ≡ op.len + len = mod-eq_of_lt (omega arith) in
      rw c ((λ _. rw w (omega arith)), tt)
  | inr c ↦ rw c (i, ((λ _. k), tt))
]
emit_copy-InBase base offset len (op ∷ next ∷ ops) h k (i, is) =
    (i, emit_copy-InBase base offset len (next ∷ ops) h k is)
