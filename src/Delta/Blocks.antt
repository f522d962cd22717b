-- ===== src/Delta/Blocks.antt =====
-- core/delta.cpp: which block of the base an entry of its signature describes.
use rasync.Prelude.{ℕ, zero, suc, ◌+◌, ◌*◌, ◌≤◌, ◌≡◌, arith, ap, sym, ◌∙◌, subst}
use rasync.Prelude.{true, false, List, [], ◌∷◌, length, take, drop, get_elem?, leb, Option}
use rasync.Prelude.{none, some, inl, inr, Bool-cases, Option-cases, ◌&&◌}
use rasync.Prelude.Equality.{bytes_eq, bytes_eq→eq}
use rasync.Codec.Writer.{Bytes}
use rasync.Delta.{slice, BlockSig, Signature, blocks_loop, confirms, first_confirmed}
use rasync.Delta.Apply.{drop-drop, slice-take}
use native.Mathlib.Nat.{suc-mul, zero-mul}

next_block : (i size : ℕ) → size + i * size ≡ suc i * size
next_block i size = omega (arith, suc-mul i size)

abbrev strong_of : Option BlockSig → Bytes
strong_of none = []
strong_of (some blk) = blk.strong

blocks_loop_strong :
    (strong : Bytes → Bytes) (fuel size : ℕ) (base : Bytes) (i : ℕ) (blk : BlockSig)
    → get_elem? (blocks_loop strong fuel size base) i ≡ some blk
    → blk.strong ≡ strong (take size (drop (i * size) base))
unfolding blocks_loop
blocks_loop_strong strong zero size [] i blk h = cc
blocks_loop_strong strong zero size (x ∷ xs) i blk h = cc
blocks_loop_strong strong (suc fuel) size [] i blk h = cc
blocks_loop_strong strong (suc fuel) size (x ∷ xs) zero blk h =
    sym (ap strong_of h) ∙ rw (zero-mul size)
blocks_loop_strong strong (suc fuel) size (x ∷ xs) (suc i) blk h =
    blocks_loop_strong strong fuel size (drop size (x ∷ xs)) i blk h
    ∙ rw (drop-drop (i * size) size (x ∷ xs), next_block i size)

-- Entry `i` of a signature has the strong hash of the block at `i * size`.
pub block_strong :
    (strong : Bytes → Bytes) (size : ℕ) (base : Bytes) (i : ℕ) (blk : BlockSig)
    → get_elem? (blocks_loop strong (length base) size base) i ≡ some blk
    → blk.strong ≡ strong (slice (i * size) (i * size + size) base)
block_strong strong size base i blk h =
    blocks_loop_strong strong (length base) size base i blk h
    ∙ ap strong (sym (slice-take (i * size) size base))

-- What `confirms` has checked of a block.
pub record Confirmed (sig : Signature) (s : Bytes) (i : ℕ) : Type 0 where
  pub blk : BlockSig
  pub present : get_elem? sig.blocks i ≡ some blk
  pub same : blk.strong ≡ s
  pub whole : i * sig.block_size + sig.block_size ≤ sig.file_size

both_hold :
    (blk : BlockSig) (s : Bytes) (m n : ℕ)
    → (bytes_eq blk.strong s && leb m n) ≡ true
    → (blk.strong ≡ s) × (m ≤ n)
both_hold blk s m n h = (ground (arith, bytes_eq→eq blk.strong s), ground arith)

confirms_checked :
    (sig : Signature) (s : Bytes) (i : ℕ) → confirms sig s i ≡ true → Confirmed sig s i
unfolding confirms
confirms_checked sig s i h = elim (Option-cases (get_elem? sig.blocks i)) [
  | inl e ↦ let f : false ≡ true = (rw (e, confirms) at h) in cc
  | inr (blk, e) ↦
      let b =
        both_hold blk s (i * sig.block_size + sig.block_size) sig.file_size
          (rw (e, confirms) at h) in
      record { blk = blk; present = e; same = b.0; whole = b.1 }
]

pub first_confirmed_checked :
    (sig : Signature) (s : Bytes) (is : List ℕ) (i : ℕ)
    → first_confirmed sig s is ≡ some i
    → Confirmed sig s i
unfolding first_confirmed
first_confirmed_checked sig s [] i h = cc
first_confirmed_checked sig s (j ∷ js) i h = elim (Bool-cases (confirms sig s j)) [
  | inl e ↦
      let f : some j ≡ some i = (rw (e, first_confirmed) at h) in
      let g : j ≡ i = cc in subst (Confirmed sig s) g (confirms_checked sig s j e)
  | inr e ↦ first_confirmed_checked sig s js i (rw (e, first_confirmed) at h)
]
