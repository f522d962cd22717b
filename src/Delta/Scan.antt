-- ===== src/Delta/Scan.antt =====
-- core/delta.cpp: applying the delta of a target to the base gives the target.
use rasync.Prelude.{ℕ, zero, suc, ◌+◌, ◌*◌, ◌-◌, ◌^◌, ◌≤◌, ◌<◌, ◌≡◌, refl, arith, ap, sym, ◌∙◌}
use rasync.Prelude.{List, [], ◌∷◌, ◌++◌, length, take, leb, ltb}
use rasync.Prelude.{inl, inr, Bool-cases, Option-cases, if◌then◌else◌, ◌==◌, leb→le}
use rasync.Codec.Writer.{Bytes}
use rasync.Delta.{
  DeltaOp, slice, Signature, ScanState, signature_of, compute_delta, apply_delta, matched_at,
  take_block, step_over, scan_round, scan, scan_start, blocks_loop, default_block_size,
  emit_literal, by_weak, pack, no_blocks,
}
use rasync.Delta.Apply.{
  text_of, InBase, slice_join, apply_loop-text_of, emit_literal-text_of, emit_literal-InBase,
  emit_copy-text_of, emit_copy-InBase,
}
use rasync.Delta.Blocks.{block_strong, Confirmed, first_confirmed_checked}

take-length : (xs : Bytes) → take (length xs) xs ≡ xs
take-length [] = refl
take-length (x ∷ xs) = rw (take-length xs)

slice_whole : (xs : Bytes) → slice 0 (length xs) xs ≡ xs
slice_whole xs = let z : length xs - 0 ≡ length xs = omega arith in rw (z, take-length xs)

-- No window of the target shares its strong hash with a block of the base but not its bytes.
abbrev pub NoCollision : (Bytes → Bytes) → ℕ → Bytes → Bytes → Type 0
NoCollision strong size base target =
    (i j : ℕ)
    → strong (slice (i * size) (i * size + size) base) ≡ strong (slice j (j + size) target)
    → slice (i * size) (i * size + size) base ≡ slice j (j + size) target

-- The signature that `signature_of` gives for a block size that is not zero.
abbrev pub signed : (Bytes → Bytes) → ℕ → Bytes → Signature
signed strong size base = record {
  block_size = size;
  file_size = length base;
  blocks = blocks_loop strong (length base) size base;
}

-- What the scan has emitted is the target up to `literal_start`.
pub record Scanned (base target : Bytes) (st : ScanState) : Type 0 where
  pub emitted : text_of base st.ops ≡ slice 0 st.literal_start target
  pub inside : InBase base st.ops
  pub behind : st.literal_start ≤ st.pos
  pub within : st.pos ≤ length target

-- Instructions that lie inside the base and stand for the target.
abbrev pub Rebuilds : Bytes → Bytes → List DeltaOp → Type 0
Rebuilds base target ops = InBase base ops × (text_of base ops ≡ target)

module _ (strong : Bytes → Bytes) (arrange : List ℕ → List ℕ) (size : ℕ) (base target : Bytes)
    (small : length base < 2 ^ 32) (unique : NoCollision strong size base target) where
  take_block-Scanned :
      (st : ScanState) (i : ℕ)
      → Scanned base target st
      → st.pos + size ≤ length target
      → Confirmed (signed strong size base) (strong (slice st.pos (st.pos + size) target)) i
      → Scanned base target (take_block (signed strong size base) target st i)
  unfolding take_block
  take_block-Scanned st i s h c =
      let lit = emit_literal target st.literal_start st.pos st.ops in
      let same : slice (i * size) (i * size + size) base ≡ slice st.pos (st.pos + size) target =
        unique i st.pos (sym (block_strong strong size base i c.blk c.present) ∙ c.same) in
      let in_lit = emit_literal-InBase base target st.literal_start st.pos st.ops s.inside in
      record {
        emitted =
            emit_copy-text_of base (i * size) size lit small c.whole in_lit
            ∙ rw
                (
                  emit_literal-text_of base target st.literal_start st.pos st.ops s.behind,
                  s.emitted,
                  same,
                )
                (ap (λ t. t ++ slice st.pos (st.pos + size) target)
                    (slice_join 0 st.literal_start st.pos target (omega arith) s.behind)
                  ∙ slice_join 0 st.pos (st.pos + size) target (omega arith) (omega arith));
        inside = emit_copy-InBase base (i * size) size lit small c.whole in_lit;
        behind = omega arith;
        within = h;
      }

  step_over-Scanned :
      (st : ScanState)
      → 0 < size
      → Scanned base target st
      → st.pos + size ≤ length target
      → Scanned base target (step_over (signed strong size base) target st)
  unfolding step_over
  step_over-Scanned st p s h = elim (Bool-cases (ltb (st.pos + size) (length target))) [
    | inl c ↦ rw c (record {
      emitted = s.emitted;
      inside = s.inside;
      behind = omega arith;
      within = omega arith;
    })
    | inr c ↦ rw c (record {
      emitted = s.emitted;
      inside = s.inside;
      behind = omega arith;
      within = omega arith;
    })
  ]

  scan_round-Scanned :
      (st : ScanState)
      → 0 < size
      → Scanned base target st
      → st.pos + size ≤ length target
      → Scanned base target (scan_round strong arrange (signed strong size base) target st)
  unfolding scan_round matched_at
  scan_round-Scanned st p s h =
      elim (Option-cases (matched_at strong arrange (signed strong size base) target st)) [
        | inl e ↦ rw (e, scan_round) (step_over-Scanned st p s h)
        | inr (i, e) ↦
            rw (e, scan_round)
              (let sig = signed strong size base in
                take_block-Scanned st i s h (
                  first_confirmed_checked sig (strong (slice st.pos (st.pos + size) target))
                    (arrange (by_weak (pack (st.a, st.b)) 0 sig.blocks)) i
                    (unfold matched_at in e)))
      ]

  scan-Scanned :
      (fuel : ℕ) (st : ScanState)
      → 0 < size
      → Scanned base target st
      → Scanned base target (scan strong arrange fuel (signed strong size base) target st)
  unfolding scan
  scan-Scanned zero st p s = s
  scan-Scanned (suc fuel) st p s = elim (Bool-cases (leb (st.pos + size) (length target))) [
    | inl c ↦
        rw (c, scan)
          (scan-Scanned fuel (scan_round strong arrange (signed strong size base) target st) p
            (scan_round-Scanned st p s (leb→le (st.pos + size) (length target) c)))
    | inr c ↦ rw (c, scan) s
  ]

  literals_rebuild :
      (st : ScanState)
      → Scanned base target st
      → Rebuilds base target (emit_literal target st.literal_start (length target) st.ops)
  literals_rebuild st s =
      let n = length target in
      (
        emit_literal-InBase base target st.literal_start n st.ops s.inside,
        emit_literal-text_of base target st.literal_start n st.ops (omega arith)
            ∙ rw s.emitted (slice_join 0 st.literal_start n target (omega arith) (omega arith))
            ∙ slice_whole target,
      )

  start-Scanned : Scanned base target (scan_start (signed strong size base) target)
  start-Scanned = record { emitted = refl; inside = tt; behind = omega arith; within = omega arith }

  rebuilt :
      0 < size
      → Rebuilds base target (compute_delta strong arrange (signed strong size base) target).ops
  unfolding compute_delta
  rebuilt p =
      let sig = signed strong size base in
      let last = scan strong arrange (length target) sig target (scan_start sig target) in
      let all_literal = literals_rebuild (scan_start sig target) start-Scanned in
      let scanned =
        literals_rebuild last
          (scan-Scanned (length target) (scan_start sig target) p start-Scanned) in
      elim (Bool-cases (size == 0)) [
        | inl c ↦ rw (c, compute_delta) all_literal
        | inr c ↦ elim (Bool-cases (no_blocks sig.blocks)) [
          | inl d ↦ rw (c, d, compute_delta) all_literal
          | inr d ↦ elim (Bool-cases (ltb (length target) size)) [
            | inl e ↦ rw (c, d, e, compute_delta) all_literal
            | inr e ↦ rw (c, d, e, compute_delta) scanned
          ]
        ]
      ]

-- The block size that `signature_of` uses.
abbrev pub effective : ℕ → ℕ
effective size = if size == 0 then default_block_size else size

effective_pos : (size : ℕ) → 0 < effective size
effective_pos size = ground arith

-- The instructions lie inside the base, and stand for the target.
pub compute_delta-Rebuilds :
    (strong : Bytes → Bytes) (arrange : List ℕ → List ℕ) (size : ℕ) (base target : Bytes)
    → length base < 2 ^ 32
    → NoCollision strong (effective size) base target
    → Rebuilds base target (compute_delta strong arrange (signature_of strong base size) target).ops
unfolding signature_of
compute_delta-Rebuilds strong arrange size base target h u =
    rebuilt strong arrange (effective size) base target h u (effective_pos size)

-- Where the base has fewer than 2^32 bytes, and no window of the target shares its strong hash with
-- a block of the base without sharing its bytes: the delta computed from the signature of the base,
-- in whatever order the candidates of a checksum are tried, rebuilds the target from the base.
pub apply_delta-compute_delta :
    (strong : Bytes → Bytes) (arrange : List ℕ → List ℕ) (size : ℕ) (base target : Bytes)
    → length base < 2 ^ 32
    → NoCollision strong (effective size) base target
    → apply_delta base (compute_delta strong arrange (signature_of strong base size) target)
      ≡ target
unfolding apply_delta
apply_delta-compute_delta strong arrange size base target h u =
    let d = compute_delta strong arrange (signature_of strong base size) target in
    let r = compute_delta-Rebuilds strong arrange size base target h u in
    apply_loop-text_of base [] d.ops (omega arith) r.0 ∙ r.1
