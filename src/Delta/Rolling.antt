-- ===== src/Delta/Rolling.antt =====
-- core/delta.cpp: through the whole scan the checksum variables are those of the window, and the
-- scan goes to the end of the target.
use rasync.Prelude.{ℕ, zero, suc, ◌+◌, ◌-◌, ◌≤◌, ◌<◌, ◌≡◌, refl, arith, ap, sym, ◌∙◌}
use rasync.Prelude.{true, false, List, [], ◌∷◌, ◌++◌, length, take, drop, leb, ltb}
use rasync.Prelude.{inl, inr, Bool-cases, Option-cases, leb→le}
use rasync.Prelude.{length-take, length-drop, subst, ltb→lt}
use rasync.Codec.Writer.{Bytes}
use rasync.Delta.{
  slice, Signature, ScanState, matched_at, take_block, step_over, scan_round, scan, scan_start,
  init_window, pack, weak_checksum, byte_at, roll_a, roll_b,
}
use rasync.Delta.Apply.{slice-take}
use rasync.Delta.Checksum.{roll-weak_checksum}
use native.Mathlib.Nat.{zero-add, suc-add}

drop-byte_at : (i : ℕ) (xs : Bytes) → i < length xs → drop i xs ≡ byte_at xs i ∷ drop (suc i) xs
unfolding byte_at
drop-byte_at i [] h = elim h [ ]
drop-byte_at zero (x ∷ xs) h = refl
drop-byte_at (suc i) (x ∷ xs) h = drop-byte_at i xs (omega arith)

take_snoc : (n : ℕ) (xs : Bytes) → n < length xs → take (suc n) xs ≡ take n xs ++ byte_at xs n ∷ []
unfolding byte_at
take_snoc n [] h = elim h [ ]
take_snoc zero (x ∷ xs) h = refl
take_snoc (suc n) (x ∷ xs) h = rw (take_snoc n xs (omega arith))

byte_at-drop : (i n : ℕ) (xs : Bytes) → byte_at (drop i xs) n ≡ byte_at xs (i + n)
unfolding byte_at
byte_at-drop zero n xs = rw (zero-add n)
byte_at-drop (suc i) n [] = refl
byte_at-drop (suc i) n (x ∷ xs) = rw (suc-add i n) (byte_at-drop i n xs)

-- The checksum variables are those of the window, where there is one.
abbrev pub Windowed : ℕ → Bytes → ScanState → Type 0
Windowed size target st =
    st.pos + size ≤ length target
    → pack (st.a, st.b) ≡ weak_checksum (slice st.pos (st.pos + size) target)

length-slice :
    (at size : ℕ) (xs : Bytes) → at + size ≤ length xs → length (slice at (at + size) xs) ≡ size
length-slice at size xs h =
    rw (slice-take at size xs) (omega (arith, length-take size (drop at xs), length-drop at xs))

pub init_window-weak_checksum :
    (size : ℕ) (target : Bytes) (at : ℕ)
    → at + size ≤ length target
    → pack (init_window size target at) ≡ weak_checksum (slice at (at + size) target)
unfolding init_window weak_checksum
init_window-weak_checksum size target at h = rw (length-slice at size target h)

-- A window of `suc n` bytes, and the next one.
window_here :
    (at n : ℕ) (xs : Bytes)
    → at < length xs
    → slice at (at + suc n) xs ≡ byte_at xs at ∷ take n (drop (suc at) xs)
window_here at n xs h = rw (slice-take at (suc n) xs, drop-byte_at at xs h)

window_next :
    (at n : ℕ) (xs : Bytes)
    → at + suc n < length xs
    → slice (suc at) (suc at + suc n) xs ≡ take n (drop (suc at) xs) ++ byte_at xs (at + suc n) ∷ []
window_next at n xs h =
    slice-take (suc at) (suc n) xs
    ∙ take_snoc n (drop (suc at) xs) (omega (arith, length-drop (suc at) xs))
    ∙ rw (byte_at-drop (suc at) n xs)
        (ap (λ i. take n (drop (suc at) xs) ++ byte_at xs i ∷ []) (omega arith))

length-window :
    (at n : ℕ) (xs : Bytes) → at + suc n < length xs → length (take n (drop (suc at) xs)) ≡ n
length-window at n xs h = omega (arith, length-take n (drop (suc at) xs), length-drop (suc at) xs)

-- Each byte is below 2^8.
abbrev pub AllBytes : Bytes → Type 0
AllBytes xs = (i : ℕ) → byte_at xs i < 256

rolled :
    (a b at n : ℕ) (target : Bytes)
    → AllBytes target
    → at + suc n < length target
    → pack (a, b) ≡ weak_checksum (slice at (at + suc n) target)
    → let x = byte_at target at in
      let a' = roll_a a x (byte_at target (at + suc n)) in
      pack (a', roll_b (suc n) b x a') ≡ weak_checksum (slice (suc at) (suc at + suc n) target)
rolled a b at n target bytes h e =
    let x = byte_at target at in
    let w = take n (drop (suc at) target) in
    let f =
      roll-weak_checksum a b x (byte_at target (at + suc n)) w (bytes at)
        (e ∙ ap weak_checksum (window_here at n target (omega arith))) in
    rw (window_next at n target h) (rw (length-window at n target h) at f)

past_end : (at n size : ℕ) → ltb (at + suc n) size ≡ false → suc at + suc n ≤ size → ⊥
past_end at n size c k = ground arith

no_window : (e size : ℕ) → leb e size ≡ false → size < e
no_window e size c = ground arith

beyond : {e size : ℕ} → size < e → e ≤ size → ⊥
beyond h k = omega arith

module _ (strong : Bytes → Bytes) (arrange : List ℕ → List ℕ) (sig : Signature) (n : ℕ)
    (target : Bytes) (sized : sig.block_size ≡ suc n) where
  step_over_pos : (st : ScanState) → (step_over sig target st).pos ≡ suc st.pos
  unfolding step_over
  step_over_pos st = ground arith

  take_block_pos : (st : ScanState) (i : ℕ) → (take_block sig target st i).pos ≡ st.pos + suc n
  unfolding take_block
  take_block_pos st i = rw sized

  scan_round_pos : (st : ScanState) → st.pos < (scan_round strong arrange sig target st).pos
  unfolding scan_round
  scan_round_pos st = elim (Option-cases (matched_at strong arrange sig target st)) [
    | inl e ↦ rw (e, scan_round) (omega (arith, step_over_pos st))
    | inr (i, e) ↦ rw (e, scan_round) (omega (arith, take_block_pos st i))
  ]

  scan_step :
      (fuel : ℕ) (st : ScanState)
      → leb (st.pos + suc n) (length target) ≡ true
      → scan strong arrange (suc fuel) sig target st
        ≡ scan strong arrange fuel sig target (scan_round strong arrange sig target st)
  unfolding scan
  scan_step fuel st c =
      let c' = subst (λ m. leb (st.pos + m) (length target) ≡ true) (sym sized) c in rw (c', scan)

  scan_stop :
      (fuel : ℕ) (st : ScanState)
      → leb (st.pos + suc n) (length target) ≡ false
      → scan strong arrange (suc fuel) sig target st ≡ st
  unfolding scan
  scan_stop fuel st c =
      let c' = subst (λ m. leb (st.pos + m) (length target) ≡ false) (sym sized) c in rw (c', scan)

  scan_past_from :
      (fuel : ℕ) (st : ScanState)
      → length target ≤ st.pos + fuel
      → length target < (scan strong arrange fuel sig target st).pos + suc n
  scan_past_from zero st h = unfold scan in omega arith
  scan_past_from (suc fuel) st h = elim (Bool-cases (leb (st.pos + suc n) (length target))) [
    | inl c ↦
        let next = scan_round strong arrange sig target st in
        rw (scan_step fuel st c) (scan_past_from fuel next (omega (arith, scan_round_pos st)))
    | inr c ↦ rw (scan_stop fuel st c) (no_window (st.pos + suc n) (length target) c)
  ]

module _ (strong : Bytes → Bytes) (arrange : List ℕ → List ℕ) (sig : Signature) (n : ℕ)
    (target : Bytes) (sized : sig.block_size ≡ suc n) (bytes : AllBytes target) where
  step_over-Windowed :
      (st : ScanState)
      → st.pos + suc n ≤ length target
      → Windowed (suc n) target st
      → Windowed (suc n) target (step_over sig target st)
  unfolding step_over
  step_over-Windowed st h w = elim (Bool-cases (ltb (st.pos + suc n) (length target))) [
    | inl c ↦
        rw (step_over, sized, c)
          (λ _.
            rolled st.a st.b st.pos n target bytes (ltb→lt (st.pos + suc n) (length target) c)
              (w h))
    | inr c ↦ rw (step_over, sized, c) (λ k. absurd (past_end st.pos n (length target) c k))
  ]

  take_block-Windowed :
      (st : ScanState) (i : ℕ) → Windowed (suc n) target (take_block sig target st i)
  unfolding take_block
  take_block-Windowed st i = elim (Bool-cases (leb (st.pos + suc n + suc n) (length target))) [
    | inl c ↦
        rw (take_block, sized, c) (λ k. init_window-weak_checksum (suc n) target (st.pos + suc n) k)
    | inr c ↦
        rw (take_block, sized, c)
          (λ k. absurd (beyond (no_window (st.pos + suc n + suc n) (length target) c) k))
  ]

  scan_round-Windowed :
      (st : ScanState)
      → st.pos + suc n ≤ length target
      → Windowed (suc n) target st
      → Windowed (suc n) target (scan_round strong arrange sig target st)
  unfolding scan_round
  scan_round-Windowed st h w = elim (Option-cases (matched_at strong arrange sig target st)) [
    | inl e ↦ rw (e, scan_round) (step_over-Windowed st h w)
    | inr (i, e) ↦ rw (e, scan_round) (take_block-Windowed st i)
  ]

  scan-Windowed_from :
      (fuel : ℕ) (st : ScanState)
      → Windowed (suc n) target st
      → Windowed (suc n) target (scan strong arrange fuel sig target st)
  scan-Windowed_from zero st w = unfold scan in w
  scan-Windowed_from (suc fuel) st w = elim (Bool-cases (leb (st.pos + suc n) (length target))) [
    | inl c ↦
        let h = leb→le (st.pos + suc n) (length target) c in
        rw (scan_step strong arrange sig n target sized fuel st c) (
          scan-Windowed_from fuel (scan_round strong arrange sig target st)
            (scan_round-Windowed st h w))
    | inr c ↦ rw (scan_stop strong arrange sig n target sized fuel st c) w
  ]

start-Windowed :
    (sig : Signature) (target : Bytes) → Windowed sig.block_size target (scan_start sig target)
start-Windowed sig target h = init_window-weak_checksum sig.block_size target 0 h

suc_pred : (n : ℕ) → 0 < n → n ≡ suc (n - 1)
suc_pred n h = omega arith

-- For a target of bytes and a block size that is not zero: after any number of rounds, where a whole
-- window is left, the rolled variables pack to the checksum of that window.
pub scan-Windowed :
    (strong : Bytes → Bytes) (arrange : List ℕ → List ℕ) (sig : Signature) (target : Bytes)
    (rounds : ℕ) (st : ScanState)
    → 0 < sig.block_size
    → AllBytes target
    → scan strong arrange rounds sig target (scan_start sig target) ≡ st
    → st.pos + sig.block_size ≤ length target
    → pack (st.a, st.b) ≡ weak_checksum (slice st.pos (st.pos + sig.block_size) target)
scan-Windowed strong arrange sig target rounds st p bytes r =
    let e = suc_pred sig.block_size p in
    let from = scan_start sig target in
    subst (Windowed sig.block_size target) r (
      subst (λ n. Windowed n target (scan strong arrange rounds sig target from)) (sym e)
        (scan-Windowed_from strong arrange sig (sig.block_size - 1) target e bytes rounds from
          (subst (λ n. Windowed n target from) e (start-Windowed sig target))))

-- For a block size that is not zero, as many rounds as the target has bytes leave no whole window.
pub scan_past :
    (strong : Bytes → Bytes) (arrange : List ℕ → List ℕ) (sig : Signature) (target : Bytes)
    → 0 < sig.block_size
    → length target
      < (scan strong arrange (length target) sig target (scan_start sig target)).pos
        + sig.block_size
scan_past strong arrange sig target p =
    let e = suc_pred sig.block_size p in
    let from = scan_start sig target in
    let n = sig.block_size - 1 in
    subst (λ m. length target < (scan strong arrange (length target) sig target from).pos + m)
      (sym e) (scan_past_from strong arrange sig n target e (length target) from (omega arith))
