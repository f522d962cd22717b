-- ===== src/Delta.antt =====
-- core/delta.h, core/delta.cpp: block signatures, the rolling scan, and applying a delta.
pub mod Checksum
pub mod Blocks
pub mod Apply
pub mod Scan
pub mod Rolling
pub mod Encoding
mod Tests
use rasync.Prelude.{
  ℕ, zero, suc, ◌+◌, ◌-◌, ◌*◌, ◌%◌, ◌^◌, min, Bool, true, false, ◌&&◌, List, [], ◌∷◌, ◌++◌,
}
use rasync.Prelude.{
  Option, none, some, length, get_elem?, take, drop, leb, ltb, ◌==◌, if◌then◌else◌,
}
use rasync.Prelude.Equality.{bytes_eq}
use rasync.Codec.Writer.{Bytes}

-- `data[from .. to)`
abbrev pub slice : ℕ → ℕ → Bytes → Bytes
slice from to xs = take (to - from) (drop from xs)

-- The loop of `weak_checksum` and of `init_window`, with `n` for `len - i`. One reduction covers
-- the product and the sum, both in 32 bits.
unfoldable pub sum_loop : ℕ → ℕ → ℕ → Bytes → ℕ × ℕ
sum_loop n a b [] = (a, b)
sum_loop n a b (x ∷ xs) = sum_loop (n - 1) ((a + x) % 2 ^ 32) ((b + n % 2 ^ 32 * x) % 2 ^ 32) xs

-- `((b & 0xffff) << 16) | (a & 0xffff)`
abbrev pub pack : ℕ × ℕ → ℕ
pack (a, b) = b % 2 ^ 16 * 2 ^ 16 + a % 2 ^ 16

unfoldable pub weak_checksum : Bytes → ℕ
unfolding sum_loop
weak_checksum xs = pack (sum_loop (length xs) 0 0 xs)

pub record BlockSig : Type 0 where
  pub weak : ℕ
  pub strong : Bytes

pub record Signature : Type 0 where
  pub block_size : ℕ
  pub file_size : ℕ
  pub blocks : List BlockSig

abbrev pub default_block_size : ℕ
default_block_size = 2048

pub record DeltaOp : Type 0 where
  pub copy : Bool
  pub offset : ℕ
  pub len : ℕ
  pub literal : Bytes

pub record Delta : Type 0 where
  pub out_size : ℕ
  pub ops : List DeltaOp

abbrev pub copy_op : ℕ → ℕ → DeltaOp
copy_op offset len = record { copy = true; offset = offset; len = len; literal = [] }

abbrev pub literal_op : Bytes → DeltaOp
literal_op bytes = record { copy = false; offset = 0; len = 0; literal = bytes }

-- `emit_copy`: a contiguous preceding COPY grows, in its 32-bit length.
unfoldable pub emit_copy : ℕ → ℕ → List DeltaOp → List DeltaOp
emit_copy offset len [] = copy_op offset len ∷ []
emit_copy offset len (op ∷ []) =
    if op.copy && op.offset + op.len == offset
    then record op { len = (op.len + len) % 2 ^ 32 } ∷ []
    else op ∷ copy_op offset len ∷ []
emit_copy offset len (op ∷ next ∷ ops) = op ∷ emit_copy offset len (next ∷ ops)

unfoldable pub emit_literal : Bytes → ℕ → ℕ → List DeltaOp → List DeltaOp
emit_literal target from to ops =
    if ltb from to then ops ++ literal_op (slice from to target) ∷ [] else ops

-- The range that `by_weak` holds for a checksum: the numbers of its blocks.
unfoldable pub by_weak : ℕ → ℕ → List BlockSig → List ℕ
by_weak weak i [] = []
by_weak weak i (blk ∷ blks) =
    let rest = by_weak weak (suc i) blks in if blk.weak == weak then i ∷ rest else rest

-- A block of the base that is whole and has this strong hash.
unfoldable pub confirms : Signature → Bytes → ℕ → Bool
confirms sig s i = elim (get_elem? sig.blocks i) [
  | none ↦ false
  | some blk ↦ bytes_eq blk.strong s && leb (i * sig.block_size + sig.block_size) sig.file_size
]

unfoldable pub first_confirmed : Signature → Bytes → List ℕ → Option ℕ
unfolding confirms
first_confirmed sig s [] = none
first_confirmed sig s (i ∷ is) =
    let rest = first_confirmed sig s is in if confirms sig s i then some i else rest

-- The scan's variables.
pub record ScanState : Type 0 where
  pub pos : ℕ
  pub literal_start : ℕ
  pub a : ℕ
  pub b : ℕ
  pub ops : List DeltaOp

-- `strong` is the first 16 bytes of a SHA-256, which librats computes.
module _ (strong : Bytes → Bytes) where
  unfoldable pub blocks_loop : ℕ → ℕ → Bytes → List BlockSig
  unfolding weak_checksum
  blocks_loop zero size [] = []
  blocks_loop zero size (x ∷ xs) = []
  blocks_loop (suc fuel) size [] = []
  blocks_loop (suc fuel) size (x ∷ xs) =
      let blk = take size (x ∷ xs) in
      record { weak = weak_checksum blk; strong = strong blk }
      ∷ blocks_loop fuel size (drop size (x ∷ xs))

  -- A round takes a byte at least, so a round for each byte is enough.
  unfoldable pub signature_of : Bytes → ℕ → Signature
  unfolding blocks_loop
  signature_of xs block_size =
      let size = if block_size == 0 then default_block_size else block_size in
      record { block_size = size; file_size = length xs; blocks = blocks_loop (length xs) size xs }

-- The checksum variables of the window at `at`.
unfoldable pub init_window : ℕ → Bytes → ℕ → ℕ × ℕ
unfolding sum_loop
init_window size target at = sum_loop size 0 0 (slice at (at + size) target)

-- The byte at a position inside the target.
unfoldable pub byte_at : Bytes → ℕ → ℕ
byte_at xs i = elim (get_elem? xs i) [ none ↦ 0 | some x ↦ x ]

-- The window moves by one: both updates are in 32 bits, and are cut to 16.
unfoldable pub roll_a : ℕ → ℕ → ℕ → ℕ
roll_a a out new = (a + (2 ^ 32 - out) + new) % 2 ^ 32 % 2 ^ 16

unfoldable pub roll_b : ℕ → ℕ → ℕ → ℕ → ℕ
roll_b size b out a = (b + (2 ^ 32 - size % 2 ^ 32 * out % 2 ^ 32) + a) % 2 ^ 32 % 2 ^ 16

unfoldable pub take_block : Signature → Bytes → ScanState → ℕ → ScanState
unfolding emit_copy emit_literal init_window
take_block sig target st i =
    let size = sig.block_size in
    let next = st.pos + size in
    let ops = emit_copy (i * size) size (emit_literal target st.literal_start st.pos st.ops) in
    let (a, b) =
      if leb (next + size) (length target) then init_window size target next else (st.a, st.b) in
    record { pos = next; literal_start = next; a = a; b = b; ops = ops }

unfoldable pub step_over : Signature → Bytes → ScanState → ScanState
unfolding roll_a roll_b byte_at
step_over sig target st =
    let size = sig.block_size in
    let out = byte_at target st.pos in
    let a = roll_a st.a out (byte_at target (st.pos + size)) in
    if ltb (st.pos + size) (length target)
    then record st { pos = suc st.pos; a = a; b = roll_b size st.b out a }
    else record st { pos = suc st.pos }

abbrev pub scan_start : Signature → Bytes → ScanState
scan_start sig target =
    let (a, b) = init_window sig.block_size target 0 in
    record { pos = 0; literal_start = 0; a = a; b = b; ops = [] }

abbrev pub no_blocks : List BlockSig → Bool
no_blocks [] = true
no_blocks (_ ∷ _) = false

-- `arrange` is the order in which `std::unordered_multimap` walks the blocks of one checksum.
module _ (strong : Bytes → Bytes) (arrange : List ℕ → List ℕ) where
  unfoldable pub matched_at : Signature → Bytes → ScanState → Option ℕ
  unfolding first_confirmed by_weak
  matched_at sig target st =
      first_confirmed sig (strong (slice st.pos (st.pos + sig.block_size) target))
        (arrange (by_weak (pack (st.a, st.b)) 0 sig.blocks))

  -- One round of the scan.
  unfoldable pub scan_round : Signature → Bytes → ScanState → ScanState
  unfolding matched_at take_block step_over
  scan_round sig target st = elim (matched_at sig target st) [
    | some i ↦ take_block sig target st i
    | none ↦ step_over sig target st
  ]

  unfoldable pub scan : ℕ → Signature → Bytes → ScanState → ScanState
  scan zero sig target st = st
  scan (suc fuel) sig target st = elim (leb (st.pos + sig.block_size) (length target)) [
    | true ↦ scan fuel sig target (scan_round sig target st)
    | false ↦ st
  ]

  -- A round moves on by a byte at least, so a round for each byte is enough.
  unfoldable pub compute_delta : Signature → Bytes → Delta
  unfolding scan emit_literal init_window
  compute_delta sig target =
      let size = length target in
      let last = scan size sig target (scan_start sig target) in
      if sig.block_size == 0
      then record { out_size = size; ops = emit_literal target 0 size [] }
      else if no_blocks sig.blocks
      then record { out_size = size; ops = emit_literal target 0 size [] }
      else if ltb size sig.block_size
      then record { out_size = size; ops = emit_literal target 0 size [] }
      else record { out_size = size; ops = emit_literal target last.literal_start size last.ops }

-- The loop of `apply_delta`; `op.offset + op.len` is a `uint64_t`.
unfoldable pub apply_loop : Bytes → Bytes → List DeltaOp → Bytes
apply_loop base out [] = out
apply_loop base out (op ∷ ops) =
    let end = (op.offset + op.len) % 2 ^ 64 in
    elim op.copy [
      | true ↦ elim (ltb (length base) end) [
        | true ↦ []
        | false ↦ apply_loop base (out ++ slice op.offset (op.offset + op.len) base) ops
      ]
      | false ↦ apply_loop base (out ++ op.literal) ops
    ]

unfoldable pub apply_delta : Bytes → Delta → Bytes
unfolding apply_loop
apply_delta base d = apply_loop base [] d.ops

-- `Delta::literal_bytes` and `Delta::copied_bytes`, in a `uint64_t`.
unfoldable pub literal_bytes : List DeltaOp → ℕ
literal_bytes [] = 0
literal_bytes (op ∷ ops) =
    let t = literal_bytes ops in if op.copy then t else (length op.literal + t) % 2 ^ 64

unfoldable pub copied_bytes : List DeltaOp → ℕ
copied_bytes [] = 0
copied_bytes (op ∷ ops) = let t = copied_bytes ops in if op.copy then (op.len + t) % 2 ^ 64 else t
