-- ===== src/Delta/Encoding.antt =====
-- core/delta.cpp: `Signature` on the wire.
use rasync.Prelude.{
  ℕ, zero, suc, ◌+◌, ◌*◌, ◌%◌, ◌^◌, ◌≤◌, ◌<◌, ◌≡◌, refl, sym, ◌∙◌, subst, arith, ◌||◌, not, true,
}
use rasync.Prelude.{false, List, [], ◌∷◌, ◌++◌, Option, none, some, length, ltb, if◌then◌else◌}
use rasync.Prelude.{length-append, Bool-cases, inl, inr}
use rasync.Codec.Writer
use rasync.Codec.Writer.{Bytes, be_bytes}
use rasync.Codec.Reader
use rasync.Codec.Reader.{Reader, remaining}
use rasync.Codec.RoundTrip.{Reads, u32-Reads, u64-Reads, bytes-Reads, mod-small, length-be_bytes}
use rasync.Codec.Progress.{Moved, Moved-trans, Moved-le, u32-Moved, u64-Moved, bytes-Moved}
use rasync.Delta.{BlockSig, Signature}
use mathlib.Core.List.{append-nil, append_assoc}

unfoldable pub write_blocks : Bytes → List BlockSig → Bytes
write_blocks w [] = w
write_blocks w (b ∷ bs) = write_blocks (Writer.bytes (Writer.u32 w b.weak) b.strong) bs

unfoldable pub encode : Bytes → Signature → Bytes
unfolding write_blocks
encode w s =
    write_blocks
      (Writer.u32 (Writer.u64 (Writer.u32 w s.block_size) s.file_size) (length s.blocks % 2 ^ 32))
      s.blocks

unfoldable pub read_blocks : ℕ → Reader → List BlockSig × Reader
read_blocks zero r = ([], r)
read_blocks (suc n) r =
    let (weak, r₁) = Reader.u32 r in
    let (strong, r₂) = Reader.bytes 16 r₁ in
    let (blks, r₃) = read_blocks n r₂ in (record { weak = weak; strong = strong } ∷ blks, r₃)

-- `r.ok() ? s : nullopt`
abbrev pub if_ok : ℕ → ℕ → List BlockSig × Reader → Option Signature × Reader
if_ok size total (blks, r) =
    if r.ok
    then (some (record { block_size = size; file_size = total; blocks = blks }), r)
    else (none, r)

unfoldable pub decode : Reader → Option Signature × Reader
unfolding read_blocks
decode r =
    let (size, r₁) = Reader.u32 r in
    let (total, r₂) = Reader.u64 r₁ in
    let (n, r₃) = Reader.u32 r₂ in
    if not r₃.ok || ltb (remaining r₃) (n * 20)
    then (none, r₃)
    else if_ok size total (read_blocks n r₃)

-- What each field can hold.
abbrev pub BlocksFit : List BlockSig → Type 0
BlocksFit [] = Unit {0}
BlocksFit (b ∷ bs) = (b.weak < 2 ^ 32) × (length b.strong ≡ 16) × BlocksFit bs

pub record SignatureFits (s : Signature) : Type 0 where
  pub size_fits : s.block_size < 2 ^ 32
  pub total_fits : s.file_size < 2 ^ 64
  pub count_fits : length s.blocks < 2 ^ 32
  pub blocks_fit : BlocksFit s.blocks

abbrev blocks_bytes : List BlockSig → Bytes
blocks_bytes [] = []
blocks_bytes (b ∷ bs) = be_bytes 4 b.weak ++ (b.strong ++ blocks_bytes bs)

write_blocks-bytes : (w : Bytes) (bs : List BlockSig) → write_blocks w bs ≡ w ++ blocks_bytes bs
unfolding write_blocks Writer.u32 Writer.bytes Writer.raw
write_blocks-bytes w [] = sym (append-nil w)
write_blocks-bytes w (b ∷ bs) =
    write_blocks-bytes ((w ++ be_bytes 4 b.weak) ++ b.strong) bs ∙ simp append_assoc

strong-Reads : (b : BlockSig) → length b.strong ≡ 16 → Reads (Reader.bytes 16) b.strong b.strong
strong-Reads b h = subst (λ n. Reads (Reader.bytes n) b.strong b.strong) h (bytes-Reads b.strong)

read_blocks-bytes :
    (bs : List BlockSig) → BlocksFit bs → Reads (read_blocks (length bs)) (blocks_bytes bs) bs
unfolding read_blocks
read_blocks-bytes [] f rest = refl
read_blocks-bytes (b ∷ bs) (w, s, f) rest = rw (
  read_blocks,
  append_assoc (be_bytes 4 b.weak) (b.strong ++ blocks_bytes bs) rest,
  u32-Reads b.weak w ((b.strong ++ blocks_bytes bs) ++ rest),
  append_assoc b.strong (blocks_bytes bs) rest,
  strong-Reads b s (blocks_bytes bs ++ rest),
  read_blocks-bytes bs f rest,
)

length-blocks_bytes :
    (bs : List BlockSig) → BlocksFit bs → length (blocks_bytes bs) ≡ length bs * 20
length-blocks_bytes [] f = refl
length-blocks_bytes (b ∷ bs) (w, s, f) = omega (
  arith,
  s,
  length-append (be_bytes 4 b.weak) (b.strong ++ blocks_bytes bs),
  length-append b.strong (blocks_bytes bs),
  length-be_bytes 4 b.weak,
  length-blocks_bytes bs f,
)

enough :
    (bs : List BlockSig) (rest : Bytes)
    → BlocksFit bs
    → ltb (length (blocks_bytes bs ++ rest)) (length bs * 20) ≡ false
enough bs rest f = ground (arith, length-append (blocks_bytes bs) rest, length-blocks_bytes bs f)

abbrev signature_bytes : Signature → Bytes
signature_bytes s =
    be_bytes 4 s.block_size
    ++ (be_bytes 8 s.file_size ++ (be_bytes 4 (length s.blocks) ++ blocks_bytes s.blocks))

encode-bytes : (s : Signature) → length s.blocks < 2 ^ 32 → encode [] s ≡ signature_bytes s
unfolding encode Writer.u32 Writer.u64
encode-bytes s h = rw (mod-small (length s.blocks) (2 ^ 32) h) (
    write_blocks-bytes
      (((be_bytes 4 s.block_size) ++ be_bytes 8 s.file_size) ++ be_bytes 4 (length s.blocks))
      s.blocks
    ∙ simp append_assoc)

decode-bytes : (s : Signature) → SignatureFits s → Reads decode (signature_bytes s) (some s)
unfolding decode
decode-bytes s h rest =
    let b₂ = be_bytes 4 (length s.blocks) ++ blocks_bytes s.blocks in
    let b₁ = be_bytes 8 s.file_size ++ b₂ in
    rw (
      append_assoc (be_bytes 4 s.block_size) b₁ rest,
      u32-Reads s.block_size h.size_fits (b₁ ++ rest),
      append_assoc (be_bytes 8 s.file_size) b₂ rest,
      u64-Reads s.file_size h.total_fits (b₂ ++ rest),
      append_assoc (be_bytes 4 (length s.blocks)) (blocks_bytes s.blocks) rest,
      u32-Reads (length s.blocks) h.count_fits (blocks_bytes s.blocks ++ rest),
      enough s.blocks rest h.blocks_fit,
      read_blocks-bytes s.blocks h.blocks_fit rest,
    )

-- A signature whose numbers fit their fields, of fewer than 2^32 blocks with strong hashes of 16
-- bytes, is read back from its encoding, and what follows is left.
pub decode-encode_signature :
    (s : Signature) → SignatureFits s → Reads decode (encode [] s) (some s)
decode-encode_signature s h = rw (encode-bytes s h.count_fits) (decode-bytes s h)

length-read_blocks : (n : ℕ) (r : Reader) → length (read_blocks n r).0 ≡ n
unfolding read_blocks
length-read_blocks zero r = refl
length-read_blocks (suc n) r =
    omega (arith, length-read_blocks n (Reader.bytes 16 (Reader.u32 r).1).1)

read_blocks-Moved :
    (n : ℕ) (r : Reader) → (read_blocks n r).1.ok ≡ true → Moved (n * 20) r (read_blocks n r).1
unfolding read_blocks
read_blocks-Moved zero r h = record { was_ok = h; passed = omega arith }
read_blocks-Moved (suc n) r h =
    let r₁ = (Reader.u32 r).1 in
    let r₂ = (Reader.bytes 16 r₁).1 in
    let m₃ = read_blocks-Moved n r₂ h in
    let m₂ : Moved 16 r₁ r₂ = bytes-Moved 16 r₁ m₃.was_ok in
    let m₁ : Moved 4 r r₁ = u32-Moved r m₂.was_ok in
    Moved-le (suc n * 20) (omega arith) (Moved-trans (Moved-trans m₁ m₂) m₃)

-- A decoded value with the reader after it.
abbrev Holds : (Signature → Reader → Type 0) → Option Signature × Reader → Type 0
Holds P (none, r) = Unit {0}
Holds P (some s, r) = P s r

abbrev Paid : Reader → Signature → Reader → Type 0
Paid r s r' = (r'.ok ≡ true) × (remaining r' + (16 + length s.blocks * 20) ≤ remaining r)

decode-Paid : (r : Reader) → Holds (Paid r) (decode r)
unfolding decode
decode-Paid r =
    let r₁ = (Reader.u32 r).1 in
    let r₂ = (Reader.u64 r₁).1 in
    let n = (Reader.u32 r₂).0 in
    let r₃ = (Reader.u32 r₂).1 in
    let r₄ = (read_blocks n r₃).1 in
    elim (Bool-cases (not r₃.ok || ltb (remaining r₃) (n * 20))) [
      | inl e ↦ rw e tt
      | inr e ↦ elim (Bool-cases r₄.ok) [
        | inr f ↦ rw (e, f) tt
        | inl f ↦
            let m₄ = read_blocks-Moved n r₃ f in
            let m₃ : Moved 4 r₂ r₃ = u32-Moved r₂ m₄.was_ok in
            let m₂ : Moved 8 r₁ r₂ = u64-Moved r₁ m₃.was_ok in
            let m₁ : Moved 4 r r₁ = u32-Moved r m₂.was_ok in
            let m = Moved-trans (Moved-trans (Moved-trans m₁ m₂) m₃) m₄ in
            rw (e, f) (f, omega (arith, m.passed, length-read_blocks n r₃))
      ]
    ]

-- Whatever the bytes, an accepted signature was read with no failure, and its 16 bytes of header and
-- 20 bytes for each block were there to be read.
pub decode_bounded :
    (r r' : Reader) (s : Signature)
    → decode r ≡ (some s, r')
    → (r'.ok ≡ true) × (remaining r' + (16 + length s.blocks * 20) ≤ remaining r)
decode_bounded r r' s e = subst (Holds (Paid r)) e (decode-Paid r)
