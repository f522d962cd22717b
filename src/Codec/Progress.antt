-- ===== src/Codec/Progress.antt =====
-- core/serialize.h: how far a read that succeeds moves the cursor.
use rasync.Prelude.{ℕ, ◌+◌, ◌≤◌, ◌≡◌, refl, arith, true, length-drop}
use rasync.Codec.Reader
use rasync.Codec.Reader.{Reader, remaining}

-- The reader `r'` has not failed, nor had `r`, and at least `n` bytes lie between them.
pub record Moved (n : ℕ) (r r' : Reader) : Type 0 where
  pub was_ok : r.ok ≡ true
  pub passed : remaining r' + n ≤ remaining r

module _ (n : ℕ) (r : Reader) where
  pub take_moved : (Reader.take n r).0 ≡ true → (r.ok ≡ true) × (n ≤ remaining r)
  unfolding Reader.take
  take_moved h = ground arith

  pub uint-Moved : (w : ℕ) → (Reader.uint n w r).1.ok ≡ true → Moved n r (Reader.uint n w r).1
  unfolding Reader.uint
  uint-Moved w h = ground (arith, length-drop n r.rest)

  pub bytes-Moved : (Reader.bytes n r).1.ok ≡ true → Moved n r (Reader.bytes n r).1
  unfolding Reader.bytes
  bytes-Moved h = ground (arith, length-drop n r.rest)

  pub read_str-Moved : (Reader.read_str n r).1.ok ≡ true → Moved n r (Reader.read_str n r).1
  unfolding Reader.read_str
  read_str-Moved h = ground (arith, length-drop n r.rest)

pub Moved-trans : {a b : ℕ} {r s t : Reader} → Moved a r s → Moved b s t → Moved (a + b) r t
Moved-trans p q = record { was_ok = p.was_ok; passed = omega (arith, p.passed, q.passed) }

pub Moved-le : (a : ℕ) {b : ℕ} {r s : Reader} → a ≤ b → Moved b r s → Moved a r s
Moved-le a h p = record { was_ok = p.was_ok; passed = omega (arith, p.passed) }

u16-Moved : (r : Reader) → (Reader.u16 r).1.ok ≡ true → Moved 2 r (Reader.u16 r).1
unfolding Reader.u16
u16-Moved r h = uint-Moved 2 r 16 h

str16-parts : (r : Reader) → Reader.str16 r ≡ Reader.read_str (Reader.u16 r).0 (Reader.u16 r).1
unfolding Reader.str16
str16-parts r = refl

pub str16-Moved : (r : Reader) → (Reader.str16 r).1.ok ≡ true → Moved 2 r (Reader.str16 r).1
str16-Moved r h =
    let q : Moved (Reader.u16 r).0 (Reader.u16 r).1 (Reader.str16 r).1 =
      rw (str16-parts r)
        (read_str-Moved (Reader.u16 r).0 (Reader.u16 r).1 (rw (str16-parts r) at h)) in
    Moved-le 2 (omega arith) (Moved-trans (u16-Moved r q.was_ok) q)

pub u32-Moved : (r : Reader) → (Reader.u32 r).1.ok ≡ true → Moved 4 r (Reader.u32 r).1
unfolding Reader.u32
u32-Moved r h = uint-Moved 4 r 32 h

pub u64-Moved : (r : Reader) → (Reader.u64 r).1.ok ≡ true → Moved 8 r (Reader.u64 r).1
unfolding Reader.u64
u64-Moved r h = uint-Moved 8 r 64 h

pub i64-Moved : (r : Reader) → (Reader.i64 r).1.ok ≡ true → Moved 8 r (Reader.i64 r).1
unfolding Reader.i64
i64-Moved r h = u64-Moved r h
