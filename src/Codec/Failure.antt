-- ===== src/Codec/Failure.antt =====
-- The reader of core/serialize.h on input that is too short.
use rasync.Prelude.{ℕ, ◌<◌, ◌≡◌, refl, arith, List, [], ◌∷◌, ◌++◌, false, map, inl, inr}
use rasync.Prelude.{length, length-append, ◌⊎◌}
use rasync.Codec.Reader
use rasync.Codec.Reader.{Reader, start, be_value, advance}
use rasync.Codec.Writer.{Bytes, be_bytes}
use rasync.Codec.Value.{Value, Kind, kind, Fits, AllFit, write_all, read, read_all, zero_of}
use rasync.Codec.RoundTrip.{
  body, bodies, write_all-bodies, read-body, length-be_bytes, u16-Reads, u32-Reads, mod-small,
}
use rasync.Prelude.{sym, ◌∙◌, ◌^◌}

-- A reader that has failed.
abbrev pub IsFailed : Reader → Type 0
IsFailed r = r.ok ≡ false

take_failed : (n : ℕ) (r : Reader) → IsFailed r → Reader.take n r ≡ (false, r)
unfolding Reader.take
take_failed n r h = ground arith

read_failed : (k : Kind) (r : Reader) → IsFailed r → read k r ≡ (zero_of k, r)
unfolding read Reader.u8 Reader.u16 Reader.u32 Reader.u64 Reader.i64 Reader.uint Reader.bytes
    Reader.read_str Reader.str16 Reader.blob32
read_failed Kind.u8 r h = rw (take_failed 1 r h)
read_failed Kind.u16 r h = rw (take_failed 2 r h)
read_failed Kind.u32 r h = rw (take_failed 4 r h)
read_failed Kind.u64 r h = rw (take_failed 8 r h)
read_failed Kind.i64 r h = rw (take_failed 8 r h)
read_failed (Kind.bytes n) r h = rw (take_failed n r h)
read_failed Kind.str16 r h = rw (take_failed 2 r h, take_failed 0 r h)
read_failed Kind.blob32 r h = rw (take_failed 4 r h, take_failed 0 r h)

-- After a failure every further read gives zeroes or an empty text, and neither moves the cursor
-- nor clears the failure.
pub read_all_failed :
    (ks : List Kind) (r : Reader) → IsFailed r → read_all ks r ≡ (map zero_of ks, r)
unfolding read_all
read_all_failed [] r h = refl
read_all_failed (k ∷ ks) r h = rw (read_failed k r h, read_all_failed ks r h)

take_short :
    (n : ℕ) (xs : Bytes)
    → length xs < n
    → Reader.take n (start xs) ≡ (false, record { rest = xs; ok = false })
unfolding Reader.take
take_short n xs h = ground arith

-- Where `front` ends in `xs ++ ys`: inside `xs`, or behind it.
append_cases :
    (xs ys front : Bytes) (x : ℕ) (back : Bytes)
    → xs ++ ys ≡ front ++ (x ∷ back)
    → ((y : ℕ) × (tail : Bytes) × (xs ≡ front ++ (y ∷ tail)))
      ⊎ ((more : Bytes) × (front ≡ xs ++ more) × (ys ≡ more ++ (x ∷ back)))
append_cases [] ys front x back e = inr (front, refl, e)
append_cases (y ∷ xs) ys [] x back e = inl (y, xs, refl)
append_cases (y ∷ xs) ys (z ∷ front) x back e = elim (append_cases xs ys front x back (cc)) [
  | inl (w, tail, p) ↦ inl (w, tail, cc)
  | inr (more, p, q) ↦ inr (more, cc, q)
]

proper_prefix :
    (xs front : Bytes) (x : ℕ) (back : Bytes) → xs ≡ front ++ (x ∷ back) → length front < length xs
proper_prefix xs front x back e = rw (e, length-append front (x ∷ back)) (omega arith)

uint_short :
    (n w : ℕ) (xs : Bytes)
    → length xs < n
    → Reader.uint n w (start xs) ≡ (0, record { rest = xs; ok = false })
unfolding Reader.uint
uint_short n w xs h = rw (take_short n xs h)

read_str_short :
    (s more : Bytes) → length more < length s → IsFailed (Reader.read_str (length s) (start more)).1
unfolding Reader.read_str
read_str_short s more h = rw (take_short (length s) more h)

read_str-IsFailed : (n : ℕ) (r : Reader) → IsFailed r → IsFailed (Reader.read_str n r).1
unfolding Reader.read_str
read_str-IsFailed n r h = rw (take_failed n r h) h

-- A text or blob behind a length prefix that is cut.
prefixed_cut :
    (n w : ℕ) (s front : Bytes) (x : ℕ) (back : Bytes)
    → ((rest : Bytes)
        → Reader.uint n w (start (be_bytes n (length s) ++ rest)) ≡ (length s, start rest))
    → be_bytes n (length s) ++ s ≡ front ++ (x ∷ back)
    → let (m, r) = Reader.uint n w (start front) in IsFailed (Reader.read_str m r).1
prefixed_cut n w s front x back reads e =
    elim (append_cases (be_bytes n (length s)) s front x back e) [
      | inl (y, tail, p) ↦
          rw (uint_short n w front (rw length-be_bytes at (proper_prefix _ front y tail p)))
            (read_str-IsFailed 0 _ refl)
      | inr (more, p, q) ↦
          rw (p, reads more) (read_str_short s more (proper_prefix s more x back q))
    ]

read_cut :
    (v : Value) (front : Bytes) (x : ℕ) (back : Bytes)
    → Fits v
    → body v ≡ front ++ (x ∷ back)
    → IsFailed (read (kind v) (start front)).1
unfolding read Reader.u8 Reader.u16 Reader.u32 Reader.u64 Reader.i64 Reader.bytes Reader.str16
    Reader.blob32
read_cut (Value.u8 v) front x back h e = rw (take_short 1 front (proper_prefix _ front x back e))
read_cut (Value.u16 v) front x back h e =
    rw (uint_short 2 16 front (rw length-be_bytes at (proper_prefix _ front x back e)))
read_cut (Value.u32 v) front x back h e =
    rw (uint_short 4 32 front (rw length-be_bytes at (proper_prefix _ front x back e)))
read_cut (Value.u64 v) front x back h e =
    rw (uint_short 8 64 front (rw length-be_bytes at (proper_prefix _ front x back e)))
read_cut (Value.i64 v) front x back h e =
    rw (uint_short 8 64 front (rw length-be_bytes at (proper_prefix _ front x back e)))
read_cut (Value.bytes v) front x back h e =
    rw (take_short (length v) front (proper_prefix _ front x back e))
read_cut (Value.str16 s) front x back h e =
    prefixed_cut 2 16 s front x back (u16-Reads (length s) h)
      (rw (mod-small (length s) (2 ^ 16) h) at e)
read_cut (Value.blob32 s) front x back h e =
    prefixed_cut 4 32 s front x back (u32-Reads (length s) h)
      (rw (mod-small (length s) (2 ^ 32) h) at e)

read_all_rest :
    (k : Kind) (ks : List Kind) (r : Reader)
    → (read_all (k ∷ ks) r).1 ≡ (read_all ks (read k r).1).1
unfolding read_all
read_all_rest k ks r = refl

read_all_cut :
    (vs : List Value) (front : Bytes) (x : ℕ) (back : Bytes)
    → AllFit vs
    → bodies vs ≡ front ++ (x ∷ back)
    → IsFailed (read_all (map kind vs) (start front)).1
read_all_cut [] [] x back h e = cc
read_all_cut [] (y ∷ front) x back h e = cc
read_all_cut (v ∷ vs) front x back h e = elim (append_cases (body v) (bodies vs) front x back e) [
  | inl (y, tail, p) ↦
      let failed : IsFailed (read (kind v) (start front)).1 = read_cut v front y tail h.0 p in
      rw (read_all_rest, read_all_failed (map kind vs) (read (kind v) (start front)).1 failed)
        failed
  | inr (more, p, q) ↦
      rw (read_all_rest, p, read-body v h.0 more) (read_all_cut vs more x back h.1 q)
]

-- Whatever sequence of values that fit is written, a message that is cut anywhere before its end
-- leaves the reader failed once the sequence has been read.
pub read_all-write_all_cut :
    (vs : List Value) (front : Bytes) (x : ℕ) (back : Bytes)
    → AllFit vs
    → write_all [] vs ≡ front ++ (x ∷ back)
    → IsFailed (read_all (map kind vs) (start front)).1
read_all-write_all_cut vs front x back h e =
    read_all_cut vs front x back h (sym (write_all-bodies [] vs) ∙ e)
