-- ===== src/Codec/RoundTrip.antt =====
-- What the writer of core/serialize.h appends, its reader reads back, leaving what follows.
use rasync.Prelude.{ℕ, zero, suc, ◌%◌, ◌^◌, ◌<◌, ◌≡◌, refl, arith, List, [], ◌∷◌, ◌++◌}
use rasync.Prelude.{true, length, length-append, drop, take as take_list}
use rasync.Prelude.Int.{ℤ, IsI64, to_u64, to_i64-to_u64, to_u64-lt}
use rasync.Codec.Writer
use rasync.Codec.Writer.{Bytes, be_bytes}
use rasync.Codec.Reader
use rasync.Codec.Reader.{Reader, start, be_value}
use rasync.Prelude.{sym, ◌∙◌, map}
use rasync.Codec.Value.{Value, kind, Fits, AllFit, write, write_all, read, read_all}
use native.Mathlib.Nat.{mod-eq_of_lt}
use mathlib.Core.List.{append-nil, append_assoc}

-- `read` takes exactly the bytes `written` off its input, whatever follows, and gives `v`.
abbrev pub Reads {ℓ} : {A : Type ℓ} → (Reader → A × Reader) → Bytes → A → Type ℓ
Reads read written v = (rest : Bytes) → read (start (written ++ rest)) ≡ (v, start rest)

pub length-be_bytes : (k v : ℕ) → length (be_bytes k v) ≡ k
unfolding be_bytes
length-be_bytes zero v = refl
length-be_bytes (suc k) v = omega (arith, length-be_bytes k v)

pub take-append_self : (xs ys : Bytes) → take_list (length xs) (xs ++ ys) ≡ xs
take-append_self [] ys = refl
take-append_self (x ∷ xs) ys = rw (take-append_self xs ys)

pub drop-append_self : (xs ys : Bytes) → drop (length xs) (xs ++ ys) ≡ ys
drop-append_self [] ys = refl
drop-append_self (x ∷ xs) ys = drop-append_self xs ys

be_value_two : (v : ℕ) → v < 2 ^ 16 → be_value 16 0 (be_bytes 2 v) ≡ v
unfolding be_value be_bytes
be_value_two v h = omega arith

be_value_four : (v : ℕ) → v < 2 ^ 32 → be_value 32 0 (be_bytes 4 v) ≡ v
unfolding be_value be_bytes
be_value_four v h = omega arith

be_value_eight : (v : ℕ) → v < 2 ^ 64 → be_value 64 0 (be_bytes 8 v) ≡ v
unfolding be_value be_bytes
be_value_eight v h = omega arith

-- `take` lets a value of `length xs` bytes through where they are at hand.
take_fits :
    (xs rest : Bytes) → Reader.take (length xs) (start (xs ++ rest)) ≡ (true, start (xs ++ rest))
unfolding Reader.take
take_fits xs rest = ground (arith, length-append xs rest)

uint-Reads :
    (n w : ℕ) (xs : Bytes) {v : ℕ}
    → length xs ≡ n
    → be_value w 0 xs ≡ v
    → Reads (Reader.uint n w) xs v
unfolding Reader.uint
uint-Reads n w xs e p rest =
    rw (← e, take_fits xs rest, take-append_self xs rest, drop-append_self xs rest, p)

pub u16-Reads : (v : ℕ) → v < 2 ^ 16 → Reads Reader.u16 (be_bytes 2 v) v
unfolding Reader.u16
u16-Reads v h = uint-Reads 2 16 (be_bytes 2 v) (length-be_bytes 2 v) (be_value_two v h)

pub u32-Reads : (v : ℕ) → v < 2 ^ 32 → Reads Reader.u32 (be_bytes 4 v) v
unfolding Reader.u32
u32-Reads v h = uint-Reads 4 32 (be_bytes 4 v) (length-be_bytes 4 v) (be_value_four v h)

pub u64-Reads : (v : ℕ) → v < 2 ^ 64 → Reads Reader.u64 (be_bytes 8 v) v
unfolding Reader.u64
u64-Reads v h = uint-Reads 8 64 (be_bytes 8 v) (length-be_bytes 8 v) (be_value_eight v h)

pub i64-Reads : (v : ℤ) → IsI64 v → Reads Reader.i64 (be_bytes 8 (to_u64 v)) v
unfolding Reader.i64
i64-Reads v h rest = rw (u64-Reads (to_u64 v) (to_u64-lt v) rest) (rw (to_i64-to_u64 v h))

pub u8-Reads : (v : ℕ) → v < 256 → Reads Reader.u8 ((v % 256) ∷ []) v
unfolding Reader.u8
u8-Reads v h rest = ground arith

pub bytes-Reads : (xs : Bytes) → Reads (Reader.bytes (length xs)) xs xs
unfolding Reader.bytes
bytes-Reads xs rest = rw (take_fits xs rest, take-append_self xs rest, drop-append_self xs rest)

pub read_str-Reads : (xs : Bytes) → Reads (Reader.read_str (length xs)) xs xs
unfolding Reader.read_str
read_str-Reads xs rest = rw (take_fits xs rest, take-append_self xs rest, drop-append_self xs rest)

-- The bytes that one call appends.
abbrev pub body : Value → Bytes
body (Value.u8 v) = v % 256 ∷ []
body (Value.u16 v) = be_bytes 2 v
body (Value.u32 v) = be_bytes 4 v
body (Value.u64 v) = be_bytes 8 v
body (Value.i64 v) = be_bytes 8 (to_u64 v)
body (Value.bytes a) = a
body (Value.str16 s) = be_bytes 2 (length s % 2 ^ 16) ++ s
body (Value.blob32 p) = be_bytes 4 (length p % 2 ^ 32) ++ p

pub write-body : (w : Bytes) (v : Value) → write w v ≡ w ++ body v
unfolding write Writer.u8 Writer.u16 Writer.u32 Writer.u64 Writer.i64 Writer.bytes Writer.str16
    Writer.blob32 Writer.raw
write-body w (Value.u8 v) = refl
write-body w (Value.u16 v) = refl
write-body w (Value.u32 v) = refl
write-body w (Value.u64 v) = refl
write-body w (Value.i64 v) = refl
write-body w (Value.bytes v) = refl
write-body w (Value.str16 v) = append_assoc w _ v
write-body w (Value.blob32 v) = append_assoc w _ v

pub mod-small : (n m : ℕ) → n < m → n % m ≡ n
mod-small n m h = mod-eq_of_lt h

pub str16-Reads :
    (s : Bytes) → length s < 2 ^ 16 → Reads Reader.str16 (be_bytes 2 (length s % 2 ^ 16) ++ s) s
unfolding Reader.str16
str16-Reads s h rest =
    rw
      (
        mod-small (length s) (2 ^ 16) h,
        append_assoc (be_bytes 2 (length s)) s rest,
        u16-Reads (length s) h (s ++ rest),
      )
      (read_str-Reads s rest)

pub blob32-Reads :
    (s : Bytes) → length s < 2 ^ 32 → Reads Reader.blob32 (be_bytes 4 (length s % 2 ^ 32) ++ s) s
unfolding Reader.blob32
blob32-Reads s h rest =
    rw
      (
        mod-small (length s) (2 ^ 32) h,
        append_assoc (be_bytes 4 (length s)) s rest,
        u32-Reads (length s) h (s ++ rest),
      )
      (read_str-Reads s rest)

pub read-body : (v : Value) → Fits v → Reads (read (kind v)) (body v) v
unfolding read
read-body (Value.u8 v) h rest = rw (u8-Reads v h rest)
read-body (Value.u16 v) h rest = rw (u16-Reads v h rest)
read-body (Value.u32 v) h rest = rw (u32-Reads v h rest)
read-body (Value.u64 v) h rest = rw (u64-Reads v h rest)
read-body (Value.i64 v) h rest = rw (i64-Reads v h rest)
read-body (Value.bytes v) h rest = rw (bytes-Reads v rest)
read-body (Value.str16 v) h rest = rw (str16-Reads v h rest)
read-body (Value.blob32 v) h rest = rw (blob32-Reads v h rest)

abbrev pub bodies : List Value → Bytes
bodies [] = []
bodies (v ∷ vs) = body v ++ bodies vs

pub write_all-bodies : (w : Bytes) (vs : List Value) → write_all w vs ≡ w ++ bodies vs
unfolding write_all
write_all-bodies w [] = sym (append-nil w)
write_all-bodies w (v ∷ vs) =
    write_all-bodies (write w v) vs ∙ rw (write-body w v) (append_assoc w (body v) (bodies vs))

read_all-bodies : (vs : List Value) → AllFit vs → Reads (read_all (map kind vs)) (bodies vs) vs
unfolding read_all
read_all-bodies [] h rest = refl
read_all-bodies (v ∷ vs) h rest = rw (
  append_assoc (body v) (bodies vs) rest,
  read-body v h.0 (bodies vs ++ rest),
  read_all-bodies vs h.1 rest,
)

-- Any sequence of writer calls, each given a value that fits its type and its length prefix, is
-- read back by the matching sequence of reader calls: the same values, no failure, and the cursor
-- exactly at what follows.
pub read_all-write_all :
    (vs : List Value) (rest : Bytes)
    → AllFit vs
    → read_all (map kind vs) (start (write_all [] vs ++ rest)) ≡ (vs, start rest)
read_all-write_all vs rest h = rw (write_all-bodies [] vs) (read_all-bodies vs h rest)
