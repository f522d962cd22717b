-- ===== src/Codec/Reader.antt =====
-- `BinaryReader` of core/serialize.h. A reader is the bytes from its cursor to its end, with its
-- flag; each call returns the value and the reader after it.
use rasync.Prelude.{ℕ, ◌+◌, ◌*◌, ◌%◌, ◌^◌, Bool, true, false, ◌||◌, not, [], ◌∷◌}
use rasync.Prelude.{length, get_or, take as take_list, drop, replicate, ltb, if◌then◌else◌}
use rasync.Prelude.Int.{ℤ, to_i64}
use rasync.Codec.Writer.{Bytes}

pub record Reader : Type 0 where
  pub rest : Bytes
  pub ok : Bool

-- `BinaryReader(data, size)`
abbrev pub start : Bytes → Reader
start b = record { rest = b; ok = true }

abbrev pub remaining : Reader → ℕ
remaining r = length r.rest

-- The private `take`: does the next value fit? If not, the reader fails.
unfoldable pub take : ℕ → Reader → Bool × Reader
take n r = if not r.ok || ltb (remaining r) n then (false, record r { ok = false }) else (true, r)

-- `p_ += n`
abbrev pub advance : ℕ → Reader → Reader
advance n r = record r { rest = drop n r.rest }

-- `v = (v << 8) | p_[i]` over the bytes at hand, in an unsigned integer of `w` bits.
unfoldable pub be_value : ℕ → ℕ → Bytes → ℕ
be_value w v [] = v
be_value w v (b ∷ bs) = be_value w (v * 256 % 2 ^ w + b) bs

unfoldable pub u8 : Reader → ℕ × Reader
unfolding take
u8 r = let (fits, r') = take 1 r in if fits then (get_or r'.rest 0 0, advance 1 r') else (0, r')

-- `u16`, `u32` and `u64` read `n` bytes into an integer of `w` bits.
unfoldable pub uint : ℕ → ℕ → Reader → ℕ × Reader
unfolding take
uint n w r =
    let (fits, r') = take n r in
    if fits then (be_value w 0 (take_list n r'.rest), advance n r') else (0, r')

unfoldable pub u16 : Reader → ℕ × Reader
unfolding uint
u16 = uint 2 16

unfoldable pub u32 : Reader → ℕ × Reader
unfolding uint
u32 = uint 4 32

unfoldable pub u64 : Reader → ℕ × Reader
unfolding uint
u64 = uint 8 64

unfoldable pub i64 : Reader → ℤ × Reader
unfolding u64
i64 r = let (v, r') = u64 r in (to_i64 v, r')

-- The array stays zero where the bytes do not fit.
unfoldable pub bytes : ℕ → Reader → Bytes × Reader
unfolding take
bytes n r =
    let (fits, r') = take n r in
    if fits then (take_list n r'.rest, advance n r') else (replicate n 0, r')

unfoldable pub read_str : ℕ → Reader → Bytes × Reader
unfolding take
read_str n r =
    let (fits, r') = take n r in if fits then (take_list n r'.rest, advance n r') else ([], r')

unfoldable pub str16 : Reader → Bytes × Reader
unfolding u16 read_str
str16 r = let (n, r') = u16 r in read_str n r'

unfoldable pub blob32 : Reader → Bytes × Reader
unfolding u32 read_str
blob32 r = let (n, r') = u32 r in read_str n r'
