-- ===== src/Codec/Writer.antt =====
-- `BinaryWriter` of core/serialize.h. A writer is its buffer, and each call returns the new one.
use rasync.Prelude.{ℕ, zero, suc, ◌*◌, ◌/◌, ◌%◌, ◌^◌, List, [], ◌∷◌, ◌++◌, length}
use rasync.Prelude.Int.{ℤ, to_u64}

-- `std::vector<uint8_t>`, and the bytes of a `std::string`.
abbrev pub Bytes : Type 0
Bytes = List ℕ

-- `static_cast<uint8_t>(v >> s)` for `s = 8 * (n - 1)` down to 0.
unfoldable pub be_bytes : ℕ → ℕ → Bytes
be_bytes zero v = []
be_bytes (suc k) v = (v / 2 ^ (8 * k) % 256) ∷ be_bytes k v

unfoldable pub u8 : Bytes → ℕ → Bytes
u8 w v = w ++ v % 256 ∷ []

unfoldable pub u16 : Bytes → ℕ → Bytes
u16 w v = w ++ be_bytes 2 v

unfoldable pub u32 : Bytes → ℕ → Bytes
u32 w v = w ++ be_bytes 4 v

unfoldable pub u64 : Bytes → ℕ → Bytes
u64 w v = w ++ be_bytes 8 v

unfoldable pub i64 : Bytes → ℤ → Bytes
i64 w v = u64 w (to_u64 v)

unfoldable pub raw : Bytes → Bytes → Bytes
raw w p = w ++ p

-- A `std::array` by value.
unfoldable pub bytes : Bytes → Bytes → Bytes
bytes w a = raw w a

-- The length is cast to `uint16_t`: it wraps for a text of 2^16 bytes or more, which is written whole.
unfoldable pub str16 : Bytes → Bytes → Bytes
str16 w s = raw (u16 w (length s % 2 ^ 16)) s

unfoldable pub blob32 : Bytes → Bytes → Bytes
blob32 w p = raw (u32 w (length p % 2 ^ 32)) p
