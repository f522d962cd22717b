-- ===== src/Codec/Value.antt =====
-- The calls of core/serialize.h as one language: a value is what one writer call is given, and its
-- kind says which reader call takes it back.
use rasync.Prelude.{ℕ, ◌^◌, ◌<◌, List, [], ◌∷◌, length, replicate}
use rasync.Prelude.Int.{ℤ, pos, IsI64}
use rasync.Codec.Writer
use rasync.Codec.Writer.{Bytes}
use rasync.Codec.Reader
use rasync.Codec.Reader.{Reader}

pub data Value : Type 0 where
  u8 u16 u32 u64 : ℕ → Value
  i64 : ℤ → Value
  bytes str16 blob32 : Bytes → Value

pub data Kind : Type 0 where
  u8 u16 u32 u64 i64 str16 blob32 : Kind
  bytes : ℕ → Kind

abbrev pub kind : Value → Kind
kind (Value.u8 _) = Kind.u8
kind (Value.u16 _) = Kind.u16
kind (Value.u32 _) = Kind.u32
kind (Value.u64 _) = Kind.u64
kind (Value.i64 _) = Kind.i64
kind (Value.bytes a) = Kind.bytes (length a)
kind (Value.str16 _) = Kind.str16
kind (Value.blob32 _) = Kind.blob32

-- What fits the type of the parameter, and the length prefix.
abbrev pub Fits : Value → Type 0
Fits (Value.u8 v) = v < 2 ^ 8
Fits (Value.u16 v) = v < 2 ^ 16
Fits (Value.u32 v) = v < 2 ^ 32
Fits (Value.u64 v) = v < 2 ^ 64
Fits (Value.i64 v) = IsI64 v
Fits (Value.bytes a) = Unit {0}
Fits (Value.str16 s) = length s < 2 ^ 16
Fits (Value.blob32 p) = length p < 2 ^ 32

abbrev pub AllFit : List Value → Type 0
AllFit [] = Unit {0}
AllFit (v ∷ vs) = Fits v × AllFit vs

unfoldable pub write : Bytes → Value → Bytes
write w (Value.u8 v) = Writer.u8 w v
write w (Value.u16 v) = Writer.u16 w v
write w (Value.u32 v) = Writer.u32 w v
write w (Value.u64 v) = Writer.u64 w v
write w (Value.i64 v) = Writer.i64 w v
write w (Value.bytes a) = Writer.bytes w a
write w (Value.str16 s) = Writer.str16 w s
write w (Value.blob32 p) = Writer.blob32 w p

unfoldable pub write_all : Bytes → List Value → Bytes
write_all w [] = w
write_all w (v ∷ vs) = write_all (write w v) vs

abbrev pub tag {ℓ} : {A : Type ℓ} → (A → Value) → A × Reader → Value × Reader
tag c (a, r) = (c a, r)

unfoldable pub read : Kind → Reader → Value × Reader
read Kind.u8 r = tag Value.u8 (Reader.u8 r)
read Kind.u16 r = tag Value.u16 (Reader.u16 r)
read Kind.u32 r = tag Value.u32 (Reader.u32 r)
read Kind.u64 r = tag Value.u64 (Reader.u64 r)
read Kind.i64 r = tag Value.i64 (Reader.i64 r)
read (Kind.bytes n) r = tag Value.bytes (Reader.bytes n r)
read Kind.str16 r = tag Value.str16 (Reader.str16 r)
read Kind.blob32 r = tag Value.blob32 (Reader.blob32 r)

unfoldable pub read_all : List Kind → Reader → List Value × Reader
read_all [] r = ([], r)
read_all (k ∷ ks) r = let (v, r') = read k r in let (vs, t) = read_all ks r' in (v ∷ vs, t)

-- What a failed reader gives.
abbrev pub zero_of : Kind → Value
zero_of Kind.u8 = Value.u8 0
zero_of Kind.u16 = Value.u16 0
zero_of Kind.u32 = Value.u32 0
zero_of Kind.u64 = Value.u64 0
zero_of Kind.i64 = Value.i64 (pos 0)
zero_of (Kind.bytes n) = Value.bytes (replicate n 0)
zero_of Kind.str16 = Value.str16 []
zero_of Kind.blob32 = Value.blob32 []
