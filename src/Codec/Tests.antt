-- ===== src/Codec/Tests.antt =====
-- core/serialize.h at concrete inputs.
use rasync.Prelude.{◌≡◌, refl, arith, List, [], ◌∷◌, ◌++◌, false, map}
use rasync.Prelude.Int.{negsuc}
use rasync.Codec.Writer
use rasync.Codec.Writer.{Bytes}
use rasync.Codec.Reader
use rasync.Codec.Reader.{Reader, start}
use rasync.Codec.Value.{Value, kind, write, write_all, read_all}
use rasync.Codec.RoundTrip.{read_all-write_all}
use rasync.Codec.Failure.{read_all-write_all_cut, IsFailed}

abbrev mixed : List Value
mixed =
    Value.u8 7
    ∷ Value.u16 0x1234
    ∷ Value.u32 0xdead_beef
    ∷ Value.u64 0xffff_ffff_ffff_ffff
    ∷ Value.i64 (negsuc 4)
    ∷ Value.str16 (b'a' ∷ b'/' ∷ b'b' ∷ [])
    ∷ Value.blob32 (1 ∷ 2 ∷ [])
    ∷ Value.bytes (9 ∷ 8 ∷ 7 ∷ [])
    ∷ []

big_endian : Writer.u32 (1 ∷ []) 0xdead_beef ≡ 1 ∷ 0xde ∷ 0xad ∷ 0xbe ∷ 0xef ∷ []
unfolding Writer.u32 Writer.be_bytes
big_endian = refl

minus_five : Reader.i64 (start (Writer.i64 [] (negsuc 4))) ≡ (negsuc 4, start [])
unfolding Writer.i64 Writer.u64 Writer.be_bytes Reader.i64 Reader.be_value
minus_five = refl

too_short : Reader.u32 (start (1 ∷ 2 ∷ 3 ∷ [])) ≡ (0, record { rest = 1 ∷ 2 ∷ 3 ∷ []; ok = false })
unfolding Reader.u32
too_short = refl

read_all-write_all_example :
    read_all (map kind mixed) (start (write_all [] mixed ++ (5 ∷ []))) ≡ (mixed, start (5 ∷ []))
read_all-write_all_example = read_all-write_all mixed (5 ∷ []) (omega arith)

abbrev spent : Reader
spent = record { rest = 1 ∷ []; ok = false }

abbrev two : List Value
two = Value.u8 3 ∷ Value.str16 (b'a' ∷ b'b' ∷ []) ∷ []

read_all-write_all_cut_example :
    IsFailed (read_all (map kind two) (start (3 ∷ 0 ∷ 2 ∷ b'a' ∷ []))).1
unfolding write_all Writer.u8 Writer.str16 Writer.raw Writer.u16 Writer.be_bytes write
read_all-write_all_cut_example =
    read_all-write_all_cut two (3 ∷ 0 ∷ 2 ∷ b'a' ∷ []) b'b' [] (omega arith) refl
