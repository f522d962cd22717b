-- ===== src/Delta/Tests.antt =====
-- core/delta.cpp at concrete files.
use rasync.Prelude.{ℕ, zero, suc, ◌+◌, ◌*◌, ◌≤◌, ◌<◌, ◌≡◌, refl, arith, true, List, [], ◌∷◌, ◌++◌}
use rasync.Prelude.{some, replicate}
use rasync.Codec.Writer.{Bytes}
use rasync.Codec.Reader.{start, remaining}
use rasync.Delta.{
  Signature, signature_of, compute_delta, apply_delta, copy_op, literal_op, scan, scan_start,
  scan_round, ScanState, byte_at, pack, weak_checksum, slice,
}
use rasync.Delta.Scan.{apply_delta-compute_delta}
use rasync.Delta.Rolling.{scan-Windowed, scan_past, AllBytes}
use rasync.Delta.Encoding.{encode, decode, decode-encode_signature, decode_bounded, SignatureFits}

-- A strong hash that never collides, and the candidates in the order of their blocks.
abbrev whole : Bytes → Bytes
whole xs = xs

abbrev in_order : List ℕ → List ℕ
in_order is = is

-- Blocks of two: 12, 34, 5.
abbrev old_file : Bytes
old_file = 1 ∷ 2 ∷ 3 ∷ 4 ∷ 5 ∷ []

-- A byte in front, then both whole blocks.
abbrev new_file : Bytes
new_file = 9 ∷ 1 ∷ 2 ∷ 3 ∷ 4 ∷ 6 ∷ []

compute_delta_run :
    (compute_delta whole in_order (signature_of whole old_file 2) new_file).ops
    ≡ literal_op (9 ∷ []) ∷ copy_op 0 4 ∷ literal_op (6 ∷ []) ∷ []
unfolding compute_delta signature_of scan_round
compute_delta_run = refl

apply_delta-compute_delta_example :
    apply_delta old_file (compute_delta whole in_order (signature_of whole old_file 2) new_file)
    ≡ new_file
apply_delta-compute_delta_example =
    apply_delta-compute_delta whole in_order 2 old_file new_file (omega arith) (λ i j e. e)

abbrev old_signature : Signature
old_signature = record {
  block_size = 2;
  file_size = 5;
  blocks = record { weak = 7; strong = replicate 16 1 } ∷ [];
}

old_signature_fits : SignatureFits old_signature
old_signature_fits = record {
  size_fits = omega arith;
  total_fits = omega arith;
  count_fits = omega arith;
  blocks_fit = (omega arith, refl, tt);
}

new_file_bytes : AllBytes new_file
unfolding byte_at
new_file_bytes zero = omega arith
new_file_bytes (suc zero) = omega arith
new_file_bytes (suc (suc zero)) = omega arith
new_file_bytes (suc (suc (suc zero))) = omega arith
new_file_bytes (suc (suc (suc (suc zero)))) = omega arith
new_file_bytes (suc (suc (suc (suc (suc zero))))) = omega arith
new_file_bytes (suc (suc (suc (suc (suc (suc i)))))) = omega arith

abbrev after_one : ScanState
after_one = scan whole in_order 1 old_signature new_file (scan_start old_signature new_file)

after_one_room : after_one.pos + 2 ≤ 6
unfolding scan scan_round
after_one_room = omega arith

scan-Windowed_example :
    pack (after_one.a, after_one.b)
    ≡ weak_checksum (slice after_one.pos (after_one.pos + 2) new_file)
scan-Windowed_example =
    scan-Windowed whole in_order old_signature new_file 1 after_one (omega arith) new_file_bytes
      refl after_one_room

scan_past_example :
    6 < (scan whole in_order 6 old_signature new_file (scan_start old_signature new_file)).pos + 2
scan_past_example = scan_past whole in_order old_signature new_file (omega arith)

decode-encode_signature_example :
    decode (start (encode [] old_signature ++ 1 ∷ [])) ≡ (some old_signature, start (1 ∷ []))
decode-encode_signature_example = decode-encode_signature old_signature old_signature_fits (1 ∷ [])

decode_bounded_example :
    (true ≡ true) × (1 + (16 + 1 * 20) ≤ remaining (start (encode [] old_signature ++ 1 ∷ [])))
decode_bounded_example =
    decode_bounded (start (encode [] old_signature ++ 1 ∷ [])) (start (1 ∷ [])) old_signature
      (decode-encode_signature old_signature old_signature_fits (1 ∷ []))
