-- ===== src/Manifest/Tests.antt =====
-- core/manifest.cpp at concrete trees.
use rasync.Prelude.{ℕ, ◌*◌, ◌+◌, ◌≤◌, ◌≡◌, refl, arith, true, [], ◌∷◌, ◌++◌, some}
use rasync.Prelude.Int.{pos}
use rasync.Prelude.Order.{bytes_order}
use rasync.Codec.Reader.{start, remaining}
use rasync.Meta.{FileMeta, InRange, meta_eq}
use rasync.SortedMap.{IsSorted}
use rasync.Manifest.{Manifest, ManifestPatch, apply, diff_manifests, total_bytes}
use rasync.Manifest.Diff.{apply-diff_manifests}
use rasync.Manifest.Encoding.{encode, decode, encode_patch, decode_patch, min_entry_bytes}
use rasync.Manifest.Encoding.RoundTrip.{decode-encode, EntriesFit}
use rasync.Manifest.Encoding.PatchRoundTrip.{decode_patch-encode_patch, PatchFits}
use rasync.Manifest.Encoding.Safety.{decode-IsSorted, decode_patch_bounded, Named, NamedPaths}
use rasync.Prelude.{replicate}

abbrev meta_of : ℕ → FileMeta
meta_of n = record { size = n; mtime = pos 7; mode = 1; hash = replicate 32 n }

-- a, b/c
abbrev old_tree : Manifest
old_tree = (b'a' ∷ [], meta_of 1) ∷ (b'b' ∷ b'/' ∷ b'c' ∷ [], meta_of 2) ∷ []

-- b/c with other contents, d
abbrev new_tree : Manifest
new_tree = (b'b' ∷ b'/' ∷ b'c' ∷ [], meta_of 3) ∷ (b'd' ∷ [], meta_of 4) ∷ []

abbrev step : ManifestPatch
step = record {
  sets = (b'b' ∷ b'/' ∷ b'c' ∷ [], meta_of 3) ∷ (b'd' ∷ [], meta_of 4) ∷ [];
  removed = (b'a' ∷ []) ∷ [];
}

the_step : diff_manifests old_tree new_tree ≡ step
unfolding diff_manifests meta_eq
the_step = refl

bytes_of_both : total_bytes old_tree ≡ 3
unfolding total_bytes
bytes_of_both = refl

old-IsSorted : IsSorted old_tree
old-IsSorted = ((refl, tt), (tt, tt))

new-IsSorted : IsSorted new_tree
new-IsSorted = ((refl, tt), (tt, tt))

in_range : (n : ℕ) → n ≤ 9 → InRange (meta_of n)
in_range n h = record {
  size_fits = omega arith;
  mtime_fits = omega arith;
  mode_fits = omega arith;
  hash_fits = refl;
}

old_fits : EntriesFit old_tree
old_fits = (
  record { nonempty = refl; short = omega arith },
  in_range 1 (omega arith),
  (record { nonempty = refl; short = omega arith }, in_range 2 (omega arith), tt),
)

step_fits : PatchFits step
step_fits = record {
  sets_fit = (
    record { nonempty = refl; short = omega arith },
    in_range 3 (omega arith),
    (record { nonempty = refl; short = omega arith }, in_range 4 (omega arith), tt),
  );
  removed_fit = (record { nonempty = refl; short = omega arith }, tt);
  few_sets = omega arith;
  few_removed = omega arith;
}

apply-diff_manifests_example : apply (diff_manifests old_tree new_tree) old_tree ≡ new_tree
apply-diff_manifests_example = apply-diff_manifests old_tree new_tree old-IsSorted new-IsSorted

decode-encode_example :
    decode (start (encode [] old_tree ++ (7 ∷ []))) ≡ (some old_tree, start (7 ∷ []))
decode-encode_example = decode-encode old_tree (7 ∷ []) old-IsSorted old_fits (omega arith)

decode_patch-encode_patch_example :
    decode_patch (start (encode_patch [] step ++ (7 ∷ []))) ≡ (some step, start (7 ∷ []))
decode_patch-encode_patch_example = decode_patch-encode_patch step (7 ∷ []) step_fits

decode-IsSorted_example : IsSorted old_tree × Named old_tree × (true ≡ true)
decode-IsSorted_example =
    decode-IsSorted (start (encode [] old_tree ++ (7 ∷ []))) (start (7 ∷ [])) old_tree
      (decode-encode old_tree (7 ∷ []) old-IsSorted old_fits (omega arith))

decode_patch_bounded_example :
    Named step.sets
    × NamedPaths step.removed
    × (1 + 2 * min_entry_bytes + 1 * 2 ≤ remaining (start (encode_patch [] step ++ (7 ∷ []))))
decode_patch_bounded_example =
    decode_patch_bounded (start (encode_patch [] step ++ (7 ∷ []))) (start (7 ∷ [])) step
      (decode_patch-encode_patch step (7 ∷ []) step_fits)
