-- ===== src/Manifest/Encoding/PatchRoundTrip.antt =====
-- core/manifest.cpp: what is encoded of a patch is decoded.
use rasync.Prelude.{
  ℕ, suc, ◌*◌, ◌^◌, ◌<◌, ◌≤◌, ◌≡◌, refl, sym, ◌∙◌, arith, true, false, List, [], ◌∷◌, ◌++◌, some,
  length, length-append, ◌%◌,
}
use rasync.Prelude.{ap}
use rasync.Prelude.Order.{bytes_order}
use rasync.Codec.Writer
use rasync.Codec.Writer.{Bytes, be_bytes}
use rasync.Codec.Reader
use rasync.Codec.Reader.{Reader, start}
use rasync.Codec.Value.{Value, write}
use rasync.Codec.RoundTrip.{
  body, write-body, u32-Reads, str16-Reads, length-be_bytes, mod-small, Reads,
}
use rasync.Meta.{FileMeta, InRange}
use rasync.Manifest.{ManifestPatch}
use rasync.Manifest.Encoding.{
  read_entry, write_paths, encode_patch, read_sets, read_paths, decode_patch, is_nil,
  min_entry_bytes,
}
use mathlib.Core.List.{append-nil, append_assoc}
use rasync.Manifest.Encoding.{room_for, with_first}
use rasync.Manifest.Encoding.RoundTrip.{
  EntriesFit, PathsFit, entry_bytes, entries_bytes, read_entry-bytes, write_entries-bytes,
}

abbrev paths_bytes : List Bytes → Bytes
paths_bytes [] = []
paths_bytes (path ∷ rest) = body (Value.str16 path) ++ paths_bytes rest

str16-bytes : (w path : Bytes) → Writer.str16 w path ≡ w ++ body (Value.str16 path)
unfolding write
str16-bytes w path = write-body w (Value.str16 path)

write_paths-bytes : (w : Bytes) (ps : List Bytes) → write_paths w ps ≡ w ++ paths_bytes ps
unfolding write_paths
write_paths-bytes w [] = sym (append-nil w)
write_paths-bytes w (path ∷ ps) =
    write_paths-bytes (Writer.str16 w path) ps
    ∙ rw (str16-bytes w path) (append_assoc w (body (Value.str16 path)) (paths_bytes ps))

read_sets_step :
    (n : ℕ) (r r' : Reader) (path : Bytes) (m : FileMeta)
    → read_entry r ≡ ((true, path, m), r')
    → read_sets (suc n) r ≡ with_first (path, m) (read_sets n r')
unfolding read_sets
read_sets_step n r r' path m e = rw (e, read_sets) (rw e)

read_sets_nil : (r : Reader) → read_sets 0 r ≡ (some [], r)
unfolding read_sets
read_sets_nil r = refl

read_sets-bytes :
    (es : List (Bytes × FileMeta))
    → EntriesFit es
    → Reads (read_sets (length es)) (entries_bytes es) (some es)
read_sets-bytes [] f rest = read_sets_nil (start rest)
read_sets-bytes ((path, m) ∷ es) f rest =
    rw (append_assoc (entry_bytes path m) (entries_bytes es) rest) (
      read_sets_step (length es) _ _ path m
        (read_entry-bytes path m f.0 f.1 (entries_bytes es ++ rest))
      ∙ rw (read_sets-bytes es f.2 rest))

read_paths_step :
    (n : ℕ) (r r' : Reader) (path : Bytes)
    → Reader.str16 r ≡ (path, r')
    → r'.ok ≡ true
    → is_nil path ≡ false
    → read_paths (suc n) r ≡ with_first path (read_paths n r')
unfolding read_paths
read_paths_step n r r' path e h k = ground arith

read_paths_nil : (r : Reader) → read_paths 0 r ≡ (some [], r)
unfolding read_paths
read_paths_nil r = refl

read_paths-bytes :
    (ps : List Bytes) → PathsFit ps → Reads (read_paths (length ps)) (paths_bytes ps) (some ps)
read_paths-bytes [] f rest = read_paths_nil (start rest)
read_paths-bytes (path ∷ ps) f rest =
    rw (append_assoc (body (Value.str16 path)) (paths_bytes ps) rest) (
      read_paths_step (length ps) _ _ path (str16-Reads path f.0.short (paths_bytes ps ++ rest))
        refl f.0.nonempty
      ∙ rw (read_paths-bytes ps f.1 rest))

length-entry_bytes :
    (path : Bytes) (m : FileMeta) → InRange m → min_entry_bytes ≤ length (entry_bytes path m)
length-entry_bytes path m h = simp (length-append, length-be_bytes) (omega (arith, h.hash_fits))

length-entries_bytes :
    (es : List (Bytes × FileMeta))
    → EntriesFit es
    → length es * min_entry_bytes ≤ length (entries_bytes es)
length-entries_bytes [] f = omega arith
length-entries_bytes ((path, m) ∷ es) f = omega (
  arith,
  length-append (entry_bytes path m) (entries_bytes es),
  length-entry_bytes path m f.1,
  length-entries_bytes es f.2,
)

length-paths_bytes : (ps : List Bytes) → length ps * 2 ≤ length (paths_bytes ps)
length-paths_bytes [] = omega arith
length-paths_bytes (path ∷ ps) =
    simp (length-append, length-be_bytes) (omega (arith, length-paths_bytes ps))

room-append :
    (n size : ℕ) (xs rest : Bytes)
    → n * size ≤ length xs
    → room_for n size (start (xs ++ rest)) ≡ true
room-append n size xs rest h = ground (arith, length-append xs rest)

pub record PatchFits (p : ManifestPatch) : Type 0 where
  pub sets_fit : EntriesFit p.sets
  pub removed_fit : PathsFit p.removed
  pub few_sets : length p.sets < 2 ^ 32
  pub few_removed : length p.removed < 2 ^ 32

encode_patch-bytes :
    (p : ManifestPatch)
    → PatchFits p
    → encode_patch [] p
      ≡ be_bytes 4 (length p.sets)
        ++ (entries_bytes p.sets ++ (be_bytes 4 (length p.removed) ++ paths_bytes p.removed))
unfolding encode_patch Writer.u32
encode_patch-bytes p f =
    rw
      (
        mod-small (length p.sets) (2 ^ 32) f.few_sets,
        mod-small (length p.removed) (2 ^ 32) f.few_removed,
        write_entries-bytes (be_bytes 4 (length p.sets)) p.sets,
        write_paths-bytes,
      )
      (simp append_assoc)

encode_patch_lem :
    (w : Bytes) (p : ManifestPatch)
    → encode_patch w p
      ≡ w
        ++ (be_bytes 4 (length p.sets % 2 ^ 32)
            ++ (entries_bytes p.sets
                ++ (be_bytes 4 (length p.removed % 2 ^ 32) ++ paths_bytes p.removed)))
unfolding encode_patch Writer.u32
encode_patch_lem w p = rw (write_entries-bytes, write_paths-bytes) (simp append_assoc)

-- A patch is written behind whatever is there.
pub encode_patch-append :
    (w : Bytes) (p : ManifestPatch) → encode_patch w p ≡ w ++ encode_patch [] p
encode_patch-append w p = encode_patch_lem w p ∙ ap (λ b. w ++ b) (sym (encode_patch_lem [] p))

-- The second half of `decode_patch`, from the count of removals on.
decode_patch_step :
    (r r₁ r₂ r₃ r₄ : Reader) (n k : ℕ) (es : List (Bytes × FileMeta)) (ps : List Bytes)
    → Reader.u32 r ≡ (n, r₁)
    → room_for n min_entry_bytes r₁ ≡ true
    → read_sets n r₁ ≡ (some es, r₂)
    → Reader.u32 r₂ ≡ (k, r₃)
    → room_for k 2 r₃ ≡ true
    → read_paths k r₃ ≡ (some ps, r₄)
    → decode_patch r ≡ (some (record { sets = es; removed = ps }), r₄)
unfolding decode_patch
decode_patch_step r r₁ r₂ r₃ r₄ n k es ps a b c d e f = ground arith

-- `decode_patch` reads back the patch that `encode_patch` wrote, and leaves whatever follows it:
-- for paths that are not empty and shorter than 2^16, and fewer than 2^32 entries in each list.
pub decode_patch-encode_patch :
    (p : ManifestPatch) (rest : Bytes)
    → PatchFits p
    → decode_patch (start (encode_patch [] p ++ rest)) ≡ (some p, start rest)
decode_patch-encode_patch p rest f =
    let b₃ = be_bytes 4 (length p.removed) ++ paths_bytes p.removed in
    let b₂ = entries_bytes p.sets ++ b₃ in
    let t₃ = paths_bytes p.removed ++ rest in
    rw
      (
        encode_patch-bytes p f,
        append_assoc (be_bytes 4 (length p.sets)) b₂ rest,
        append_assoc (entries_bytes p.sets) b₃ rest,
        append_assoc (be_bytes 4 (length p.removed)) (paths_bytes p.removed) rest,
      )
      (decode_patch_step _ _ _ _ _ (length p.sets) (length p.removed) p.sets p.removed
        (u32-Reads (length p.sets) f.few_sets
          (entries_bytes p.sets ++ (be_bytes 4 (length p.removed) ++ t₃)))
        (room-append (length p.sets) min_entry_bytes (entries_bytes p.sets) _
          (length-entries_bytes p.sets f.sets_fit))
        (read_sets-bytes p.sets f.sets_fit (be_bytes 4 (length p.removed) ++ t₃))
        (u32-Reads (length p.removed) f.few_removed t₃)
        (room-append (length p.removed) 2 (paths_bytes p.removed) rest
          (length-paths_bytes p.removed))
        (read_paths-bytes p.removed f.removed_fit rest))
