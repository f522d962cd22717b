-- ===== src/Manifest/Encoding.antt =====
-- core/manifest.cpp: manifests and patches in bytes, on the wire and on disk.
pub mod RoundTrip
pub mod PatchRoundTrip
pub mod Safety
use rasync.Prelude.{
  ℕ, zero, suc, ◌*◌, ◌+◌, ◌%◌, ◌^◌, Bool, true, false, not, ◌||◌, ◌&&◌, List, [], ◌∷◌, Option, none,
  some, length, ltb,
}
use rasync.Prelude.{if◌then◌else◌}
use rasync.Prelude.Order.{StrictOrder, bytes_order}
use rasync.Codec.Writer
use rasync.Codec.Writer.{Bytes}
use rasync.Codec.Reader
use rasync.Codec.Reader.{Reader, remaining}
use rasync.Meta.{FileMeta}
use rasync.SortedMap.{emplace}
use rasync.Manifest.{Manifest, ManifestPatch}

-- `kMinEntryBytes`
abbrev pub min_entry_bytes : ℕ
min_entry_bytes = 2 + 8 + 8 + 4 + 32

unfoldable pub write_entry : Bytes → Bytes → FileMeta → Bytes
write_entry w path m =
    Writer.bytes (Writer.u32 (Writer.i64 (Writer.u64 (Writer.str16 w path) m.size) m.mtime) m.mode)
      m.hash

abbrev pub is_nil : Bytes → Bool
is_nil [] = true
is_nil (_ ∷ _) = false

-- Whether the entry is good, its path and its metadata.
unfoldable pub read_entry : Reader → (Bool × Bytes × FileMeta) × Reader
read_entry r =
    let (path, r₁) = Reader.str16 r in
    let (size, r₂) = Reader.u64 r₁ in
    let (mtime, r₃) = Reader.i64 r₂ in
    let (mode, r₄) = Reader.u32 r₃ in
    let (hash, r₅) = Reader.bytes 32 r₄ in
    (
      (
        r₅.ok && not (is_nil path),
        path,
        record { size = size; mtime = mtime; mode = mode; hash = hash },
      ),
      r₅,
    )

unfoldable pub write_entries : Bytes → List (Bytes × FileMeta) → Bytes
write_entries w [] = w
write_entries w ((path, m) ∷ rest) = write_entries (write_entry w path m) rest

unfoldable pub write_paths : Bytes → List Bytes → Bytes
write_paths w [] = w
write_paths w (path ∷ rest) = write_paths (Writer.str16 w path) rest

-- `Manifest::encode`
unfoldable pub encode : Bytes → Manifest → Bytes
unfolding write_entries
encode w m = write_entries (Writer.u32 w (length m % 2 ^ 32)) m

-- The loop of `Manifest::decode`, on the rounds left.
unfoldable pub decode_entries : ℕ → Manifest → Reader → Option Manifest × Reader
decode_entries zero m r = (if r.ok then some m else none, r)
decode_entries (suc n) m r =
    let ((good, path, meta), r') = read_entry r in
    elim good [ true ↦ decode_entries n (emplace path meta m) r' | false ↦ (none, r') ]

-- `Manifest::decode`
unfoldable pub decode : Reader → Option Manifest × Reader
unfolding decode_entries
decode r = let (count, r') = Reader.u32 r in decode_entries count [] r'

-- `ManifestPatch::encode`
unfoldable pub encode_patch : Bytes → ManifestPatch → Bytes
unfolding write_entries write_paths
encode_patch w p =
    let w' = write_entries (Writer.u32 w (length p.sets % 2 ^ 32)) p.sets in
    write_paths (Writer.u32 w' (length p.removed % 2 ^ 32)) p.removed

-- `push_back` onto what the loop has, seen from the first item.
abbrev pub with_first {ℓ} : {A : Type ℓ} → A → Option (List A) × Reader → Option (List A) × Reader
with_first a (none, r) = (none, r)
with_first a (some l, r) = (some (a ∷ l), r)

-- The two loops of `ManifestPatch::decode`, on the rounds left.
unfoldable pub read_sets : ℕ → Reader → Option (List (Bytes × FileMeta)) × Reader
read_sets zero r = (some [], r)
read_sets (suc n) r =
    let ((good, path, meta), r') = read_entry r in
    elim good [ true ↦ with_first (path, meta) (read_sets n r') | false ↦ (none, r') ]

unfoldable pub read_paths : ℕ → Reader → Option (List Bytes) × Reader
read_paths zero r = (some [], r)
read_paths (suc n) r =
    let (path, r') = Reader.str16 r in
    elim (not r'.ok || is_nil path) [
      | true ↦ (none, r')
      | false ↦ with_first path (read_paths n r')
    ]

-- Could `n` items of `size` bytes be there? The product is a `size_t`.
abbrev pub room_for : ℕ → ℕ → Reader → Bool
room_for n size r = r.ok && not (ltb (remaining r) (n * size))

abbrev pub with_sets :
    List (Bytes × FileMeta) → Option (List Bytes) × Reader → Option ManifestPatch × Reader
with_sets entries (none, r) = (none, r)
with_sets entries (some paths, r) = (some (record { sets = entries; removed = paths }), r)

-- The second half of `ManifestPatch::decode`.
unfoldable pub decode_removed :
    Option (List (Bytes × FileMeta)) × Reader → Option ManifestPatch × Reader
unfolding read_paths
decode_removed (none, r) = (none, r)
decode_removed (some entries, r) =
    let (n_del, r') = Reader.u32 r in
    if not (room_for n_del 2 r') then (none, r') else with_sets entries (read_paths n_del r')

-- `ManifestPatch::decode`
unfoldable pub decode_patch : Reader → Option ManifestPatch × Reader
unfolding read_sets decode_removed
decode_patch r =
    let (n_set, r') = Reader.u32 r in
    if not (room_for n_set min_entry_bytes r')
    then (none, r')
    else decode_removed (read_sets n_set r')
