-- ===== src/Manifest/Encoding/RoundTrip.antt =====
-- core/manifest.cpp: what is encoded is decoded.
use rasync.Prelude.{
  ℕ, suc, ◌^◌, ◌<◌, ◌≡◌, refl, sym, ◌∙◌, subst, true, false, List, [], ◌∷◌, ◌++◌, some, length,
}
use rasync.Prelude.Int.{to_u64}
use rasync.Prelude.Order.{bytes_order, bytes_lt, lt_asymm}
use rasync.Codec.Writer
use rasync.Codec.Writer.{Bytes, be_bytes}
use rasync.Codec.Reader
use rasync.Codec.Reader.{Reader, start}
use rasync.Codec.Value.{Value}
use rasync.Codec.RoundTrip.{
  body, u32-Reads, u64-Reads, i64-Reads, str16-Reads, bytes-Reads, mod-small, Reads,
}
use rasync.Meta.{FileMeta, InRange}
use rasync.SortedMap.{emplace, IsSorted, Above}
use rasync.Manifest.{Manifest}
use rasync.Manifest.Encoding.{
  write_entry, read_entry, write_entries, encode, decode_entries, decode, is_nil,
}
use mathlib.Core.List.{append-nil, append_assoc}

-- A path that the length prefix can hold.
pub record PathFits (path : Bytes) : Type 0 where
  pub nonempty : is_nil path ≡ false
  pub short : length path < 2 ^ 16

abbrev pub EntriesFit : List (Bytes × FileMeta) → Type 0
EntriesFit [] = Unit {0}
EntriesFit ((path, m) ∷ rest) = PathFits path × InRange m × EntriesFit rest

abbrev pub PathsFit : List Bytes → Type 0
PathsFit [] = Unit {0}
PathsFit (path ∷ rest) = PathFits path × PathsFit rest

abbrev pub entry_bytes : Bytes → FileMeta → Bytes
entry_bytes path m =
    body (Value.str16 path)
    ++ (be_bytes 8 m.size ++ (be_bytes 8 (to_u64 m.mtime) ++ (be_bytes 4 m.mode ++ m.hash)))

write_entry-bytes : (w path : Bytes) (m : FileMeta) → write_entry w path m ≡ w ++ entry_bytes path m
unfolding write_entry Writer.u32 Writer.u64 Writer.i64 Writer.bytes Writer.str16 Writer.raw
    Writer.u16
write_entry-bytes w path m = simp append_assoc

hash-Reads : (m : FileMeta) → InRange m → Reads (Reader.bytes 32) m.hash m.hash
hash-Reads m h = subst (λ n. Reads (Reader.bytes n) m.hash m.hash) h.hash_fits (bytes-Reads m.hash)

pub read_entry-bytes :
    (path : Bytes) (m : FileMeta)
    → PathFits path
    → InRange m
    → Reads read_entry (entry_bytes path m) (true, path, m)
unfolding read_entry
read_entry-bytes path m p h rest =
    let b₄ = be_bytes 4 m.mode ++ m.hash in
    let b₃ = be_bytes 8 (to_u64 m.mtime) ++ b₄ in
    let b₂ = be_bytes 8 m.size ++ b₃ in
    rw (
      append_assoc (body (Value.str16 path)) b₂ rest,
      str16-Reads path p.short (b₂ ++ rest),
      append_assoc (be_bytes 8 m.size) b₃ rest,
      u64-Reads m.size h.size_fits (b₃ ++ rest),
      append_assoc (be_bytes 8 (to_u64 m.mtime)) b₄ rest,
      i64-Reads m.mtime h.mtime_fits (b₄ ++ rest),
      append_assoc (be_bytes 4 m.mode) m.hash rest,
      u32-Reads m.mode h.mode_fits (m.hash ++ rest),
      hash-Reads m h rest,
      p.nonempty,
    )

abbrev pub entries_bytes : List (Bytes × FileMeta) → Bytes
entries_bytes [] = []
entries_bytes ((path, m) ∷ rest) = entry_bytes path m ++ entries_bytes rest

pub write_entries-bytes :
    (w : Bytes) (es : List (Bytes × FileMeta)) → write_entries w es ≡ w ++ entries_bytes es
unfolding write_entries
write_entries-bytes w [] = sym (append-nil w)
write_entries-bytes w ((path, m) ∷ es) =
    write_entries-bytes (write_entry w path m) es
    ∙ rw (write_entry-bytes w path m) (append_assoc w (entry_bytes path m) (entries_bytes es))

Above-middle :
    (j : Bytes) (acc : Manifest) (path : Bytes) (m : FileMeta) (rest : Manifest)
    → Above j (acc ++ (path, m) ∷ rest)
    → bytes_lt j path ≡ true
Above-middle j [] path m rest a = a.0
Above-middle j ((i, v) ∷ acc) path m rest a = Above-middle j acc path m rest a.1

-- An entry that belongs behind all others is put there.
emplace-append :
    (path : Bytes) (m : FileMeta) (acc rest : Manifest)
    → IsSorted (acc ++ (path, m) ∷ rest)
    → emplace path m acc ≡ acc ++ (path, m) ∷ []
unfolding emplace
emplace-append path m [] rest s = refl
emplace-append path m ((j, v) ∷ acc) rest s =
    let h : bytes_lt j path ≡ true = Above-middle j acc path m rest s.0 in
    rw (lt_asymm j path h, h, emplace-append path m acc rest s.1)

decode_entries_step :
    (n : ℕ) (acc : Manifest) (r r' : Reader) (path : Bytes) (m : FileMeta)
    → read_entry r ≡ ((true, path, m), r')
    → decode_entries (suc n) acc r ≡ decode_entries n (emplace path m acc) r'
unfolding decode_entries
decode_entries_step n acc r r' path m e = rw (e, decode_entries) (rw e)

decode_entries_nil :
    (acc : Manifest) (rest : Bytes) → decode_entries 0 acc (start rest) ≡ (some acc, start rest)
unfolding decode_entries
decode_entries_nil acc rest = refl

decode_entries-bytes :
    (acc es : Manifest)
    → EntriesFit es
    → IsSorted (acc ++ es)
    → Reads (decode_entries (length es) acc) (entries_bytes es) (some (acc ++ es))
decode_entries-bytes acc [] f s rest = rw (append-nil acc) (decode_entries_nil acc rest)
decode_entries-bytes acc ((path, m) ∷ es) f s rest =
    let s' : IsSorted ((acc ++ (path, m) ∷ []) ++ es) = rw append_assoc s in
    rw (append_assoc (entry_bytes path m) (entries_bytes es) rest) (
      decode_entries_step (length es) acc _ _ path m
        (read_entry-bytes path m f.0 f.1 (entries_bytes es ++ rest))
      ∙ rw (emplace-append path m acc es s) (
          decode_entries-bytes (acc ++ (path, m) ∷ []) es f.2 s' rest
          ∙ rw (append_assoc acc ((path, m) ∷ []) es)))

-- `decode` reads back the manifest that `encode` wrote, and leaves whatever follows it: for sorted
-- entries whose paths are not empty and shorter than 2^16, and fewer than 2^32 of them.
pub decode-encode :
    (m : Manifest) (rest : Bytes)
    → IsSorted m
    → EntriesFit m
    → length m < 2 ^ 32
    → decode (start (encode [] m ++ rest)) ≡ (some m, start rest)
unfolding decode encode Writer.u32
decode-encode m rest s f h =
    rw
      (
        mod-small (length m) (2 ^ 32) h,
        write_entries-bytes (be_bytes 4 (length m)) m,
        append_assoc (be_bytes 4 (length m)) (entries_bytes m) rest,
        u32-Reads (length m) h (entries_bytes m ++ rest),
      )
      (decode_entries-bytes [] m f s rest)
