-- ===== src/Manifest/Encoding/Safety.antt =====
-- core/manifest.cpp: what a decoder accepts, from whatever bytes a peer or a disk gives.
use rasync.Prelude.{
  ℕ, zero, suc, ◌*◌, ◌+◌, ◌≤◌, ◌≡◌, refl, subst, ◌||◌, arith, true, false, not, List, [], ◌∷◌,
  Option, none, some, length,
}
use rasync.Prelude.{Bool-cases, inl, inr}
use rasync.Prelude.Order.{bytes_order}
use rasync.Codec.Writer.{Bytes}
use rasync.Codec.Reader
use rasync.Codec.Reader.{Reader, remaining}
use rasync.Codec.Progress.{
  Moved, Moved-trans, str16-Moved, u32-Moved, u64-Moved, i64-Moved, bytes-Moved,
}
use rasync.Meta.{FileMeta}
use rasync.SortedMap.{emplace, IsSorted}
use rasync.SortedMap.Laws.{emplace-IsSorted}
use rasync.Manifest.{Manifest, ManifestPatch}
use rasync.Manifest.Encoding.{
  read_entry, decode_entries, decode, read_sets, read_paths, decode_removed, decode_patch,
  with_sets, is_nil, min_entry_bytes, with_first, room_for,
}

-- No path is empty.
abbrev pub Named : List (Bytes × FileMeta) → Type 0
Named [] = Unit {0}
Named ((path, m) ∷ rest) = (is_nil path ≡ false) × Named rest

abbrev pub NamedPaths : List Bytes → Type 0
NamedPaths [] = Unit {0}
NamedPaths (path ∷ rest) = (is_nil path ≡ false) × NamedPaths rest

read_entry_named : (r : Reader) → (read_entry r).0.0 ≡ true → is_nil (read_entry r).0.1 ≡ false
unfolding read_entry
read_entry_named r h = ground arith

read_entry_ok : (r : Reader) → (read_entry r).0.0 ≡ true → (read_entry r).1.ok ≡ true
unfolding read_entry
read_entry_ok r h = ground arith

-- A good entry takes its fixed fields at least.
read_entry-Moved :
    (r : Reader) → (read_entry r).0.0 ≡ true → Moved min_entry_bytes r (read_entry r).1
unfolding read_entry
read_entry-Moved r h =
    let r₁ = (Reader.str16 r).1 in
    let r₂ = (Reader.u64 r₁).1 in
    let r₃ = (Reader.i64 r₂).1 in
    let r₄ = (Reader.u32 r₃).1 in
    let m₅ : Moved 32 r₄ (Reader.bytes 32 r₄).1 = bytes-Moved 32 r₄ (read_entry_ok r h) in
    let m₄ : Moved 4 r₃ r₄ = u32-Moved r₃ m₅.was_ok in
    let m₃ : Moved 8 r₂ r₃ = i64-Moved r₂ m₄.was_ok in
    let m₂ : Moved 8 r₁ r₂ = u64-Moved r₁ m₃.was_ok in
    let m₁ : Moved 2 r r₁ = str16-Moved r m₂.was_ok in
    Moved-trans (Moved-trans (Moved-trans (Moved-trans m₁ m₂) m₃) m₄) m₅

emplace-Named :
    (path : Bytes) (v : FileMeta) (m : Manifest)
    → is_nil path ≡ false
    → Named m
    → Named (emplace path v m)
unfolding emplace
emplace-Named path v [] h n = (h, tt)
emplace-Named path v ((j, w) ∷ m) h n = ground (arith, emplace-Named path v m h n.1)

-- A result holds what is asked of the value, if there is one.
abbrev Holds {ℓ} : {A : Type ℓ} → (A → Reader → Type 0) → Option A × Reader → Type 0
Holds P (none, r) = Unit {0}
Holds P (some a, r) = P a r

abbrev GoodManifest : Manifest → Reader → Type 0
GoodManifest m r = IsSorted m × Named m × (r.ok ≡ true)

decode_entries_good :
    (n : ℕ) (acc : Manifest) (r : Reader)
    → IsSorted acc
    → Named acc
    → Holds GoodManifest (decode_entries n acc r)
unfolding decode_entries
decode_entries_good zero acc r s h = elim (Bool-cases r.ok) [
  | inl e ↦ rw e (s, h, refl)
  | inr e ↦ rw e tt
]
decode_entries_good (suc n) acc r s h = elim (Bool-cases (read_entry r).0.0) [
  | inl e ↦
      rw (e, decode_entries)
        (decode_entries_good n (emplace (read_entry r).0.1 (read_entry r).0.2 acc) (read_entry r).1
          (emplace-IsSorted (read_entry r).0.1 (read_entry r).0.2 acc s)
          (emplace-Named (read_entry r).0.1 (read_entry r).0.2 acc (read_entry_named r e) h))
  | inr e ↦ rw (e, decode_entries) tt
]

decode_good : (r : Reader) → Holds GoodManifest (decode r)
unfolding decode
decode_good r = decode_entries_good (Reader.u32 r).0 [] (Reader.u32 r).1 tt tt

-- Whatever the bytes, a manifest that `decode` accepts is sorted with no path twice, has no empty
-- path, and was read with no failure.
pub decode-IsSorted :
    (r r' : Reader) (m : Manifest) → decode r ≡ (some m, r') → IsSorted m × Named m × (r'.ok ≡ true)
decode-IsSorted r r' m e = subst (Holds GoodManifest) e (decode_good r)

-- `n` items of `size` bytes at least, read from `r` on.
abbrev GoodSets : ℕ → Reader → List (Bytes × FileMeta) → Reader → Type 0
GoodSets n r es r' = (length es ≡ n) × Named es × (remaining r' + n * min_entry_bytes ≤ remaining r)

read_sets_good : (n : ℕ) (r : Reader) → Holds (GoodSets n r) (read_sets n r)
unfolding read_sets
read_sets_good zero r = (refl, tt, omega arith)
read_sets_good (suc n) r = elim (Bool-cases (read_entry r).0.0) [
  | inl e ↦
      rw (e, read_sets) (more (read_sets n (read_entry r).1) e (read_sets_good n (read_entry r).1))
  | inr e ↦ rw (e, read_sets) tt
]
  where
    more :
        (t : Option (List (Bytes × FileMeta)) × Reader)
        → (read_entry r).0.0 ≡ true
        → Holds (GoodSets n (read_entry r).1) t
        → Holds (GoodSets (suc n) r) (with_first ((read_entry r).0.1, (read_entry r).0.2) t)
    more (none, r') e h = tt
    more (some es, r') e h = (
      omega (arith, h.0),
      (read_entry_named r e, h.1),
      omega (arith, h.2, (read_entry-Moved r e).passed),
    )

abbrev GoodPaths : ℕ → Reader → List Bytes → Reader → Type 0
GoodPaths n r ps r' = (length ps ≡ n) × NamedPaths ps × (remaining r' + n * 2 ≤ remaining r)

read_paths_good : (n : ℕ) (r : Reader) → Holds (GoodPaths n r) (read_paths n r)
unfolding read_paths
read_paths_good zero r = (refl, tt, omega arith)
read_paths_good (suc n) r =
    elim (Bool-cases (not (Reader.str16 r).1.ok || is_nil (Reader.str16 r).0)) [
      | inl e ↦ rw (e, read_paths) tt
      | inr e ↦
          rw (e, read_paths)
            (more (read_paths n (Reader.str16 r).1) (ground arith) (ground arith)
              (read_paths_good n (Reader.str16 r).1))
    ]
  where
    more :
        (t : Option (List Bytes) × Reader)
        → (Reader.str16 r).1.ok ≡ true
        → is_nil (Reader.str16 r).0 ≡ false
        → Holds (GoodPaths n (Reader.str16 r).1) t
        → Holds (GoodPaths (suc n) r) (with_first (Reader.str16 r).0 t)
    more (none, r') e k h = tt
    more (some ps, r') e k h =
        (omega (arith, h.0), (k, h.1), omega (arith, h.2, (str16-Moved r e).passed))

abbrev GoodPatch : Reader → ManifestPatch → Reader → Type 0
GoodPatch r p r' =
    Named p.sets
    × NamedPaths p.removed
    × (remaining r' + length p.sets * min_entry_bytes + length p.removed * 2 ≤ remaining r)

room_ok : (n size : ℕ) (r : Reader) → room_for n size r ≡ true → r.ok ≡ true
room_ok n size r h = ground arith

decode_removed_good :
    (n : ℕ) (r : Reader) (t : Option (List (Bytes × FileMeta)) × Reader)
    → Holds (GoodSets n r) t
    → Holds (GoodPatch r) (decode_removed t)
unfolding decode_removed
decode_removed_good n r (none, r₂) h = tt
decode_removed_good n r (some es, r₂) h =
    let k = (Reader.u32 r₂).0 in
    let r₃ = (Reader.u32 r₂).1 in
    elim (Bool-cases (room_for k 2 r₃)) [
      | inl e ↦ rw e (more (read_paths k r₃) (room_ok k 2 r₃ e) (read_paths_good k r₃))
      | inr e ↦ rw e tt
    ]
  where
    more :
        (u : Option (List Bytes) × Reader)
        → (Reader.u32 r₂).1.ok ≡ true
        → Holds (GoodPaths (Reader.u32 r₂).0 (Reader.u32 r₂).1) u
        → Holds (GoodPatch r) (with_sets es u)
    more (none, r₄) e g = tt
    more (some ps, r₄) e g = (h.1, g.1, omega (arith, h.0, h.2, g.0, g.2, (u32-Moved r₂ e).passed))

further :
    (r r₁ : Reader)
    → Moved 4 r r₁
    → (t : Option ManifestPatch × Reader) → Holds (GoodPatch r₁) t
    → Holds (GoodPatch r) t
further r r₁ h (none, r') g = tt
further r r₁ h (some p, r') g = (g.0, g.1, omega (arith, g.2, h.passed))

decode_patch_good : (r : Reader) → Holds (GoodPatch r) (decode_patch r)
unfolding decode_patch
decode_patch_good r =
    let n = (Reader.u32 r).0 in
    let r₁ = (Reader.u32 r).1 in
    elim (Bool-cases (room_for n min_entry_bytes r₁)) [
      | inl e ↦ rw e (
          further r r₁ (u32-Moved r (room_ok n min_entry_bytes r₁ e))
            (decode_removed (read_sets n r₁))
            (decode_removed_good n r₁ (read_sets n r₁) (read_sets_good n r₁)))
      | inr e ↦ rw e tt
    ]

-- Whatever the bytes, a patch that `decode_patch` accepts has no empty path, and its entries were
-- there to be read: 54 bytes at least for each entry and 2 for each removal.
pub decode_patch_bounded :
    (r r' : Reader) (p : ManifestPatch)
    → decode_patch r ≡ (some p, r')
    → Named p.sets
      × NamedPaths p.removed
      × (remaining r' + length p.sets * min_entry_bytes + length p.removed * 2 ≤ remaining r)
decode_patch_bounded r r' p e = subst (Holds (GoodPatch r)) e (decode_patch_good r)
