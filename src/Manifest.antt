-- ===== src/Manifest.antt =====
-- core/manifest.h, core/manifest.cpp: the snapshot of a tree, and patches between two of them.
pub mod Patch
pub mod Diff
pub mod Fingerprint
pub mod Encoding
mod Tests
use rasync.Prelude.{
  ℕ, ◌+◌, ◌%◌, ◌^◌, Bool, true, false, not, List, [], ◌∷◌, ◌++◌, length, Option, none, some,
}
use rasync.Prelude.{if◌then◌else◌}
use rasync.Prelude.Order.{StrictOrder, bytes_order}
use rasync.Codec.Writer.{Bytes, be_bytes}
use rasync.Meta.{FileMeta, meta_eq}
use rasync.SortedMap.{Map, set, erase, find}
use mathlib.Core.List.{foldl}
use mathlib.Core.Bool.{cond}

-- `Manifest::entries_`
abbrev pub Manifest : Type 0
Manifest = Map Bytes FileMeta

pub record ManifestPatch : Type 0 where
  pub sets : List (Bytes × FileMeta)
  pub removed : List Bytes

abbrev pub no_change : ManifestPatch
no_change = record { sets = []; removed = [] }

-- `ManifestPatch::empty`
unfoldable pub is_empty : ManifestPatch → Bool
is_empty p = elim p.sets [ [] ↦ elim p.removed [ [] ↦ true | _ ↦ false ] | _ ↦ false ]

-- The two loops of `Manifest::apply`.
unfoldable pub apply_sets : List (Bytes × FileMeta) → Manifest → Manifest
apply_sets [] m = m
apply_sets ((path, meta) ∷ rest) m = apply_sets rest (set path meta m)

unfoldable pub apply_removed : List Bytes → Manifest → Manifest
apply_removed [] m = m
apply_removed (path ∷ rest) m = apply_removed rest (erase path m)

unfoldable pub apply : ManifestPatch → Manifest → Manifest
unfolding apply_sets apply_removed
apply p m = apply_removed p.removed (apply_sets p.sets m)

abbrev pub also_set : Bytes → FileMeta → ManifestPatch → ManifestPatch
also_set path meta p = record p { sets = (path, meta) ∷ p.sets }

abbrev pub also_remove : Bytes → ManifestPatch → ManifestPatch
also_remove path p = record p { removed = path ∷ p.removed }

-- The merge walk of `diff_manifests`. The source pushes at the back as it walks; here the patch of
-- the rest gets the entry in front.
unfoldable pub diff_manifests : Manifest → Manifest → ManifestPatch
diff_manifests [] [] = no_change
diff_manifests ((j, v) ∷ a) [] = also_remove j (diff_manifests a [])
diff_manifests [] ((k, w) ∷ b) = also_set k w (diff_manifests [] b)
diff_manifests ((j, v) ∷ a) ((k, w) ∷ b) = elim (bytes_order.lt j k) [
  | true ↦ also_remove j (diff_manifests a ((k, w) ∷ b))
  | false ↦ elim (bytes_order.lt k j) [
    | true ↦ also_set k w (diff_manifests ((j, v) ∷ a) b)
    | false ↦ let rest = diff_manifests a b in if meta_eq v w then rest else also_set k w rest
  ]
]

-- `Manifest::total_bytes`, in a `uint64_t`.
unfoldable pub total_bytes : Manifest → ℕ
total_bytes [] = 0
total_bytes ((path, m) ∷ rest) = (m.size + total_bytes rest) % 2 ^ 64
