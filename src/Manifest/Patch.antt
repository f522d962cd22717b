-- ===== src/Manifest/Patch.antt =====
-- core/manifest.cpp: what a patch makes of a manifest.
use rasync.Prelude.{◌≡◌, refl, ◌∙◌, List, [], ◌∷◌, Option, none, some}
use rasync.Prelude.{if◌then◌else◌}
use rasync.Prelude.Order.{bytes_order}
use rasync.Codec.Writer.{Bytes}
use rasync.Meta.{FileMeta}
use rasync.SortedMap.{same, set, erase, find, IsSorted}
use rasync.SortedMap.Laws.{find-set, find-erase, set-IsSorted, erase-IsSorted}
use rasync.Manifest.{Manifest, ManifestPatch, apply, apply_sets, apply_removed}

-- What the two lists of a patch make of the entry of `k`.
abbrev pub latest : Bytes → List (Bytes × FileMeta) → Option FileMeta → Option FileMeta
latest k [] old = old
latest k ((j, v) ∷ rest) old = latest k rest (if same k j then some v else old)

abbrev pub unless_removed : Bytes → List Bytes → Option FileMeta → Option FileMeta
unless_removed k [] old = old
unless_removed k (j ∷ rest) old = unless_removed k rest (if same k j then none else old)

pub apply_sets-IsSorted :
    (s : List (Bytes × FileMeta)) (m : Manifest) → IsSorted m → IsSorted (apply_sets s m)
unfolding apply_sets
apply_sets-IsSorted [] m h = h
apply_sets-IsSorted ((j, v) ∷ s) m h = apply_sets-IsSorted s (set j v m) (set-IsSorted j v m h)

apply_removed-IsSorted : (r : List Bytes) (m : Manifest) → IsSorted m → IsSorted (apply_removed r m)
unfolding apply_removed
apply_removed-IsSorted [] m h = h
apply_removed-IsSorted (j ∷ r) m h = apply_removed-IsSorted r (erase j m) (erase-IsSorted j m h)

-- Any patch keeps the entries sorted, with no path twice.
pub apply-IsSorted : (p : ManifestPatch) (m : Manifest) → IsSorted m → IsSorted (apply p m)
unfolding apply
apply-IsSorted p m h =
    apply_removed-IsSorted p.removed (apply_sets p.sets m) (apply_sets-IsSorted p.sets m h)

find-apply_sets :
    (k : Bytes) (s : List (Bytes × FileMeta)) (m : Manifest)
    → IsSorted m
    → find k (apply_sets s m) ≡ latest k s (find k m)
unfolding apply_sets
find-apply_sets k [] m h = refl
find-apply_sets k ((j, v) ∷ s) m h =
    find-apply_sets k s (set j v m) (set-IsSorted j v m h) ∙ rw (find-set k j v m h)

find-apply_removed :
    (k : Bytes) (r : List Bytes) (m : Manifest)
    → IsSorted m
    → find k (apply_removed r m) ≡ unless_removed k r (find k m)
unfolding apply_removed
find-apply_removed k [] m h = refl
find-apply_removed k (j ∷ r) m h =
    find-apply_removed k r (erase j m) (erase-IsSorted j m h) ∙ rw (find-erase k j m h)

abbrev pub change : Bytes → ManifestPatch → Option FileMeta → Option FileMeta
change k p old = unless_removed k p.removed (latest k p.sets old)

pub find-apply :
    (k : Bytes) (p : ManifestPatch) (m : Manifest)
    → IsSorted m
    → find k (apply p m) ≡ change k p (find k m)
unfolding apply
find-apply k p m h =
    find-apply_removed k p.removed (apply_sets p.sets m) (apply_sets-IsSorted p.sets m h)
    ∙ rw (find-apply_sets k p.sets m h)
