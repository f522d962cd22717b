-- ===== src/Service/Versions.antt =====
-- net/sync_service.cpp: the version counts the states of the manifests.
use rasync.Prelude.{
  ℕ, ◌+◌, ◌%◌, ◌^◌, ◌<◌, ◌≤◌, ◌≡◌, refl, ◌∙◌, arith, Bool, List, [], ◌∷◌, Option, length,
}
use rasync.Prelude.{none, some, Bool-cases, inl, inr}
use rasync.Prelude.Order.{bytes_order}
use rasync.Codec.Writer.{Bytes}
use rasync.Meta.{FileMeta}
use rasync.Manifest.{Manifest, ManifestPatch, is_empty}
use rasync.Service.{
  Store, load_baseline, set_base_manifest, note_local_set, note_local_removed, set_local_manifest,
  apply_local_patch,
}

-- What can happen to the manifests of a folder.
pub data Change : Type 0 where
  loaded : Option Manifest → Change
  based : Bool → Manifest → Change
  received : Bytes → FileMeta → Change
  removed : Bytes → Change
  scanned : Manifest → Change
  patched : ManifestPatch → Change

unfoldable pub change : Change → Store → Store
unfolding load_baseline set_base_manifest note_local_set note_local_removed set_local_manifest
    apply_local_patch
change (loaded m) s = load_baseline m s
change (based saves m) s = set_base_manifest saves m s
change (received path m) s = note_local_set path m s
change (removed path) s = note_local_removed path s
change (scanned m) s = (set_local_manifest m s).1
change (patched p) s = (apply_local_patch p s).1

abbrev pub change_all : List Change → Store → Store
change_all [] s = s
change_all (c ∷ cs) s = change_all cs (change c s)

-- The two manifests that the reconciliation reads.
abbrev SameManifests : Store → Store → Type 0
SameManifests s t = (s.local ≡ t.local) × (s.base ≡ t.base)

-- The version is `k` changes on, and without a change the manifests are the same.
abbrev pub Ahead : ℕ → Store → Store → Type 0
Ahead k s t = (t.version ≡ (s.version + k) % 2 ^ 64) × (k ≡ 0 → SameManifests t s)

unchanged_Ahead : (s : Store) → s.version < 2 ^ 64 → Ahead 0 s s
unchanged_Ahead s h = (omega (arith, h), λ k. (refl, refl))

pub change_version :
    (c : Change) (s : Store) → s.version < 2 ^ 64 → (k : ℕ) × (k ≤ 1) × Ahead k s (change c s)
unfolding change load_baseline set_base_manifest note_local_set note_local_removed
    set_local_manifest apply_local_patch
change_version (loaded none) s h = (0, omega arith, unchanged_Ahead s h)
change_version (loaded (some m)) s h = (1, omega arith, (refl, λ k. absurd (omega (arith, k))))
change_version (based saves m) s h = (1, omega arith, (refl, λ k. absurd (omega (arith, k))))
change_version (received path m) s h = (1, omega arith, (refl, λ k. absurd (omega (arith, k))))
change_version (removed path) s h = (1, omega arith, (refl, λ k. absurd (omega (arith, k))))
change_version (scanned m) s h = (1, omega arith, (refl, λ k. absurd (omega (arith, k))))
change_version (patched p) s h = elim (Bool-cases (is_empty p)) [
  | inl e ↦ rw (e, change, apply_local_patch) (0, omega arith, unchanged_Ahead s h)
  | inr e ↦
      rw (e, change, apply_local_patch) (1, omega arith, (refl, λ k. absurd (omega (arith, k))))
]

-- Two stretches of changes, one after the other.
Ahead-trans : (j k : ℕ) (s t u : Store) → Ahead j s t → Ahead k t u → Ahead (j + k) s u
Ahead-trans j k s t u (a, f) (b, g) = (
  rw (b, a) (omega arith),
  λ n. let x = f (omega (arith, n)) in let y = g (omega (arith, n)) in (y.0 ∙ x.0, y.1 ∙ x.1),
)

pub Ahead-lt : (k : ℕ) (s t : Store) → Ahead k s t → t.version < 2 ^ 64
Ahead-lt k s t (a, f) = omega (arith, a)

-- Fewer than 2^64 changes on, an equal version means that there was none.
Ahead-zero :
    (k : ℕ) (s t : Store)
    → s.version < 2 ^ 64
    → k < 2 ^ 64
    → Ahead k s t
    → t.version ≡ s.version
    → k ≡ 0
Ahead-zero k s t h b (a, f) e = omega (arith, a, e, h, b)

change_all_version :
    (cs : List Change) (s : Store)
    → s.version < 2 ^ 64
    → (k : ℕ) × (k ≤ length cs) × Ahead k s (change_all cs s)
change_all_version [] s h = (0, omega arith, unchanged_Ahead s h)
change_all_version (c ∷ cs) s h =
    let (j, j_le, a) = change_version c s h in
    let (k, k_le, b) = change_all_version cs (change c s) (Ahead-lt j s (change c s) a) in
    (
      j + k,
      omega (arith, j_le, k_le),
      Ahead-trans j k s (change c s) (change_all cs (change c s)) a b,
    )

-- Whatever happens to a folder's manifests in between, fewer than 2^64 times, an equal version, which
-- has 64 bits, means that neither the local manifest nor the baseline has changed.
pub version_unchanged :
    (cs : List Change) (s : Store)
    → s.version < 2 ^ 64
    → length cs < 2 ^ 64
    → (change_all cs s).version ≡ s.version
    → ((change_all cs s).local ≡ s.local) × ((change_all cs s).base ≡ s.base)
version_unchanged cs s h n e =
    let (k, k_le, a) = change_all_version cs s h in
    a.1 (Ahead-zero k s (change_all cs s) h (omega (arith, k_le, n)) a e)
