-- ===== src/Manifest/Diff.antt =====
-- core/manifest.cpp: the patch between two manifests, applied to the first.
use rasync.Prelude.{◌≡◌, refl, sym, ◌∙◌, arith, true, false, [], ◌∷◌, Option, none, some}
use rasync.Prelude.{if◌then◌else◌, ap, subst, Bool-cases, inl, inr}
use rasync.Prelude.Order.{bytes_order, bytes_lt, bytes_lt_irrefl, bytes_lt_tri}
use rasync.Codec.Writer.{Bytes}
use rasync.Meta.{FileMeta, meta_eq, meta_eq→eq, meta_eq_refl}
use rasync.SortedMap.{same, find, Above, IsSorted}
use rasync.SortedMap.Laws.{find-Above, find_this, find_other, same→eq, Above-trans}
use rasync.SortedMap.Extensional.{eq_of_find}
use rasync.Manifest.{
  Manifest, ManifestPatch, apply, diff_manifests, is_empty, also_set, also_remove,
}
use rasync.Manifest.Patch.{latest, unless_removed, change, find-apply, apply-IsSorted}
use rasync.Manifest.{no_change}
use rasync.Prelude.{◌↔◌}

-- A path below all paths of both trees is in neither list of their patch.
abbrev Untouched : Bytes → ManifestPatch → Type 0
Untouched k p =
    ((old : Option FileMeta) → latest k p.sets old ≡ old)
    × ((old : Option FileMeta) → unless_removed k p.removed old ≡ old)

Untouched-set :
    (k j : Bytes) (v : FileMeta) (p : ManifestPatch)
    → bytes_lt k j ≡ true
    → Untouched k p
    → Untouched k (also_set j v p)
Untouched-set k j v p h u = (λ old. rw (h, latest) (u.0 old), u.1)

Untouched-remove :
    (k j : Bytes) (p : ManifestPatch)
    → bytes_lt k j ≡ true
    → Untouched k p
    → Untouched k (also_remove j p)
Untouched-remove k j p h u = (u.0, λ old. rw (h, unless_removed) (u.1 old))

-- The steps of the walk.
diff_only_from :
    (j : Bytes) (v : FileMeta) (m : Manifest)
    → diff_manifests ((j, v) ∷ m) [] ≡ also_remove j (diff_manifests m [])
unfolding diff_manifests
diff_only_from j v m = refl

diff_only_to :
    (k : Bytes) (w : FileMeta) (n : Manifest)
    → diff_manifests [] ((k, w) ∷ n) ≡ also_set k w (diff_manifests [] n)
unfolding diff_manifests
diff_only_to k w n = refl

module _ (j : Bytes) (v : FileMeta) (m : Manifest) (k : Bytes) (w : FileMeta) (n : Manifest) where
  diff_lt :
      bytes_lt j k ≡ true
      → diff_manifests ((j, v) ∷ m) ((k, w) ∷ n) ≡ also_remove j (diff_manifests m ((k, w) ∷ n))
  unfolding diff_manifests
  diff_lt h = rw (h, diff_manifests)

  diff_gt :
      bytes_lt j k ≡ false
      → bytes_lt k j ≡ true
      → diff_manifests ((j, v) ∷ m) ((k, w) ∷ n) ≡ also_set k w (diff_manifests ((j, v) ∷ m) n)
  unfolding diff_manifests
  diff_gt h g = rw (h, diff_manifests) (rw g)

  diff_eq :
      bytes_lt j k ≡ false
      → bytes_lt k j ≡ false
      → diff_manifests ((j, v) ∷ m) ((k, w) ∷ n)
        ≡ (if meta_eq v w then diff_manifests m n else also_set k w (diff_manifests m n))
  unfolding diff_manifests
  diff_eq h g = ground arith

diff-Untouched_nil : (i : Bytes) (m : Manifest) → Above i m → Untouched i (diff_manifests m [])
unfolding diff_manifests
diff-Untouched_nil i [] a = (λ old. refl, λ old. refl)
diff-Untouched_nil i ((j, v) ∷ m) a =
    Untouched-remove i j (diff_manifests m []) a.0 (diff-Untouched_nil i m a.1)

diff_nil-Untouched : (i : Bytes) (n : Manifest) → Above i n → Untouched i (diff_manifests [] n)
unfolding diff_manifests
diff_nil-Untouched i [] b = (λ old. refl, λ old. refl)
diff_nil-Untouched i ((k, w) ∷ n) b =
    Untouched-set i k w (diff_manifests [] n) b.0 (diff_nil-Untouched i n b.1)

diff-Untouched :
    (i : Bytes) (m n : Manifest) → Above i m → Above i n → Untouched i (diff_manifests m n)
diff-Untouched i [] n a b = diff_nil-Untouched i n b
diff-Untouched i ((j, v) ∷ m) [] a b = diff-Untouched_nil i ((j, v) ∷ m) a
diff-Untouched i ((j, v) ∷ m) ((k, w) ∷ n) a b = elim (Bool-cases (bytes_lt j k)) [
  | inl p ↦ rw (diff_lt j v m k w n p) (
      Untouched-remove i j (diff_manifests m ((k, w) ∷ n)) a.0
        (diff-Untouched i m ((k, w) ∷ n) a.1 b))
  | inr p ↦ elim (Bool-cases (bytes_lt k j)) [
    | inl q ↦ rw (diff_gt j v m k w n p q) (
        Untouched-set i k w (diff_manifests ((j, v) ∷ m) n) b.0
          (diff-Untouched i ((j, v) ∷ m) n a b.1))
    | inr q ↦ elim (Bool-cases (meta_eq v w)) [
      | inl e ↦ rw (diff_eq j v m k w n p q, e) (diff-Untouched i m n a.1 b.1)
      | inr e ↦
          rw (diff_eq j v m k w n p q, e)
            (Untouched-set i k w (diff_manifests m n) b.0 (diff-Untouched i m n a.1 b.1))
    ]
  ]
]

Above-same : (i j : Bytes) (m : Manifest) → same i j ≡ true → Above j m → Above i m
Above-same i j m h a = subst (λ x. Above x m) (sym (same→eq i j h)) a

-- The patch of `m` to `n` makes what `m` holds for a path what `n` holds.
abbrev Agrees : Manifest → Manifest → Type 0
Agrees m n = (i : Bytes) → change i (diff_manifests m n) (find i m) ≡ find i n

module _ (j : Bytes) (v : FileMeta) (m n : Manifest) (a : Above j m) (b : Above j n)
    (ih : Agrees m n) where
  -- The rest of the patch leaves the entry of `j` alone.
  settled :
      (i : Bytes)
      → same i j ≡ true
      → (old : Option FileMeta) → change i (diff_manifests m n) old ≡ old
  settled i e old =
      let u : Untouched i (diff_manifests m n) =
        diff-Untouched i m n (Above-same i j m e a) (Above-same i j n e b) in
      ap (unless_removed i (diff_manifests m n).removed) (u.0 old) ∙ u.1 old

  agrees_remove :
      (i : Bytes) → change i (also_remove j (diff_manifests m n)) (find i ((j, v) ∷ m)) ≡ find i n
  agrees_remove i = elim (Bool-cases (same i j)) [
    | inl e ↦
        rw (e, unless_removed)
          ((diff-Untouched i m n (Above-same i j m e a) (Above-same i j n e b)).1 none
            ∙ sym (find-Above i n (Above-same i j n e b)))
    | inr e ↦ rw (e, unless_removed) (rw (find_other i j v m e a) (ih i))
  ]

  agrees_set :
      (i : Bytes) → change i (also_set j v (diff_manifests m n)) (find i m) ≡ find i ((j, v) ∷ n)
  agrees_set i = elim (Bool-cases (same i j)) [
    | inl e ↦ rw (e, latest) (rw (find_this i j v n e) (settled i e (some v)))
    | inr e ↦ rw (e, latest) (rw (find_other i j v n e b) (ih i))
  ]

  -- Equal entries are not sent.
  agrees_keep :
      (i : Bytes) → change i (diff_manifests m n) (find i ((j, v) ∷ m)) ≡ find i ((j, v) ∷ n)
  agrees_keep i = elim (Bool-cases (same i j)) [
    | inl e ↦ rw (find_this i j v m e, find_this i j v n e) (settled i e (some v))
    | inr e ↦ rw (find_other i j v m e a, find_other i j v n e b) (ih i)
  ]

  agrees_replace :
      (w : FileMeta) (i : Bytes)
      → change i (also_set j w (diff_manifests m n)) (find i ((j, v) ∷ m)) ≡ find i ((j, w) ∷ n)
  agrees_replace w i = elim (Bool-cases (same i j)) [
    | inl e ↦ rw (e, latest) (rw (find_this i j w n e) (settled i e (some w)))
    | inr e ↦ rw (e, latest) (rw (find_other i j v m e a, find_other i j w n e b) (ih i))
  ]

Agrees-both :
    (j k : Bytes) (v w : FileMeta) (m n : Manifest)
    → Above j m
    → Above k n
    → bytes_lt j k ≡ false
    → bytes_lt k j ≡ false
    → Agrees m n
    → Agrees ((j, v) ∷ m) ((k, w) ∷ n)
Agrees-both j k v w m n a b p q ih i =
    let e : j ≡ k = bytes_lt_tri j k p q in
    let a' : Above k m = subst (λ x. Above x m) e a in
    subst
      (λ x.
        change i (diff_manifests ((j, v) ∷ m) ((k, w) ∷ n)) (find i ((x, v) ∷ m))
        ≡ find i ((k, w) ∷ n))
      (sym e)
      (elim (Bool-cases (meta_eq v w)) [
        | inl same_meta ↦
            rw (diff_eq j v m k w n p q, same_meta)
              (rw (meta_eq→eq v w same_meta) (agrees_keep k w m n a' b ih i))
        | inr differ ↦ rw (diff_eq j v m k w n p q, differ) (agrees_replace k v m n a' b ih w i)
      ])

agrees : (m n : Manifest) → IsSorted m → IsSorted n → Agrees m n
agrees [] [] s t i = unfold diff_manifests in refl
agrees ((j, v) ∷ m) [] s t i =
    rw (diff_only_from j v m) (agrees_remove j v m [] s.0 tt (agrees m [] s.1 tt) i)
agrees [] ((k, w) ∷ n) s t i =
    rw (diff_only_to k w n) (agrees_set k w [] n tt t.0 (agrees [] n tt t.1) i)
agrees ((j, v) ∷ m) ((k, w) ∷ n) s t i = elim (Bool-cases (bytes_lt j k)) [
  | inl p ↦ rw (diff_lt j v m k w n p) (
      agrees_remove j v m ((k, w) ∷ n) s.0 (p, Above-trans j k n p t.0)
        (agrees m ((k, w) ∷ n) s.1 t) i)
  | inr p ↦ elim (Bool-cases (bytes_lt k j)) [
    | inl q ↦ rw (diff_gt j v m k w n p q) (
        agrees_set k w ((j, v) ∷ m) n (q, Above-trans k j m q s.0) t.0 (agrees ((j, v) ∷ m) n s t.1)
          i)
    | inr q ↦ Agrees-both j k v w m n s.0 t.0 p q (agrees m n s.1 t.1) i
  ]
]

-- Applying the patch between two sorted manifests to the first gives exactly the second.
pub apply-diff_manifests :
    (from to : Manifest) → IsSorted from → IsSorted to → apply (diff_manifests from to) from ≡ to
apply-diff_manifests from to s t =
    eq_of_find (apply (diff_manifests from to) from) to
      (apply-IsSorted (diff_manifests from to) from s) t
      (λ i. find-apply i (diff_manifests from to) from s ∙ agrees from to s t i)

diff_self : (m : Manifest) → diff_manifests m m ≡ no_change
diff_self [] = unfold diff_manifests in refl
diff_self ((j, v) ∷ m) =
    rw (diff_eq j v m j v m (bytes_lt_irrefl j) (bytes_lt_irrefl j), meta_eq_refl v) (diff_self m)

is_empty→eq : (p : ManifestPatch) → is_empty p ≡ true → p ≡ no_change
unfolding is_empty
is_empty→eq p h = ground arith

apply_nothing : (m : Manifest) → apply no_change m ≡ m
unfolding apply
apply_nothing m = refl

-- The patch between two sorted manifests is empty exactly when they are equal.
pub diff_manifests_empty :
    (from to : Manifest)
    → IsSorted from
    → IsSorted to
    → (is_empty (diff_manifests from to) ≡ true) ↔ (from ≡ to)
diff_manifests_empty from to s t = (
  λ h.
      sym (apply_nothing from)
      ∙ ap (λ p. apply p from) (sym (is_empty→eq (diff_manifests from to) h))
      ∙ apply-diff_manifests from to s t,
  λ e.
      subst (λ x. is_empty (diff_manifests from x) ≡ true) e
        (rw (diff_self from) (unfold is_empty in refl)),
)
