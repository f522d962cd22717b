-- ===== src/Session/Tidy.antt =====
-- net/sync_session.cpp: what is advertised of a tree that a peer takes as it is.
use rasync.Prelude.{◌^◌, ◌<◌, ◌≤◌, ◌≡◌, arith, true, [], ◌∷◌}
use rasync.Prelude.{length, Bool-cases, inl, inr}
use rasync.Prelude.Order.{bytes_order, bytes_lt}
use rasync.Codec.Writer.{Bytes}
use rasync.Meta.{FileMeta, InRange, meta_eq}
use rasync.Paths.{is_safe_relpath}
use rasync.Manifest.{Manifest, ManifestPatch, diff_manifests, also_set, also_remove}
use rasync.Manifest.Encoding.RoundTrip.{PathFits, EntriesFit, PathsFit}
use rasync.Session.Update.{AllSafe}
use rasync.Session.Wire.{Sendable}
use rasync.Session.Advert.{whole_tree}

-- Fewer than 2^32 files, with safe paths of fewer than 2^16 bytes and fields that fit.
pub record Tidy (m : Manifest) : Type 0 where
  pub fit : EntriesFit m
  pub safe : AllSafe m
  pub few : length m < 2 ^ 32

-- Sets of some of these entries, and removals of some of those.
record Within (m n : Manifest) (p : ManifestPatch) : Type 0 where
  sets_fit : EntriesFit p.sets
  sets_safe : AllSafe p.sets
  removed_fit : PathsFit p.removed
  few_sets : length p.sets ≤ length n
  few_removed : length p.removed ≤ length m

Within-set :
    (m n : Manifest) (p : ManifestPatch) (path : Bytes) (x : FileMeta)
    → PathFits path × InRange x
    → is_safe_relpath path ≡ true
    → Within m n p
    → Within m ((path, x) ∷ n) (also_set path x p)
Within-set m n p path x (a, b) s w = record {
  sets_fit = (a, b, w.sets_fit);
  sets_safe = (s, w.sets_safe);
  removed_fit = w.removed_fit;
  few_sets = omega (arith, w.few_sets);
  few_removed = w.few_removed;
}

Within-remove :
    (m n : Manifest) (p : ManifestPatch) (path : Bytes) (x : FileMeta)
    → PathFits path
    → Within m n p
    → Within ((path, x) ∷ m) n (also_remove path p)
Within-remove m n p path x a w = record {
  sets_fit = w.sets_fit;
  sets_safe = w.sets_safe;
  removed_fit = (a, w.removed_fit);
  few_sets = w.few_sets;
  few_removed = omega (arith, w.few_removed);
}

-- With an entry more on either side.
Within-skip :
    (m n : Manifest) (p : ManifestPatch) (j k : Bytes) (v w : FileMeta)
    → Within m n p
    → Within ((j, v) ∷ m) ((k, w) ∷ n) p
Within-skip m n p j k v w i = record {
  sets_fit = i.sets_fit;
  sets_safe = i.sets_safe;
  removed_fit = i.removed_fit;
  few_sets = omega (arith, i.few_sets);
  few_removed = omega (arith, i.few_removed);
}

diff_manifests-Within :
    (m n : Manifest) → EntriesFit m → EntriesFit n → AllSafe n → Within m n (diff_manifests m n)
unfolding diff_manifests
diff_manifests-Within [] [] f g s = record {
  sets_fit = tt;
  sets_safe = tt;
  removed_fit = tt;
  few_sets = omega arith;
  few_removed = omega arith;
}
diff_manifests-Within ((j, v) ∷ m) [] (a, b, f) g s =
    Within-remove m [] (diff_manifests m []) j v a (diff_manifests-Within m [] f g s)
diff_manifests-Within [] ((k, w) ∷ n) f (c, d, g) (t, s) =
    Within-set [] n (diff_manifests [] n) k w (c, d) t (diff_manifests-Within [] n f g s)
diff_manifests-Within ((j, v) ∷ m) ((k, w) ∷ n) (a, b, f) (c, d, g) (t, s) =
    elim (Bool-cases (bytes_lt j k)) [
      | inl e ↦
          let ih = diff_manifests-Within m ((k, w) ∷ n) f (c, d, g) (t, s) in
          rw (e, diff_manifests)
            (Within-remove m ((k, w) ∷ n) (diff_manifests m ((k, w) ∷ n)) j v a ih)
      | inr e ↦ elim (Bool-cases (bytes_lt k j)) [
        | inl e' ↦
            let ih = diff_manifests-Within ((j, v) ∷ m) n (a, b, f) g s in
            rw (e, e', diff_manifests)
              (Within-set ((j, v) ∷ m) n (diff_manifests ((j, v) ∷ m) n) k w (c, d) t ih)
        | inr e' ↦
            let p = diff_manifests m n in
            let ih = diff_manifests-Within m n f g s in
            elim (Bool-cases (meta_eq v w)) [
              | inl q ↦ rw (e, e', q, diff_manifests) (Within-skip m n p j k v w ih)
              | inr q ↦
                  let both = Within-skip m n p j k v w ih in
                  rw (e, e', q, diff_manifests)
                    (record {
                      sets_fit = (c, d, ih.sets_fit);
                      sets_safe = (t, ih.sets_safe);
                      removed_fit = ih.removed_fit;
                      few_sets = omega (arith, ih.few_sets);
                      few_removed = both.few_removed;
                    })
            ]
      ]
    ]

pub diff_manifests-Sendable : (m n : Manifest) → Tidy m → Tidy n → Sendable (diff_manifests m n)
diff_manifests-Sendable m n h k =
    let w = diff_manifests-Within m n h.fit k.fit k.safe in
    record {
      fits = record {
        sets_fit = w.sets_fit;
        removed_fit = w.removed_fit;
        few_sets = omega (arith, w.few_sets, k.few);
        few_removed = omega (arith, w.few_removed, h.few);
      };
      safe = w.sets_safe;
    }

pub whole_tree-Sendable : (m : Manifest) → Tidy m → Sendable (whole_tree m)
whole_tree-Sendable m h = record {
  fits = record { sets_fit = h.fit; removed_fit = tt; few_sets = h.few; few_removed = omega arith };
  safe = h.safe;
}

pub Tidy-none : Tidy []
Tidy-none = record { fit = tt; safe = tt; few = omega arith }
