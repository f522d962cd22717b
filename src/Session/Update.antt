-- ===== src/Session/Update.antt =====
-- net/sync_session.cpp, `handle_manifest_update`: updates in chunks, and unsafe paths.
use rasync.Prelude.{ℕ, ◌≡◌, arith, Bool, true, false, List, [], ◌∷◌}
use rasync.Prelude.{some, none, Option, Bool-cases, inl, inr}
use rasync.Codec.Writer.{Bytes}
use rasync.Codec.Reader
use rasync.Codec.Reader.{Reader}
use rasync.Prelude.Order.{bytes_order}
use rasync.Meta.{FileMeta}
use rasync.Paths.{is_safe_relpath}
use rasync.SortedMap.{set, erase}
use rasync.Manifest.{Manifest, ManifestPatch, apply, apply_sets, apply_removed}
use rasync.Manifest.Encoding.{decode_patch}
use rasync.Session.{
  View, sanitize, safe_sets, take_chunk, handle_decoded, handle_manifest_update, is_reset, is_more,
}

-- Every path may be joined onto the sync root.
abbrev pub AllSafe : List (Bytes × FileMeta) → Type 0
AllSafe [] = Unit {0}
AllSafe ((path, m) ∷ rest) = (is_safe_relpath path ≡ true) × AllSafe rest

pub record SafeView (v : View) : Type 0 where
  pub remote_safe : AllSafe v.remote
  pub staging_safe : AllSafe v.staging

set-AllSafe :
    (path : Bytes) (x : FileMeta) (m : Manifest)
    → is_safe_relpath path ≡ true
    → AllSafe m
    → AllSafe (set path x m)
unfolding set
set-AllSafe path x [] h s = (h, tt)
set-AllSafe path x ((j, y) ∷ m) h s = ground (arith, set-AllSafe path x m h s.1)

erase-AllSafe : (path : Bytes) (m : Manifest) → AllSafe m → AllSafe (erase path m)
unfolding erase
erase-AllSafe path [] s = tt
erase-AllSafe path ((j, y) ∷ m) s = ground (arith, erase-AllSafe path m s.1)

safe_sets-AllSafe : (es : List (Bytes × FileMeta)) → AllSafe (safe_sets es)
unfolding safe_sets
safe_sets-AllSafe [] = tt
safe_sets-AllSafe ((path, m) ∷ rest) = elim (Bool-cases (is_safe_relpath path)) [
  | inl e ↦ rw (e, safe_sets) (e, safe_sets-AllSafe rest)
  | inr e ↦ rw (e, safe_sets) (safe_sets-AllSafe rest)
]

apply_sets-AllSafe :
    (es : List (Bytes × FileMeta)) (m : Manifest)
    → AllSafe es
    → AllSafe m
    → AllSafe (apply_sets es m)
unfolding apply_sets
apply_sets-AllSafe [] m e s = s
apply_sets-AllSafe ((path, x) ∷ rest) m (e, es) s =
    apply_sets-AllSafe rest (set path x m) es (set-AllSafe path x m e s)

apply_removed-AllSafe :
    (paths : List Bytes) (m : Manifest) → AllSafe m → AllSafe (apply_removed paths m)
unfolding apply_removed
apply_removed-AllSafe [] m s = s
apply_removed-AllSafe (path ∷ rest) m s =
    apply_removed-AllSafe rest (erase path m) (erase-AllSafe path m s)

apply-AllSafe :
    (p : ManifestPatch) (m : Manifest) → AllSafe p.sets → AllSafe m → AllSafe (apply p m)
unfolding apply
apply-AllSafe p m e s =
    apply_removed-AllSafe p.removed (apply_sets p.sets m) (apply_sets-AllSafe p.sets m e s)

take_chunk-SafeView :
    (reset more : Bool) (p : ManifestPatch) (v : View)
    → AllSafe p.sets
    → SafeView v
    → SafeView (take_chunk reset more p v).1
unfolding take_chunk
take_chunk-SafeView true true p v e s = record {
  remote_safe = s.remote_safe;
  staging_safe = apply-AllSafe p [] e tt;
}
take_chunk-SafeView true false p v e s = record {
  remote_safe = apply-AllSafe p [] e tt;
  staging_safe = tt;
}
take_chunk-SafeView false true p v e s = elim (Bool-cases v.staging_active) [
  | inl a ↦ rw a (record {
    remote_safe = s.remote_safe;
    staging_safe = apply-AllSafe p v.staging e s.staging_safe;
  })
  | inr a ↦ rw a (record {
    remote_safe = s.remote_safe;
    staging_safe = apply-AllSafe p v.remote e s.remote_safe;
  })
]
take_chunk-SafeView false false p v e s = elim (Bool-cases v.staging_active) [
  | inl a ↦
      rw a (record { remote_safe = apply-AllSafe p v.staging e s.staging_safe; staging_safe = tt })
  | inr a ↦ rw a (record {
    remote_safe = apply-AllSafe p v.remote e s.remote_safe;
    staging_safe = s.staging_safe;
  })
]

handle_decoded-SafeView :
    (flags : ℕ) (d : Option ManifestPatch × Reader) (v : View)
    → SafeView v
    → SafeView (handle_decoded flags d v).1
unfolding handle_decoded sanitize
handle_decoded-SafeView flags (none, r) v s = s
handle_decoded-SafeView flags (some p, r) v s = elim (Bool-cases r.ok) [
  | inl e ↦ rw e (
      take_chunk-SafeView (is_reset flags) (is_more flags) (sanitize p) v (safe_sets-AllSafe p.sets)
        s)
  | inr e ↦ rw e s
]

-- Whatever bytes a peer sends as an update, no path that could leave the sync root gets into what the
-- session knows of the peer's tree, nor into the update being assembled.
pub handle_manifest_update-SafeView :
    (r : Reader) (v : View) → SafeView v → SafeView (handle_manifest_update r v).1
unfolding handle_manifest_update
handle_manifest_update-SafeView r v s =
    let (flags, r') = Reader.u8 r in handle_decoded-SafeView flags (decode_patch r') v s
