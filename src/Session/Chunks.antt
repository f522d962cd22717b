-- ===== src/Session/Chunks.antt =====
-- net/sync_session.cpp: `send_update_locked`, which cuts an update into chunks, against
-- the critical section of `handle_manifest_update`, which assembles them.
use rasync.Prelude.{
  ℕ, suc, ◌+◌, ◌≡◌, refl, sym, ◌∙◌, ap, subst, Bool, true, false, List, [], ◌∷◌, ◌++◌,
}
use rasync.Prelude.{length, leb, Bool-cases, inl, inr, if◌then◌else◌}
use rasync.Prelude.Order.{bytes_order}
use rasync.Codec.Writer.{Bytes}
use rasync.Meta.{FileMeta}
use rasync.SortedMap.{set, erase}
use rasync.Manifest.{Manifest, ManifestPatch, apply, apply_sets, apply_removed, no_change}
use rasync.Session.{View, take_chunk, published}

-- `kFixedEntryBytes`
abbrev pub fixed_entry_bytes : ℕ
fixed_entry_bytes = 54

-- The chunks flushed so far, and the one being filled with its estimate.
abbrev pub Cut : Type 0
Cut = List ManifestPatch × ManifestPatch × ℕ

abbrev pub flushed : ManifestPatch → Cut → Cut
flushed chunk (done, last, est) = (chunk ∷ done, last, est)

abbrev pub with_set : ManifestPatch → Bytes → FileMeta → ManifestPatch
with_set c path m = record c { sets = c.sets ++ (path, m) ∷ [] }

abbrev pub with_removed : ManifestPatch → Bytes → ManifestPatch
with_removed c path = record c { removed = c.removed ++ path ∷ [] }

-- The loop over `patch.set`.
unfoldable pub cut_sets : ℕ → List (Bytes × FileMeta) → ManifestPatch → ℕ → Cut
cut_sets cap [] chunk est = ([], chunk, est)
cut_sets cap ((path, m) ∷ es) chunk est = elim (leb cap (est + (fixed_entry_bytes + length path))) [
  | true ↦ flushed (with_set chunk path m) (cut_sets cap es no_change 0)
  | false ↦ cut_sets cap es (with_set chunk path m) (est + (fixed_entry_bytes + length path))
]

-- The loop over `patch.removed`.
unfoldable pub cut_removed : ℕ → List Bytes → ManifestPatch → ℕ → Cut
cut_removed cap [] chunk est = ([], chunk, est)
cut_removed cap (path ∷ rest) chunk est = elim (leb cap (est + (2 + length path))) [
  | true ↦ flushed (with_removed chunk path) (cut_removed cap rest no_change 0)
  | false ↦ cut_removed cap rest (with_removed chunk path) (est + (2 + length path))
]

-- `send_update_locked`: the chunks flagged `kMore`, and the last one. The first chunk of a reset
-- carries `kReset`.
unfoldable pub send_update : ℕ → ManifestPatch → List ManifestPatch × ManifestPatch
unfolding cut_sets cut_removed
send_update cap p =
    let (done, chunk, est) = cut_sets cap p.sets no_change 0 in
    let (more, last, _) = cut_removed cap p.removed chunk est in (done ++ more, last)

-- The chunks are assembled in the order they were sent.
unfoldable pub take_update : Bool → List ManifestPatch → ManifestPatch → View → Bool × View
unfolding take_chunk
take_update reset [] last v = take_chunk reset false last v
take_update reset (p ∷ ps) last v = take_update false ps last (take_chunk reset true p v).1

-- Applying patches one after the other.
abbrev play : List ManifestPatch → Manifest → Manifest
play [] m = m
play (p ∷ ps) m = play ps (apply p m)

play-append : (ps qs : List ManifestPatch) (m : Manifest) → play (ps ++ qs) m ≡ play qs (play ps m)
play-append [] qs m = refl
play-append (p ∷ ps) qs m = play-append ps qs (apply p m)

apply_sets-snoc :
    (es : List (Bytes × FileMeta)) (path : Bytes) (x : FileMeta) (m : Manifest)
    → apply_sets (es ++ (path, x) ∷ []) m ≡ set path x (apply_sets es m)
unfolding apply_sets
apply_sets-snoc [] path x m = refl
apply_sets-snoc ((j, y) ∷ es) path x m = apply_sets-snoc es path x (set j y m)

apply_removed-snoc :
    (rs : List Bytes) (path : Bytes) (m : Manifest)
    → apply_removed (rs ++ path ∷ []) m ≡ erase path (apply_removed rs m)
unfolding apply_removed
apply_removed-snoc [] path m = refl
apply_removed-snoc (r ∷ rs) path m = apply_removed-snoc rs path (erase r m)

apply-with_set :
    (c : ManifestPatch) (path : Bytes) (x : FileMeta) (m : Manifest)
    → c.removed ≡ []
    → apply (with_set c path x) m ≡ set path x (apply c m)
unfolding apply
apply-with_set c path x m h = rw (h, apply_sets-snoc c.sets path x m)

apply-with_removed :
    (c : ManifestPatch) (path : Bytes) (m : Manifest)
    → apply (with_removed c path) m ≡ erase path (apply c m)
unfolding apply
apply-with_removed c path m = apply_removed-snoc c.removed path (apply_sets c.sets m)

apply_none : (m : Manifest) → apply no_change m ≡ m
unfolding apply apply_sets apply_removed
apply_none m = refl

sets_step :
    (path : Bytes) (x : FileMeta) (es : List (Bytes × FileMeta)) (m : Manifest)
    → apply_sets ((path, x) ∷ es) m ≡ apply_sets es (set path x m)
unfolding apply_sets
sets_step path x es m = refl

removed_step :
    (path : Bytes) (rs : List Bytes) (m : Manifest)
    → apply_removed (path ∷ rs) m ≡ apply_removed rs (erase path m)
unfolding apply_removed
removed_step path rs m = refl

-- Playing the chunks of a cut gives `m`.
abbrev Plays : Cut → Manifest → Manifest → Type 0
Plays r from m = apply r.1 (play r.0 from) ≡ m

cut_sets-Plays :
    (cap : ℕ) (es : List (Bytes × FileMeta)) (c : ManifestPatch) (est : ℕ) (m : Manifest)
    → c.removed ≡ []
    → ((cut_sets cap es c est).1.removed ≡ [])
      × Plays (cut_sets cap es c est) m (apply_sets es (apply c m))
unfolding cut_sets
cut_sets-Plays cap [] c est m h = (h, unfold apply_sets in refl)
cut_sets-Plays cap ((path, x) ∷ es) c est m h =
    let c' = with_set c path x in
    let same =
      ap (apply_sets es) (apply-with_set c path x m h) ∙ sym (sets_step path x es (apply c m)) in
    elim (Bool-cases (leb cap (est + (fixed_entry_bytes + length path)))) [
      | inl e ↦
          let ih = cut_sets-Plays cap es no_change 0 (apply c' m) refl in
          rw (e, cut_sets) (ih.0, ih.1 ∙ ap (apply_sets es) (apply_none (apply c' m)) ∙ same)
      | inr e ↦
          let ih = cut_sets-Plays cap es c' (est + (fixed_entry_bytes + length path)) m h in
          rw (e, cut_sets) (ih.0, ih.1 ∙ same)
    ]

cut_removed-Plays :
    (cap : ℕ) (rs : List Bytes) (c : ManifestPatch) (est : ℕ) (m : Manifest)
    → Plays (cut_removed cap rs c est) m (apply_removed rs (apply c m))
unfolding cut_removed
cut_removed-Plays cap [] c est m = unfold apply_removed in refl
cut_removed-Plays cap (path ∷ rs) c est m =
    let c' = with_removed c path in
    let same =
      ap (apply_removed rs) (apply-with_removed c path m)
      ∙ sym (removed_step path rs (apply c m)) in
    elim (Bool-cases (leb cap (est + (2 + length path)))) [
      | inl e ↦
          let ih = cut_removed-Plays cap rs no_change 0 (apply c' m) in
          rw (e, cut_removed) (ih ∙ ap (apply_removed rs) (apply_none (apply c' m)) ∙ same)
      | inr e ↦
          let ih = cut_removed-Plays cap rs c' (est + (2 + length path)) m in
          rw (e, cut_removed) (ih ∙ same)
    ]

apply_whole :
    (p : ManifestPatch) (m : Manifest) → apply p m ≡ apply_removed p.removed (apply_sets p.sets m)
unfolding apply
apply_whole p m = refl

-- The chunks of an update do together what its patch does.
send_update-play :
    (cap : ℕ) (p : ManifestPatch) (m : Manifest)
    → apply (send_update cap p).1 (play (send_update cap p).0 m) ≡ apply p m
unfolding send_update
send_update-play cap p m =
    let r = cut_sets cap p.sets no_change 0 in
    let q = cut_removed cap p.removed r.1 r.2 in
    ap (apply q.1) (play-append r.0 q.0 m)
    ∙ cut_removed-Plays cap p.removed r.1 r.2 (play r.0 m)
    ∙ ap (apply_removed p.removed)
        ((cut_sets-Plays cap p.sets no_change 0 m refl).1 ∙ ap (apply_sets p.sets) (apply_none m))
    ∙ sym (apply_whole p m)

staged_more :
    (p : ManifestPatch) (v : View)
    → v.staging_active ≡ true
    → take_chunk false true p v
      ≡ (false, record v { staging = apply p v.staging; staging_active = true })
unfolding take_chunk
staged_more p v a = rw (a, take_chunk)

staged_last :
    (p : ManifestPatch) (v : View)
    → v.staging_active ≡ true
    → take_chunk false false p v ≡ (true, published (apply p v.staging) v)
unfolding take_chunk
staged_last p v a = rw (a, take_chunk)

opened_more :
    (p : ManifestPatch) (v : View)
    → v.staging_active ≡ false
    → take_chunk false true p v
      ≡ (false, record v { staging = apply p v.remote; staging_active = true })
unfolding take_chunk
opened_more p v a = rw (a, take_chunk)

-- What is left of an update whose chunks are being assembled.
assembled :
    (ps : List ManifestPatch) (last : ManifestPatch) (v : View)
    → v.staging_active ≡ true
    → take_update false ps last v ≡ (true, published (apply last (play ps v.staging)) v)
unfolding take_update
assembled [] last v a = staged_last last v a
assembled (p ∷ ps) last v a =
    let next : View = record v { staging = apply p v.staging; staging_active = true } in
    ap (λ r. take_update false ps last r.1) (staged_more p v a) ∙ assembled ps last next refl

-- The peer's tree is `m` now, a version on, with nothing half assembled, and a round follows.
abbrev pub Committed : View → Manifest → Bool × View → Type 0
Committed v m (round, v') =
    (round ≡ true)
    × (v'.remote ≡ m)
    × (v'.remote_version ≡ suc v.remote_version)
    × (v'.staging_active ≡ false)

received :
    (reset : Bool) (ps : List ManifestPatch) (last : ManifestPatch) (v : View)
    → v.staging_active ≡ false
    → Committed v
        (apply last (play ps (if reset then [] else v.remote)))
        (take_update reset ps last v)
unfolding take_update take_chunk
received true [] last v a = (refl, refl, refl, refl)
received true (p ∷ ps) last v a =
    let next : View = record v { staging = apply p []; staging_active = true } in
    rw (assembled ps last next refl) (refl, refl, refl, refl)
received false [] last v a = rw (a, take_update, take_chunk) (refl, refl, refl, refl)
received false (p ∷ ps) last v a =
    let next : View = record v { staging = apply p v.remote; staging_active = true } in
    subst
      (λ r. Committed v (apply last (play ps (apply p v.remote))) (take_update false ps last r.1))
      (sym (opened_more p v a)) (rw (assembled ps last next refl) (refl, refl, refl, refl))

pub take_update-send_update :
    (cap : ℕ) (p : ManifestPatch) (reset : Bool) (v : View)
    → v.staging_active ≡ false
    → Committed v
        (apply p (if reset then [] else v.remote))
        (take_update reset (send_update cap p).0 (send_update cap p).1 v)
take_update-send_update cap p reset v a =
    let u = send_update cap p in
    let base : Manifest = if reset then [] else v.remote in
    subst (λ m. Committed v m (take_update reset u.0 u.1 v)) (send_update-play cap p base)
      (received reset u.0 u.1 v a)
