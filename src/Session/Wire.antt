-- ===== src/Session/Wire.antt =====
-- net/sync_session.cpp: the bytes of an update, from `flush` of `send_update_locked` to
-- `handle_manifest_update` of the peer.
use rasync.Prelude.{
  ℕ, ◌+◌, ◌^◌, ◌<◌, ◌≡◌, refl, sym, ◌∙◌, ap, subst, arith, Bool, true, false, List, [], ◌∷◌, ◌++◌,
}
use rasync.Prelude.{Option, some, length, length-append, leb, Bool-cases, inl, inr, if◌then◌else◌}
use rasync.Codec.Writer
use rasync.Codec.Writer.{Bytes}
use rasync.Codec.Reader.{Reader, start}
use rasync.Codec.RoundTrip.{u8-Reads}
use rasync.Meta.{FileMeta, InRange}
use rasync.Paths.{is_safe_relpath}
use rasync.Manifest.{Manifest, ManifestPatch, apply, no_change}
use rasync.Manifest.Encoding.{encode_patch, decode_patch}
use rasync.Manifest.Encoding.RoundTrip.{PathFits, EntriesFit, PathsFit}
use rasync.Manifest.Encoding.PatchRoundTrip.{
  PatchFits, decode_patch-encode_patch, encode_patch-append,
}
use rasync.Session.{
  View, safe_sets, sanitize, is_reset, is_more, take_chunk, handle_decoded, handle_manifest_update,
}
use rasync.Session.Update.{AllSafe}
use rasync.Session.Chunks.{
  Cut, with_set, with_removed, fixed_entry_bytes, cut_sets, cut_removed, send_update, take_update,
  Committed, take_update-send_update,
}
use mathlib.Core.List.{append-nil}

unfoldable pub chunk_flags : Bool → Bool → ℕ
chunk_flags reset more = (if reset then 1 else 0) + (if more then 2 else 0)

-- The body that `flush` writes behind the header.
unfoldable pub chunk_body : Bool → Bool → ManifestPatch → Bytes
unfolding chunk_flags
chunk_body reset more p = encode_patch (Writer.u8 [] (chunk_flags reset more)) p

-- The peer handles the messages of an update, in the order they were sent: those flagged `kMore`,
-- and the last one.
unfoldable pub receive_update : Bool → List ManifestPatch → ManifestPatch → View → Bool × View
unfolding chunk_body handle_manifest_update
receive_update reset [] last v = handle_manifest_update (start (chunk_body reset false last)) v
receive_update reset (p ∷ ps) last v =
    receive_update false ps last (handle_manifest_update (start (chunk_body reset true p)) v).1

-- A patch that arrives as it is: its fields fit, and its paths are safe.
pub record Sendable (p : ManifestPatch) : Type 0 where
  pub fits : PatchFits p
  pub safe : AllSafe p.sets

abbrev AllSendable : List ManifestPatch → Type 0
AllSendable [] = Unit {0}
AllSendable (p ∷ ps) = Sendable p × AllSendable ps

AllSendable-append :
    (ps qs : List ManifestPatch) → AllSendable ps → AllSendable qs → AllSendable (ps ++ qs)
AllSendable-append [] qs h k = k
AllSendable-append (p ∷ ps) qs (h, hs) k = (h, AllSendable-append ps qs hs k)

safe_sets_lem : (es : List (Bytes × FileMeta)) → AllSafe es → safe_sets es ≡ es
unfolding safe_sets
safe_sets_lem [] h = refl
safe_sets_lem ((path, m) ∷ rest) (e, h) = rw (e, safe_sets, safe_sets_lem rest h)

decoded_lem :
    (flags : ℕ) (p : ManifestPatch) (d : Option ManifestPatch × Reader) (v : View)
    → d ≡ (some p, start [])
    → AllSafe p.sets
    → handle_decoded flags d v ≡ take_chunk (is_reset flags) (is_more flags) p v
unfolding handle_decoded sanitize
decoded_lem flags p d v e h =
    ap (λ x. handle_decoded flags x v) e
    ∙ ap (λ es. take_chunk (is_reset flags) (is_more flags) (record p { sets = es }) v)
        (safe_sets_lem p.sets h)

update_lem :
    (flags : ℕ) (p : ManifestPatch) (v : View)
    → flags < 256
    → Sendable p
    → handle_manifest_update (start (encode_patch (Writer.u8 [] flags) p)) v
      ≡ take_chunk (is_reset flags) (is_more flags) p v
unfolding handle_manifest_update Writer.u8
update_lem flags p v h s =
    let d : decode_patch (start (encode_patch [] p)) ≡ (some p, start []) =
      subst (λ b. decode_patch (start b) ≡ (some p, start [])) (append-nil (encode_patch [] p))
        (decode_patch-encode_patch p [] s.fits) in
    ap (λ b. handle_manifest_update (start b) v) (encode_patch-append (Writer.u8 [] flags) p)
    ∙ rw (u8-Reads flags h (encode_patch [] p), handle_manifest_update)
        (decoded_lem flags p (decode_patch (start (encode_patch [] p))) v d s.safe)

-- A chunk arrives as it was flushed.
chunk_lem :
    (reset more : Bool) (p : ManifestPatch) (v : View)
    → Sendable p
    → handle_manifest_update (start (chunk_body reset more p)) v ≡ take_chunk reset more p v
unfolding chunk_body is_reset is_more
chunk_lem true true p v s = update_lem 3 p v (omega arith) s
chunk_lem true false p v s = update_lem 1 p v (omega arith) s
chunk_lem false true p v s = update_lem 2 p v (omega arith) s
chunk_lem false false p v s = update_lem 0 p v (omega arith) s

receive_update-take_update :
    (reset : Bool) (ps : List ManifestPatch) (last : ManifestPatch) (v : View)
    → AllSendable ps
    → Sendable last
    → receive_update reset ps last v ≡ take_update reset ps last v
unfolding receive_update take_update
receive_update-take_update reset [] last v h k = chunk_lem reset false last v k
receive_update-take_update reset (p ∷ ps) last v (h, hs) k =
    receive_update-take_update false ps last
      (handle_manifest_update (start (chunk_body reset true p)) v).1 hs k
    ∙ ap (λ (r : Bool × View). take_update false ps last r.1) (chunk_lem reset true p v h)

EntriesFit-snoc :
    (es : List (Bytes × FileMeta)) (path : Bytes) (m : FileMeta)
    → EntriesFit es
    → PathFits path × InRange m
    → EntriesFit (es ++ (path, m) ∷ [])
EntriesFit-snoc [] path m h (a, b) = (a, b, tt)
EntriesFit-snoc ((j, x) ∷ es) path m (a, b, h) k = (a, b, EntriesFit-snoc es path m h k)

AllSafe-snoc :
    (es : List (Bytes × FileMeta)) (path : Bytes) (m : FileMeta)
    → AllSafe es
    → is_safe_relpath path ≡ true
    → AllSafe (es ++ (path, m) ∷ [])
AllSafe-snoc [] path m h k = (k, tt)
AllSafe-snoc ((j, x) ∷ es) path m (a, h) k = (a, AllSafe-snoc es path m h k)

PathsFit-snoc :
    (ps : List Bytes) (path : Bytes) → PathsFit ps → PathFits path → PathsFit (ps ++ path ∷ [])
PathsFit-snoc [] path h k = (k, tt)
PathsFit-snoc (p ∷ ps) path (a, h) k = (a, PathsFit-snoc ps path h k)

with_set-Sendable :
    (c : ManifestPatch) (path : Bytes) (m : FileMeta)
    → Sendable c
    → PathFits path × InRange m
    → is_safe_relpath path ≡ true
    → length c.sets + 1 < 2 ^ 32
    → Sendable (with_set c path m)
with_set-Sendable c path m s f a n = record {
  fits = record {
    sets_fit = EntriesFit-snoc c.sets path m s.fits.sets_fit f;
    removed_fit = s.fits.removed_fit;
    few_sets = omega (arith, n, length-append c.sets ((path, m) ∷ []));
    few_removed = s.fits.few_removed;
  };
  safe = AllSafe-snoc c.sets path m s.safe a;
}

with_removed-Sendable :
    (c : ManifestPatch) (path : Bytes)
    → Sendable c
    → PathFits path
    → length c.removed + 1 < 2 ^ 32
    → Sendable (with_removed c path)
with_removed-Sendable c path s f n = record {
  fits = record {
    sets_fit = s.fits.sets_fit;
    removed_fit = PathsFit-snoc c.removed path s.fits.removed_fit f;
    few_sets = s.fits.few_sets;
    few_removed = omega (arith, n, length-append c.removed (path ∷ []));
  };
  safe = s.safe;
}

no_change-Sendable : Sendable no_change
no_change-Sendable = record {
  fits = record {
    sets_fit = tt;
    removed_fit = tt;
    few_sets = omega arith;
    few_removed = omega arith;
  };
  safe = tt;
}

abbrev CutSendable : Cut → Type 0
CutSendable r = AllSendable r.0 × Sendable r.1

cut_sets-CutSendable :
    (cap : ℕ) (es : List (Bytes × FileMeta)) (c : ManifestPatch) (est : ℕ)
    → EntriesFit es
    → AllSafe es
    → Sendable c
    → c.removed ≡ []
    → length c.sets + length es < 2 ^ 32
    → CutSendable (cut_sets cap es c est) × ((cut_sets cap es c est).1.removed ≡ [])
unfolding cut_sets
cut_sets-CutSendable cap [] c est f a s r n = ((tt, s), r)
cut_sets-CutSendable cap ((path, m) ∷ es) c est (p, i, f) (b, a) s r n =
    let c' = with_set c path m in
    let s' = with_set-Sendable c path m s (p, i) b (omega (arith, n)) in
    elim (Bool-cases (leb cap (est + (fixed_entry_bytes + length path)))) [
      | inl e ↦
          let ih =
            cut_sets-CutSendable cap es no_change 0 f a no_change-Sendable refl
              (omega (arith, n)) in
          rw (e, cut_sets) (((s', ih.0.0), ih.0.1), ih.1)
      | inr e ↦
          rw (e, cut_sets)
            (cut_sets-CutSendable cap es c' (est + (fixed_entry_bytes + length path)) f a s' r
              (omega (arith, n, length-append c.sets ((path, m) ∷ []))))
    ]

cut_removed-CutSendable :
    (cap : ℕ) (rs : List Bytes) (c : ManifestPatch) (est : ℕ)
    → PathsFit rs
    → Sendable c
    → length c.removed + length rs < 2 ^ 32
    → CutSendable (cut_removed cap rs c est)
unfolding cut_removed
cut_removed-CutSendable cap [] c est f s n = (tt, s)
cut_removed-CutSendable cap (path ∷ rs) c est (p, f) s n =
    let c' = with_removed c path in
    let s' = with_removed-Sendable c path s p (omega (arith, n)) in
    elim (Bool-cases (leb cap (est + (2 + length path)))) [
      | inl e ↦
          let ih =
            cut_removed-CutSendable cap rs no_change 0 f no_change-Sendable (omega (arith, n)) in
          rw (e, cut_removed) ((s', ih.0), ih.1)
      | inr e ↦
          rw (e, cut_removed)
            (cut_removed-CutSendable cap rs c' (est + (2 + length path)) f s'
              (omega (arith, n, length-append c.removed (path ∷ []))))
    ]

send_update-Sendable :
    (cap : ℕ) (p : ManifestPatch)
    → Sendable p
    → AllSendable (send_update cap p).0 × Sendable (send_update cap p).1
unfolding send_update
send_update-Sendable cap p s =
    let f = s.fits in
    let r = cut_sets cap p.sets no_change 0 in
    let (a, none_yet) =
      cut_sets-CutSendable cap p.sets no_change 0 f.sets_fit s.safe no_change-Sendable refl
        (omega (arith, f.few_sets)) in
    let b =
      cut_removed-CutSendable cap p.removed r.1 r.2 f.removed_fit a.1
        (omega (arith, f.few_removed, ap (λ (ps : List Bytes). length ps) none_yet)) in
    (AllSendable-append r.0 (cut_removed cap p.removed r.1 r.2).0 a.0 b.0, b.1)

pub receive_update-send_update :
    (cap : ℕ) (p : ManifestPatch) (reset : Bool) (v : View)
    → Sendable p
    → v.staging_active ≡ false
    → Committed v
        (apply p (if reset then [] else v.remote))
        (receive_update reset (send_update cap p).0 (send_update cap p).1 v)
receive_update-send_update cap p reset v s a =
    let u = send_update cap p in
    let base : Manifest = if reset then [] else v.remote in
    let k = send_update-Sendable cap p s in
    subst (Committed v (apply p base)) (sym (receive_update-take_update reset u.0 u.1 v k.0 k.1))
      (take_update-send_update cap p reset v a)
