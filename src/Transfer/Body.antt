-- ===== src/Transfer/Body.antt =====
-- net/sync_session.cpp: the frames between FileStart and FileEnd, where nothing fails.
use rasync.Prelude.{ℕ, ◌+◌, ◌^◌, ◌<◌, ◌≤◌, ◌≡◌, refl, sym, ◌∙◌, ap, subst, arith}
use rasync.Prelude.{Bool, true, false, List, [], ◌∷◌, ◌++◌, some}
use rasync.Prelude.{length, length-append}
use rasync.Prelude.Int.{ℤ}
use rasync.Prelude.Equality.{bytes_eq, bytes_eq_refl}
use rasync.Prelude.Order.{nat_order}
use rasync.Codec.Writer.{Bytes}
use rasync.Meta.{FileMeta}
use rasync.SortedMap.{set, IsSorted}
use rasync.Delta.{slice}
use rasync.Transfer.{
  Disk, Frame, Table, Outcome, file_start, file_literal, file_copy, file_end, fresh,
  handle_file_literal, handle_file_copy, handle_file_end, finalize_incoming, handle_frame,
  handle_all,
}
use rasync.Transfer.Fed.{
  Reliable, Subject, Has, Fed, set-Has, installs, installs-append, handle_file_literal-Fed,
  handle_file_copy-Fed,
}
use rasync.Transfer.Serve.{literals}
use mathlib.Core.List.{append-nil, append_assoc}

-- What the frames between FileStart and FileEnd carry, given the base.
abbrev pub carried : Bytes → List Frame → Bytes
carried base [] = []
carried base (file_start xid path size mtime mode d ∷ fs) = carried base fs
carried base (file_literal xid d ∷ fs) = d ++ carried base fs
carried base (file_copy xid off len ∷ fs) = slice off (off + len) base ++ carried base fs
carried base (file_end xid digest ∷ fs) = carried base fs

-- They belong to one transfer, and copy from inside its base.
abbrev pub Body : Subject → Bytes → List Frame → Type 0
Body s base [] = Unit {0}
Body s base (file_start xid path size mtime mode d ∷ fs) = false ≡ true
Body s base (file_literal xid d ∷ fs) = (xid ≡ s.xid) × Body s base fs
Body s base (file_copy xid off len ∷ fs) =
    (xid ≡ s.xid) × (s.base ≡ some base) × (off + len ≤ length base) × Body s base fs
Body s base (file_end xid digest ∷ fs) = false ≡ true

handle_all-append :
    (disk : Disk) (fs gs : List Frame) (m : Table)
    → handle_all disk (fs ++ gs) m ≡ (
      (handle_all disk fs m).0 ++ (handle_all disk gs (handle_all disk fs m).1).0,
      (handle_all disk gs (handle_all disk fs m).1).1,
    )
handle_all-append disk [] gs m = refl
handle_all-append disk (f ∷ fs) gs m = rw (
  handle_all-append disk fs gs (handle_frame disk f m).1,
  append_assoc (handle_frame disk f m).0 (handle_all disk fs (handle_frame disk f m).1).0
      (handle_all disk gs (handle_all disk fs (handle_frame disk f m).1).1).0,
)

abbrev then_all : Disk → Outcome → List Frame → Outcome
then_all disk (es, m) fs = let (later, m') = handle_all disk fs m in (es ++ later, m')

pub carried-append :
    (base : Bytes) (fs gs : List Frame)
    → carried base (fs ++ gs) ≡ carried base fs ++ carried base gs
carried-append base [] gs = refl
carried-append base (file_start xid path size mtime mode d ∷ fs) gs = carried-append base fs gs
carried-append base (file_literal xid d ∷ fs) gs =
    rw (carried-append base fs gs) (sym (append_assoc d (carried base fs) (carried base gs)))
carried-append base (file_copy xid off len ∷ fs) gs =
    rw (carried-append base fs gs)
      (sym (append_assoc (slice off (off + len) base) (carried base fs) (carried base gs)))
carried-append base (file_end xid digest ∷ fs) gs = carried-append base fs gs

pub literals-Body :
    (s : Subject) (base : Bytes) (ps : List Bytes) (fs : List Frame)
    → Body s base fs
    → Body s base (literals s.xid ps ++ fs)
literals-Body s base [] fs h = h
literals-Body s base (p ∷ ps) fs h = (refl, literals-Body s base ps fs h)

module _ (disk : Disk) (good : Reliable disk) where
  -- A frame was taken, and the rest is.
  one_more :
      (s : Subject) (content d text : Bytes) (o : Outcome) (fs : List Frame)
      → length (content ++ (d ++ text)) < 2 ^ 64
      → (length (content ++ d) < 2 ^ 64 → Fed s (content ++ d) o)
      → ((m : Table)
          → length ((content ++ d) ++ text) < 2 ^ 64
          → Has s (content ++ d) m
          → Fed s ((content ++ d) ++ text) (handle_all disk fs m))
      → Fed s (content ++ (d ++ text)) (then_all disk o fs)
  one_more s content d text (es, m) fs l step rest =
      let whole = append_assoc content d text in
      let now = step (omega (arith, l, length-append (content ++ d) text, ap length whole)) in
      let later = rest m (subst (λ c. length c < 2 ^ 64) (sym whole) l) now.1 in
      (
        installs-append es (handle_all disk fs m).0 ∙ rw now.0 later.0,
        subst (λ c. Has s c (handle_all disk fs m).1) whole later.1,
      )

  handle_all-Fed :
      (s : Subject) (content base : Bytes) (fs : List Frame) (m : Table)
      → length base < 2 ^ 64
      → Body s base fs
      → length (content ++ carried base fs) < 2 ^ 64
      → Has s content m
      → Fed s (content ++ carried base fs) (handle_all disk fs m)
  unfolding handle_frame
  handle_all-Fed s content base [] m b k l h =
      (refl, subst (λ c. Has s c m) (sym (append-nil content)) h)
  handle_all-Fed s content base (file_start xid path size mtime mode d ∷ fs) m b k l h =
      let n : false ≡ true = k in cc
  handle_all-Fed s content base (file_end xid digest ∷ fs) m b k l h =
      let n : false ≡ true = k in cc
  handle_all-Fed s content base (file_literal xid d ∷ fs) m b (e, k) l h =
      let one =
        one_more s content d (carried base fs) (handle_file_literal disk s.xid d m) fs l
          (λ a. handle_file_literal-Fed disk good s content d m a h)
          (λ m' l' h'. handle_all-Fed s (content ++ d) base fs m' b k l' h') in
      subst
        (λ x.
          Fed s (content ++ (d ++ carried base fs))
            (then_all disk (handle_file_literal disk x d m) fs))
        (sym e) one
  handle_all-Fed s content base (file_copy xid off len ∷ fs) m b (e, o, r, k) l h =
      let d = slice off (off + len) base in
      let one =
        one_more s content d (carried base fs) (handle_file_copy disk s.xid off len m) fs l
          (λ a. handle_file_copy-Fed disk good s content base off len m o r b a h)
          (λ m' l' h'. handle_all-Fed s (content ++ d) base fs m' b k l' h') in
      subst
        (λ x.
          Fed s (content ++ (d ++ carried base fs))
            (then_all disk (handle_file_copy disk x off len m) fs))
        (sym e) one

  -- The entry of the file in the local manifest.
  abbrev pub entry_of : Bytes → ℤ → ℕ → FileMeta
  entry_of content mtime mode = record {
    size = length content;
    mtime = mtime;
    mode = mode;
    hash = disk.sha256 content;
  }

  handle_file_end-installs :
      (s : Subject) (content : Bytes) (m : Table)
      → Has s content m
      → installs (handle_file_end disk s.xid (disk.sha256 content) m).0
        ≡ (s.rel_path, content, entry_of content s.mtime s.mode) ∷ []
  unfolding handle_file_end finalize_incoming
  handle_file_end-installs s content m h =
      let i = h.entry in
      let k : bytes_eq (disk.sha256 i.hashed) (disk.sha256 content) ≡ true =
        rw h.fits.hashed (bytes_eq_refl (disk.sha256 content)) in
      rw (h.found, k, handle_file_end, finalize_incoming, good.moved i.rel_path, h.fits.named)
        (let f = h.fits in
          rw (f.same_path, f.same_mtime, f.same_mode, f.wrote, f.hashed, f.counted))

  start-Has :
      (s : Subject) (size : ℕ) (d : Bool) (m : Table)
      → IsSorted m
      → Has s [] (set s.xid (fresh disk s.rel_path size s.mtime s.mode d s.base) m)
  start-Has s size d m h =
      set-Has s (fresh disk s.rel_path size s.mtime s.mode d s.base) m [] h (record {
        same_path = refl;
        same_mtime = refl;
        same_mode = refl;
        same_base = refl;
        named = refl;
        wrote = refl;
        hashed = refl;
        counted = refl;
      })

  -- The frames of a transfer, from its body and its end.
  abbrev pub closed : Subject → Bytes → List Frame → List Frame
  closed s content body = body ++ file_end s.xid (disk.sha256 content) ∷ []

  pub closed-installs :
      (s : Subject) (base : Bytes) (body : List Frame) (size : ℕ) (d : Bool) (m : Table)
      → IsSorted m
      → length base < 2 ^ 64
      → Body s base body
      → length (carried base body) < 2 ^ 64
      → installs
          (handle_all disk
            (closed s (carried base body) body)
            (set s.xid (fresh disk s.rel_path size s.mtime s.mode d s.base) m)).0
        ≡ (s.rel_path, carried base body, entry_of (carried base body) s.mtime s.mode) ∷ []
  unfolding handle_frame
  closed-installs s base body size d m h b k l =
      let content = carried base body in
      let m₀ = set s.xid (fresh disk s.rel_path size s.mtime s.mode d s.base) m in
      let fed = handle_all-Fed s [] base body m₀ b k l (start-Has s size d m h) in
      let end = handle_file_end disk s.xid (disk.sha256 content) (handle_all disk body m₀).1 in
      ap (λ (o : Outcome). installs o.0)
        (handle_all-append disk body (file_end s.xid (disk.sha256 content) ∷ []) m₀)
      ∙ installs-append (handle_all disk body m₀).0 (end.0 ++ [])
      ∙ rw (fed.0, append-nil end.0)
          (handle_file_end-installs s content (handle_all disk body m₀).1 fed.1)
